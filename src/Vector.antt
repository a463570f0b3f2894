-- ===== src/Vector.antt =====
-- The growing array of libplctag/src/utils/vector.c. A slot holds a pointer, or none for a null
-- pointer. `alloc` says whether `mem_alloc` has memory for a number of slots; the memory that it
-- gives is zero. An access outside the array is undefined behaviour, `none`.
pub mod Lists
pub mod Moving
pub mod Contents
pub mod Refinement
pub mod Bounds
mod Tests
use junk.Prelude.{
  ℕ, zero, suc, ◌+◌, ◌-◌, ◌/◌, ◌≡◌, Bool, true, false, List, [], ◌∷◌, ◌++◌, Option, none, some,
  if◌then◌else◌, ◌>>=◌, ℤ, pos, negsuc, pos_part, ltb, leb, ltb_ℤ, leb_ℤ, ◌==ℤ◌, ◌&&◌, ◌||◌, not,
  length, get_elem?, set, take, drop, replicate,
}
use junk.Status.{status_ok, err_null_ptr, err_out_of_bounds, err_no_mem}

-- `struct vector_t`
pub record Vector (A : Type 0) : Type 0 where
  pub len : ℕ
  pub capacity : ℕ
  pub max_inc : ℕ
  pub slots : List (Option A)

-- The number of slots by which the array grows.
abbrev pub new_inc : {A : Type 0} → Vector A → ℕ
new_inc v =
    let half = v.capacity / 2 in
    let clamped = if ltb v.max_inc half then v.max_inc else half in
    if ltb clamped 1 then 1 else clamped

-- `mem_move` of `n` slots inside the array.
unfoldable pub move_slots : {X : Type 0} → List X → ℕ → ℕ → ℕ → Option (List X)
move_slots xs dest src zero = some xs
move_slots xs dest src (suc n) =
    let size = suc n in
    if leb (dest + size) (length xs) && leb (src + size) (length xs)
    then some (take dest xs ++ (take size (drop src xs) ++ drop (dest + size) xs))
    else none

-- `data[index] = x`
abbrev pub store_slot : {X : Type 0} → List X → ℕ → X → Option (List X)
store_slot xs i x = if ltb i (length xs) then some (set xs i x) else none

module _ {A : Type 0} where
  -- The index is valid for `vector_get` and `vector_remove`.
  abbrev pub has_index : Vector A → ℤ → Bool
  has_index v index = leb_ℤ (pos 0) index && ltb_ℤ index (pos v.len)

  unfoldable pub vector_length : Option (Vector A) → ℤ
  vector_length none = err_null_ptr
  vector_length (some v) = pos v.len

  -- The pointer that it returns, which may be null, if it is defined.
  unfoldable pub vector_get : Option (Vector A) → ℤ → Option (Option A)
  vector_get none index = some none
  vector_get (some v) index =
      if has_index v index then get_elem? v.slots (pos_part index) else some none

  -- Behind the test of the index.
  unfoldable pub remove_slot : Vector A → ℕ → Option (Vector A × Option A)
  remove_slot v i = do
    result ← get_elem? v.slots i
    moved ← move_slots v.slots i (i + 1) (v.len - i - 1)
    cleared ← store_slot moved (v.len - 1) none
    some (record v { slots = cleared; len = v.len - 1 }, result)

  unfoldable pub vector_remove : Option (Vector A) → ℤ → Option (Option (Vector A) × Option A)
  vector_remove none index = some (none, none)
  vector_remove (some v) index =
      if has_index v index
      then (remove_slot v (pos_part index) >>= λ r. some (some r.0, r.1))
      else some (some v, none)

  module _ (alloc : ℕ → Bool) where
    -- `vector_allocated` says whether there is memory for the vector's own record.
    unfoldable pub vector_create : Bool → ℤ → ℤ → Option (Vector A)
    vector_create vector_allocated capacity max_inc =
        if leb_ℤ capacity (pos 0) || leb_ℤ max_inc (pos 0)
        then none
        else if not vector_allocated
        then none
        else if alloc (pos_part capacity)
        then some (record {
          len = 0;
          capacity = pos_part capacity;
          max_inc = pos_part max_inc;
          slots = replicate (pos_part capacity) none;
        })
        else none

    -- The old slots are copied in front of the new, empty ones.
    unfoldable pub ensure_capacity : Vector A → ℕ → Vector A × ℤ
    ensure_capacity v capacity =
        if leb capacity v.capacity
        then (v, status_ok)
        else if alloc (v.capacity + new_inc v)
        then (
          record v {
            slots = take v.capacity v.slots ++ replicate (new_inc v) none;
            capacity = v.capacity + new_inc v;
          },
          status_ok,
        )
        else (v, err_no_mem)

    -- Behind the test of the index.
    unfoldable pub set_slot : Vector A → ℕ → Option A → Option (Vector A × ℤ)
    set_slot v i x =
        let (v', rc) = ensure_capacity v (i + 1) in
        if rc ==ℤ status_ok
        then (store_slot v'.slots i x >>= λ slots.
            some (record v' { slots = slots; len = if leb v'.len i then i + 1 else v'.len }, rc))
        else some (v', rc)

    unfoldable pub insert_slot : Vector A → ℕ → Option A → Option (Vector A × ℤ)
    insert_slot v i x =
        let (v', rc) = ensure_capacity v (v.len + 1) in
        if rc ==ℤ status_ok
        then (move_slots v'.slots (i + 1) i (v'.len - i) >>= λ moved.
            store_slot moved i x >>= λ slots.
            some (record v' { slots = slots; len = v'.len + 1 }, rc))
        else some (v', rc)

    unfoldable pub vector_set : Option (Vector A) → ℤ → Option A → Option (Option (Vector A) × ℤ)
    vector_set none index x = some (none, err_null_ptr)
    vector_set (some v) index x =
        if ltb_ℤ index (pos 0)
        then some (some v, err_out_of_bounds)
        else (set_slot v (pos_part index) x >>= λ r. some (some r.0, r.1))

    unfoldable pub vector_insert : Option (Vector A) → ℤ → Option A → Option (Option (Vector A) × ℤ)
    vector_insert none index x = some (none, err_null_ptr)
    vector_insert (some v) index x =
        if ltb_ℤ index (pos 0)
        then some (some v, err_out_of_bounds)
        else if leb_ℤ (pos v.len) index
        then vector_set (some v) index x
        else (insert_slot v (pos_part index) x >>= λ r. some (some r.0, r.1))
