-- ===== src/Handle.antt =====
-- How libplctag/src/libplctag/lib/lib.c gives a new tag its handle: `tag_id_inc` and
-- `add_tag_lookup`. The state is the table `tags` and the number `next_tag_id`; the mutex
-- `tag_lookup_mutex` makes a call one step. The tags are pointers, of any type.
pub mod Fresh
mod Tests
use junk.Prelude.{
  ℕ, zero, suc, ◌+◌, ◌/◌, Bool, true, false, Option, none, some, if◌then◌else◌, ◌>>=◌, ℤ, pos,
  leb_ℤ, pos_part, ◌==◌, ◌==ℤ◌, bit_and,
}
use junk.Status.{status_ok, err_no_resources}
use junk.Hashtable.{Hashtable, hashtable_get, hashtable_put}

abbrev pub tag_id_mask : ℕ
tag_id_mask = 0xFFFFFFF

abbrev pub max_tag_map_attempts : ℕ
max_tag_map_attempts = 50

-- A result is never negative, and so a natural number.
unfoldable pub tag_id_inc : ℤ → ℕ
tag_id_inc id =
    let from = if leb_ℤ id (pos 0) then tag_id_mask / 2 else pos_part id in
    let next = bit_and (from + 1) tag_id_mask in if next == 0 then 1 else next

-- The `do` loop, with `n` attempts to go: the last number tried, and whether it is unused.
unfoldable pub find_id :
    {A : Type 0} → (ℤ → ℕ → ℕ) → Option (Hashtable A) → ℕ → ℤ → Option (ℤ × Bool)
find_id hash tags zero id = some (id, false)
find_id hash tags (suc n) id =
    let new_id = tag_id_inc id in
    let rest = find_id hash tags n (pos new_id) in
    if new_id == 0
    then some (pos new_id, false)
    else (hashtable_get hash tags (pos new_id) >>= λ found. elim found [
      | none ↦ some (pos new_id, true)
      | some t ↦ rest
    ])

-- The tables and the result after the loop, which is the new handle or a negative status.
unfoldable pub add_tag_at :
    {A : Type 0}
    → (ℤ → ℕ → ℕ)
    → (ℕ → Bool)
    → ℕ
    → Option (Hashtable A)
    → A
    → ℤ × Bool
    → Option (Option (Hashtable A) × (ℤ × ℤ))
add_tag_at hash can_alloc rounds tags tag (new_id, false) = some (tags, (new_id, err_no_resources))
add_tag_at hash can_alloc rounds tags tag (new_id, true) =
    hashtable_put hash can_alloc rounds tags new_id (some tag) >>= λ put.
    some (put.0, (new_id, if put.1 ==ℤ status_ok then new_id else put.1))

unfoldable pub add_tag_lookup :
    {A : Type 0}
    → (ℤ → ℕ → ℕ)
    → (ℕ → Bool)
    → ℕ
    → Option (Hashtable A)
    → ℤ
    → A
    → Option (Option (Hashtable A) × (ℤ × ℤ))
add_tag_lookup hash can_alloc rounds tags next_tag_id tag =
    find_id hash tags max_tag_map_attempts next_tag_id >>= add_tag_at hash can_alloc rounds tags tag
