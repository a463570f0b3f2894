-- ===== src/Hashtable.antt =====
-- The hash table of libplctag/src/utils/hashtable.c, in which the library keeps the tags under
-- their handles. A key is looked for in ten slots from the one that its hash gives, and the table
-- grows until a new key finds an empty one of them.
-- A table is `none` for a null pointer. The hash function of utils/hash.c is a parameter, and so
-- is what `mem_alloc` answers for a number of entries; the salt is given at creation.
pub mod Search
pub mod Slots
pub mod Changes
pub mod Contents
pub mod Copies
pub mod Growth
pub mod Put
pub mod Map
pub mod Visiting
mod Tests
use junk.Prelude.{
  ℕ, zero, suc, ◌+◌, ◌%◌, Bool, true, false, List, [], ◌∷◌, Option, none, some, if◌then◌else◌,
  ◌>>=◌, ℤ, pos, negsuc, ltb, leb_ℤ, ltb_ℤ, ◌||◌, ◌+ℤ◌, ◌-ℤ◌, ◌==ℤ◌, pos_part, get_elem?, set,
  replicate, not,
}
use junk.Memory.{store}
use junk.Status.{status_ok, err_no_mem, err_null_ptr}

-- `struct hashtable_entry_t`, with `value` for its field `data`.
pub record Entry (A : Type 0) : Type 0 where
  pub value : Option A
  pub key : ℤ

pub record Hashtable (A : Type 0) : Type 0 where
  pub total_entries : ℕ
  pub used_entries : ℤ
  pub hash_salt : ℕ
  pub entries : List (Entry A)

abbrev pub max_iterations : ℕ
max_iterations = 10

abbrev pub max_increment : ℕ
max_increment = 10000

-- `mem_alloc` clears its block.
abbrev pub cleared : {A : Type 0} → Entry A
cleared = record { value = none; key = pos 0 }

abbrev pub is_empty : {A : Type 0} → Entry A → Bool
is_empty e = elim e.value [ none ↦ true | some v ↦ false ]

abbrev pub has_key : {A : Type 0} → ℤ → Entry A → Bool
has_key key e = e.key ==ℤ key

-- The loop of `find_key` and of `find_empty`, with `n` rounds to go: the first slot that passes
-- the test, or none after the last round.
unfoldable pub search :
    {A : Type 0} → (Entry A → Bool) → List (Entry A) → ℕ → ℕ → ℕ → ℕ → Option (Option ℕ)
search test entries total initial zero iteration = some none
search test entries total initial (suc n) iteration =
    let rest = search test entries total initial n (suc iteration) in
    let index = (initial + iteration) % total in
    get_elem? entries index >>= λ e. if test e then some (some index) else rest

-- `KEY_TO_INDEX`
abbrev pub key_to_index : {A : Type 0} → (ℤ → ℕ → ℕ) → Hashtable A → ℤ → ℕ
key_to_index hash t key = hash key t.hash_salt % t.total_entries

unfoldable pub find_key : {A : Type 0} → (ℤ → ℕ → ℕ) → Hashtable A → ℤ → Option (Option ℕ)
find_key hash t key =
    search (has_key key) t.entries t.total_entries (key_to_index hash t key) max_iterations 0

unfoldable pub find_empty : {A : Type 0} → (ℤ → ℕ → ℕ) → Hashtable A → ℤ → Option (Option ℕ)
find_empty hash t key =
    search is_empty t.entries t.total_entries (key_to_index hash t key) max_iterations 0

-- `table->entries[index] = e; table->used_entries++;`
abbrev pub fill : {A : Type 0} → Hashtable A → ℕ → Entry A → Hashtable A
fill t index e = record t {
  entries = set t.entries index e;
  used_entries = t.used_entries +ℤ pos 1;
}

-- The loop that copies the used entries, with the `index` of the last search.
unfoldable pub copy_entries :
    {A : Type 0}
    → (ℤ → ℕ → ℕ)
    → List (Entry A)
    → Hashtable A
    → Option ℕ
    → Option (Hashtable A × Option ℕ)
copy_entries hash [] new index = some (new, index)
copy_entries hash (e ∷ es) new index =
    if is_empty e
    then copy_entries hash es new index
    else (find_empty hash new e.key >>= λ found. elim found [
      | none ↦ some (new, none)
      | some i ↦ copy_entries hash es (fill new i e) (some i)
    ])

abbrev pub grown : ℕ → ℕ
grown total = total + (if ltb total max_increment then total else max_increment)

abbrev pub blank : {A : Type 0} → ℕ → ℕ → Hashtable A
blank total salt = record {
  total_entries = total;
  used_entries = pos 0;
  hash_salt = salt;
  entries = replicate total cleared;
}

-- The `do` loop of `expand_table`, for some number of rounds.
unfoldable pub expand_loop :
    {A : Type 0} → (ℤ → ℕ → ℕ) → (ℕ → Bool) → ℕ → Hashtable A → ℕ → Option (Hashtable A × ℤ)
expand_loop hash can_alloc zero t total = none
expand_loop hash can_alloc (suc rounds) t total =
    let again = expand_loop hash can_alloc rounds t (grown total) in
    if can_alloc (grown total)
    then (copy_entries hash t.entries (blank (grown total) t.hash_salt) none >>= λ copied.
        elim copied.1 [ none ↦ again | some i ↦ some (copied.0, status_ok) ])
    else some (t, err_no_mem)

unfoldable pub expand_table :
    {A : Type 0} → (ℤ → ℕ → ℕ) → (ℕ → Bool) → ℕ → Hashtable A → Option (Hashtable A × ℤ)
expand_table hash can_alloc rounds t = expand_loop hash can_alloc rounds t t.total_entries

-- The `while` loop of `hashtable_put` and what follows it; each of its rounds gives `rounds` to
-- the loop of `expand_table`.
unfoldable pub put_loop :
    {A : Type 0}
    → (ℤ → ℕ → ℕ)
    → (ℕ → Bool)
    → ℕ
    → ℕ
    → Hashtable A
    → Entry A
    → Option (Hashtable A × ℤ)
put_loop hash can_alloc rounds zero t e = none
put_loop hash can_alloc rounds (suc n) t e = find_empty hash t e.key >>= λ found. elim found [
  | some i ↦ some (fill t i e, status_ok)
  | none ↦ expand_table hash can_alloc rounds t >>= λ expanded.
      (let rest = put_loop hash can_alloc rounds n expanded.0 e in
        if expanded.1 ==ℤ status_ok then rest else some expanded)
]

unfoldable pub hashtable_put :
    {A : Type 0}
    → (ℤ → ℕ → ℕ)
    → (ℕ → Bool)
    → ℕ
    → Option (Hashtable A)
    → ℤ
    → Option A
    → Option (Option (Hashtable A) × ℤ)
hashtable_put hash can_alloc rounds none key v = some (none, err_null_ptr)
hashtable_put hash can_alloc rounds (some t) key v =
    put_loop hash can_alloc rounds rounds t (record { value = v; key = key }) >>= λ r.
    some (some r.0, r.1)

-- The `data` of an entry that is in the table.
unfoldable pub value_at : {A : Type 0} → Hashtable A → Option ℕ → Option (Option A)
value_at t none = some none
value_at t (some i) = get_elem? t.entries i >>= λ e. some e.value

unfoldable pub hashtable_get :
    {A : Type 0} → (ℤ → ℕ → ℕ) → Option (Hashtable A) → ℤ → Option (Option A)
hashtable_get hash none key = some none
hashtable_get hash (some t) key = find_key hash t key >>= value_at t

unfoldable pub remove_at :
    {A : Type 0} → Hashtable A → Option ℕ → Option (Option (Hashtable A) × Option A)
remove_at t none = some (some t, none)
remove_at t (some i) = get_elem? t.entries i >>= λ e. some (
  some (record t { entries = set t.entries i cleared; used_entries = t.used_entries -ℤ pos 1 }),
  e.value,
)

unfoldable pub hashtable_remove :
    {A : Type 0} → (ℤ → ℕ → ℕ) → Option (Hashtable A) → ℤ → Option (Option (Hashtable A) × Option A)
hashtable_remove hash none key = some (none, none)
hashtable_remove hash (some t) key = find_key hash t key >>= remove_at t

-- `table_allocated` says whether there is memory for the table's own record.
unfoldable pub hashtable_create : {A : Type 0} → (ℕ → Bool) → Bool → ℕ → ℤ → Option (Hashtable A)
hashtable_create can_alloc table_allocated salt initial_capacity =
    if leb_ℤ initial_capacity (pos 0)
    then none
    else if not table_allocated
    then none
    else if can_alloc (pos_part initial_capacity)
    then some (blank (pos_part initial_capacity) salt)
    else none
