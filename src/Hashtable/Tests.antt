-- ===== src/Hashtable/Tests.antt =====
-- Runs of the hash table, and its theorems at a table of one slot, which has to grow.
use junk.Prelude.{
  ℕ, ◌+◌, ◌≤◌, ◌≡◌, ◌≢◌, refl, ap, true, Bool, false, Option, none, some, arith, ℤ, pos, negsuc,
  ltb, pos_part, if◌then◌else◌,
}
use junk.Status.{status_ok, err_no_mem}
use junk.Hashtable.{
  Entry, Hashtable, search, find_key, find_empty, fill, blank, copy_entries, expand_loop,
  expand_table, put_loop, hashtable_put, hashtable_get, value_at, hashtable_remove, remove_at,
  hashtable_create,
}
use junk.Hashtable.Slots.{IsValid}
use junk.Hashtable.Changes.{fill_IsValid}
use junk.Hashtable.Copies.{blank_IsValid, find_key-blank}
use junk.Hashtable.Visiting.{hashtable_on_each, visit, call_on, occupied, hashtable_on_each-visit}
use junk.Hashtable.Map.{
  PutGets, SameGet, hashtable_put_lem, hashtable_remove_lem, hashtable_create_lem,
}

abbrev sum_hash : ℤ → ℕ → ℕ
sum_hash key salt = pos_part key + salt

abbrev small_memory : ℕ → Bool
small_memory n = ltb n 100

abbrev three : Entry ℕ
three = record { value = some 7; key = pos 3 }

abbrev crowded : Hashtable ℕ
crowded = fill (blank 1 5) 0 three

three_nonzero : pos 3 ≢ pos 0
three_nonzero e = omega (arith, ap pos_part e)

four_nonzero : pos 4 ≢ pos 0
four_nonzero e = omega (arith, ap pos_part e)

room : find_empty {A = ℕ} sum_hash (blank 1 5) (pos 3) ≡ some (some 0)
unfolding find_empty search
room = refl

crowded_IsValid : IsValid sum_hash crowded
crowded_IsValid =
    (fill_IsValid sum_hash (blank 1 5) 0 three (blank_IsValid sum_hash 1 5 (omega arith)) refl
      three_nonzero (find_key-blank ℕ sum_hash 1 5 (pos 3) (omega arith) three_nonzero) room).0

refused : (n : ℕ) → 100 ≤ n → small_memory n ≡ false
refused n h = ground arith

missing : hashtable_get sum_hash (some crowded) (pos 4) ≡ some none
unfolding hashtable_get find_key search value_at
missing = refl

hashtable_put_lem_example :
    (t' : Hashtable ℕ) × (rc : ℤ) × (hashtable_put sum_hash small_memory 101
        (some crowded)
        (pos 4)
        (some 9)
      ≡ some (some t', rc))
    × IsValid sum_hash t'
    × PutGets sum_hash crowded t' (pos 4) 9 rc
hashtable_put_lem_example =
    hashtable_put_lem sum_hash small_memory 100 101 crowded (pos 4) 9 refused (omega arith)
      crowded_IsValid four_nonzero missing

hashtable_remove_lem_example :
    (t' : Hashtable ℕ) × (v : Option ℕ) × (hashtable_remove sum_hash (some crowded) (pos 3)
      ≡ some (some t', v))
    × (hashtable_get sum_hash (some crowded) (pos 3) ≡ some v)
    × IsValid sum_hash t'
    × (hashtable_get sum_hash (some t') (pos 3) ≡ some none)
    × ((k : ℤ) → k ≢ pos 0 → k ≢ pos 3 → SameGet sum_hash crowded t' k)
hashtable_remove_lem_example =
    hashtable_remove_lem sum_hash crowded (pos 3) crowded_IsValid three_nonzero

hashtable_create_lem_example :
    (t : Hashtable ℕ) × (hashtable_create small_memory true 5 (pos 8) ≡ some t)
    × IsValid sum_hash t
    × ((key : ℤ) → key ≢ pos 0 → hashtable_get sum_hash (some t) key ≡ some none)
hashtable_create_lem_example = hashtable_create_lem sum_hash small_memory 5 7 refl

-- A second entry makes the table of one slot grow to two.
grows :
    hashtable_put sum_hash small_memory 3 (some crowded) (pos 4) (some 9)
    ≡ some (
      some (fill (fill (blank 2 5) 0 three) 1 (record { value = some 9; key = pos 4 })),
      status_ok,
    )
unfolding hashtable_put put_loop find_empty search expand_table expand_loop copy_entries
grows = refl

-- The key 0 is found in an empty slot: the count of used entries falls though nothing is removed.
removes_zero :
    hashtable_remove sum_hash (some (blank {A = ℕ} 1 5)) (pos 0)
    ≡ some (some (record (blank 1 5) { used_entries = negsuc 0 }), none)
unfolding hashtable_remove remove_at find_key search
removes_zero = refl

-- Adds up the values, and stops after one that is larger than 7.
abbrev add_up : Hashtable ℕ → ℤ → ℕ → ℕ → Hashtable ℕ × (ℕ × ℤ)
add_up t key v s = (t, (s + v, if ltb 7 v then err_no_mem else status_ok))

hashtable_on_each-visit_example :
    hashtable_on_each add_up 2 (some crowded) 0
    ≡ some (crowded, visit (call_on add_up crowded) (occupied crowded.entries) 0)
hashtable_on_each-visit_example =
    hashtable_on_each-visit add_up crowded 2 0 (λ t key v s. refl) refl (omega arith)
