-- ===== src/Handle/Tests.antt =====
-- The theorem on new handles at a new table of two slots.
use junk.Prelude.{ℕ, ◌≤◌, ◌≡◌, refl, Bool, false, some, arith, ℤ, pos, ltb, pos_part, ◌+◌, negsuc}
use junk.Hashtable.{blank}
use junk.Hashtable.Copies.{blank_IsValid}
use junk.Handle.{tag_id_inc, add_tag_lookup}
use junk.Handle.Fresh.{Result, add_tag_lookup_lem}

abbrev sum_hash : ℤ → ℕ → ℕ
sum_hash key salt = pos_part key + salt

abbrev small_memory : ℕ → Bool
small_memory n = ltb n 100

refused : (n : ℕ) → 100 ≤ n → small_memory n ≡ false
refused n h = ground arith

add_tag_lookup_lem_example :
    Result {A = ℕ} sum_hash
      (blank 2 5)
      8
      (add_tag_lookup sum_hash small_memory 101 (some (blank 2 5)) (pos 10) 8)
add_tag_lookup_lem_example =
    add_tag_lookup_lem sum_hash small_memory 100 101 (blank 2 5) (pos 10) 8 refused (omega arith)
      (blank_IsValid sum_hash 2 5 (omega arith))

-- The largest handle is the mask itself, and the next one is 1.
largest : tag_id_inc (pos 0xFFFFFFE) ≡ 0xFFFFFFF
unfolding tag_id_inc
largest = refl

wraps : tag_id_inc (pos 0xFFFFFFF) ≡ 1
unfolding tag_id_inc
wraps = refl

corrected : tag_id_inc (negsuc 3) ≡ 0x8000000
unfolding tag_id_inc
corrected = refl
