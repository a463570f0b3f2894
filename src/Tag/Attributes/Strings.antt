-- ===== src/Tag/Attributes/Strings.antt =====
-- What kinds of strings `set_tag_byte_order` lets through.
use junk.Prelude.{
  ℕ, ◌+◌, ◌%◌, ◌^◌, ◌<◌, ◌≡◌, ◌≢◌, ◌≤◌, ◌⊎◌, refl, sym, Bool, true, false, List, [], ◌∷◌, ◌++◌,
  if◌then◌else◌, ℤ, ◌==ℤ◌, ==ℤ_iff, ◌||◌, arith, inl, inr, Bool-cases,
}
use mathlib.Core.Path.{subst}
use junk.Status.{status_ok, err_no_mem}
use junk.Tag.{ByteOrder}
use junk.Tag.Attributes.{
  Attribs, Block, overrides, all_attributes, parts, check_strings, run_blocks, order_blocks,
  setting_blocks, string_blocks, set_tag_byte_order,
}

-- The sum of the parts of a string, as a number.
abbrev pub sum_of_parts : ByteOrder → ℕ
sum_of_parts o =
    (if o.str_is_zero_terminated then 1 else 0)
    + o.str_max_capacity
    + o.str_count_word_bytes
    + o.str_pad_bytes

-- A counted string has a count word, a string of fixed size has a size, which is enough for its
-- parts, and a string whose end can be found is defined.
pub record IsConsistent (o : ByteOrder) : Type 0 where
  pub count_word : o.str_is_counted ≡ true → o.str_count_word_bytes ≢ 0
  pub size : o.str_is_fixed_length ≡ true → o.str_total_length ≢ 0
  pub enough : (o.str_total_length ≡ 0) ⊎ (sum_of_parts o ≤ o.str_total_length)
  pub defined : (o.str_is_counted || o.str_is_zero_terminated) ≡ true → o.str_is_defined ≡ true

-- The same as the code checks it, where the sum may have wrapped around.
record IsChecked (o : ByteOrder) : Type 0 where
  count_word : o.str_is_counted ≡ true → o.str_count_word_bytes ≢ 0
  size : o.str_is_fixed_length ≡ true → o.str_total_length ≢ 0
  enough : (o.str_total_length ≡ 0) ⊎ (parts o ≤ o.str_total_length)
  defined : (o.str_is_counted || o.str_is_zero_terminated) ≡ true → o.str_is_defined ≡ true

IsConsistent-IsChecked : (o : ByteOrder) → IsConsistent o → IsChecked o
IsConsistent-IsChecked o c = record {
  count_word = c.count_word;
  size = c.size;
  enough = wrapped (sum_of_parts o) o.str_total_length c.enough;
  defined = c.defined;
}
  where
    wrapped : (n total : ℕ) → (total ≡ 0) ⊎ (n ≤ total) → (total ≡ 0) ⊎ (n % 2 ^ 32 ≤ total)
    wrapped n total h = omega arith

IsChecked-IsConsistent : (o : ByteOrder) → sum_of_parts o < 2 ^ 32 → IsChecked o → IsConsistent o
IsChecked-IsConsistent o small c = record {
  count_word = c.count_word;
  size = c.size;
  enough = unwrapped (sum_of_parts o) o.str_total_length small c.enough;
  defined = c.defined;
}
  where
    unwrapped :
        (n total : ℕ) → n < 2 ^ 32 → (total ≡ 0) ⊎ (n % 2 ^ 32 ≤ total) → (total ≡ 0) ⊎ (n ≤ total)
    unwrapped n total small h = omega arith

check_strings-IsChecked :
    (o : ByteOrder) → (check_strings o).1 ≡ status_ok → IsChecked (check_strings o).0
unfolding check_strings
check_strings-IsChecked o ok = record {
  count_word = ground arith;
  size = ground arith;
  enough = ground arith;
  defined = ground arith;
}

-- If all blocks succeed, the result is that of the last one.
run_blocks-last :
    (blocks : List Block) (last : Block) (o : ByteOrder)
    → (run_blocks (blocks ++ (last ∷ [])) o).1 ≡ status_ok
    → (o' : ByteOrder) × ((run_blocks (blocks ++ (last ∷ [])) o).0 ≡ (last o').0)
      × ((last o').1 ≡ status_ok)
unfolding run_blocks
run_blocks-last [] last o ok = elim (Bool-cases ((last o).1 ==ℤ status_ok)) [
  | inl e ↦ (o, rw (run_blocks, e) refl, (==ℤ_iff (last o).1 status_ok).0 e)
  | inr e ↦ (o, rw (run_blocks, e) refl, rw (run_blocks, e) at ok)
]
run_blocks-last (block ∷ blocks) last o ok = elim (Bool-cases ((block o).1 ==ℤ status_ok)) [
  | inl e ↦
      let (o', same, fine) = run_blocks-last blocks last (block o).0 (rw (run_blocks, e) at ok) in
      (o', rw (run_blocks, e) same, fine)
  | inr e ↦
      let stopped : (block o).1 ≡ status_ok = rw (run_blocks, e) at ok in
      absurd (not_both ((==ℤ_iff (block o).1 status_ok).1 stopped) e)
]
  where
    not_both : {b : Bool} → b ≡ true → b ≡ false → ⊥
    not_both {b} x y = ground arith

string_blocks-IsChecked :
    (attribs : Attribs) (o : ByteOrder)
    → (run_blocks (string_blocks attribs) o).1 ≡ status_ok
    → IsChecked (run_blocks (string_blocks attribs) o).0
string_blocks-IsChecked attribs o ok =
    let (o', same, fine) = run_blocks-last (setting_blocks attribs) check_strings o ok in
    subst IsChecked (sym same) (check_strings-IsChecked o' fine)

if-IsChecked :
    (b : Bool) (u v : ByteOrder × ℤ)
    → (u.1 ≡ status_ok → IsChecked u.0)
    → (v.1 ≡ status_ok → IsChecked v.0)
    → (if b then u else v).1 ≡ status_ok
    → IsChecked (if b then u else v).0
if-IsChecked true u v x y ok = x ok
if-IsChecked false u v x y ok = y ok

stopped :
    (r : ByteOrder × ℤ) (u : ByteOrder × ℤ)
    → (u.1 ≡ status_ok → IsChecked u.0)
    → (if r.1 ==ℤ status_ok then u else r).1 ≡ status_ok
    → IsChecked (if r.1 ==ℤ status_ok then u else r).0
stopped r u x ok = elim (Bool-cases (r.1 ==ℤ status_ok)) [
  | inl e ↦ rw e (x (rw e at ok))
  | inr e ↦
      let fine : r.1 ≡ status_ok = rw e at ok in
      absurd (not_both ((==ℤ_iff r.1 status_ok).1 fine) e)
]
  where
    not_both : {b : Bool} → b ≡ true → b ≡ false → ⊥
    not_both {b} x y = ground arith

set_tag_byte_order-IsChecked :
    (allocated : Bool) (attribs : Attribs) (o : ByteOrder)
    → IsChecked o
    → (set_tag_byte_order allocated attribs o).1 ≡ status_ok
    → IsChecked (set_tag_byte_order allocated attribs o).0
unfolding set_tag_byte_order
set_tag_byte_order-IsChecked allocated attribs o h =
    let r = run_blocks (order_blocks attribs) o in
    let strings = run_blocks (string_blocks attribs) r.0 in
    let blocks = if r.1 ==ℤ status_ok then strings else r in
    let given = if allocated then blocks else (o, err_no_mem) in
    if-IsChecked (overrides attribs all_attributes) given (o, status_ok)
      (if-IsChecked allocated blocks (o, err_no_mem)
        (stopped r strings (string_blocks-IsChecked attribs r.0)) (λ _. h))
      (λ _. h)

-- If it succeeds, the tag's own definition of strings is consistent, and the sum of the parts of
-- the new one is below 2 ^ 32, where the code's sum does not wrap around, then the new one is
-- consistent: a counted string has a count word, a string of fixed size has a size, a size is
-- enough for the parts, and strings whose end can be found are defined.
pub set_tag_byte_order-IsConsistent :
    (allocated : Bool) (attribs : Attribs) (o : ByteOrder)
    → IsConsistent o
    → (set_tag_byte_order allocated attribs o).1 ≡ status_ok
    → sum_of_parts (set_tag_byte_order allocated attribs o).0 < 2 ^ 32
    → IsConsistent (set_tag_byte_order allocated attribs o).0
set_tag_byte_order-IsConsistent allocated attribs o h ok small =
    IsChecked-IsConsistent (set_tag_byte_order allocated attribs o).0 small
      (set_tag_byte_order-IsChecked allocated attribs o (IsConsistent-IsChecked o h) ok)
