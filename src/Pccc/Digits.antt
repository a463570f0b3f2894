-- ===== src/Pccc/Digits.antt =====
-- The numbers in the text of an address of libplctag/src/libplctag/protocols/ab/pccc.c.
use junk.Prelude.{
  ℕ, ◌+◌, ◌-◌, ◌*◌, ◌≤◌, ◌≡◌, refl, ◌∙◌, Bool, true, false, ◌&&◌, [], ◌∷◌, ◌++◌, arith, ltb,
}
use junk.Attr.{Text}
use junk.Pccc.Parser.{is_digit, first_of, take_number}

abbrev pub all_digits : Text → Bool
all_digits [] = true
all_digits (c ∷ cs) = is_digit c && all_digits cs

-- The decimal value, behind the digits of `n`.
abbrev pub value_from : ℕ → Text → ℕ
value_from n [] = n
value_from n (c ∷ cs) = value_from (n * 10 + (c - b'0')) cs

-- A number that an address may have: one digit or more, and 65535 at most.
pub record IsNumber (ds : Text) : Type 0 where
  pub some_digit : is_digit (first_of ds) ≡ true
  pub digits : all_digits ds ≡ true
  pub small : value_from 0 ds ≤ 65535

value_from-ge : (ds : Text) (n : ℕ) → n ≤ value_from n ds
value_from-ge [] n = omega arith
value_from-ge (c ∷ cs) n = omega (arith, value_from-ge cs (n * 10 + (c - b'0')))

take_number_stops :
    (rest : Text) (n : ℕ) → is_digit (first_of rest) ≡ false → take_number n rest ≡ (n, rest)
unfolding take_number
take_number_stops [] n h = refl
take_number_stops (c ∷ cs) n h = rw (take_number, h) refl

digit_step :
    (c : ℕ) (cs rest : Text) (n : ℕ)
    → is_digit c ≡ true
    → ltb n 65535 ≡ true
    → take_number n (c ∷ (cs ++ rest)) ≡ take_number (n * 10 + (c - b'0')) (cs ++ rest)
unfolding take_number
digit_step c cs rest n h lt = rw (take_number, h, lt) refl

pub take_number-digits :
    (ds rest : Text) (n : ℕ)
    → all_digits ds ≡ true
    → value_from n ds ≤ 65535
    → is_digit (first_of rest) ≡ false
    → take_number n (ds ++ rest) ≡ (value_from n ds, rest)
take_number-digits [] rest n h le stop = take_number_stops rest n stop
take_number-digits (c ∷ cs) rest n h le stop =
    let m = n * 10 + (c - b'0') in
    let ge = value_from-ge cs m in
    let (first, later) = both (is_digit c) (all_digits cs) h in
    digit_step c cs rest n first (ground (arith, le, ge))
    ∙ take_number-digits cs rest m later le stop
  where
    both : (a b : Bool) → (a && b) ≡ true → (a ≡ true) × (b ≡ true)
    both a b h = ground arith
