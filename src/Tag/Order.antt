-- ===== src/Tag/Order.antt =====
-- `check_byte_order_str` in libplctag/src/libplctag/lib/lib.c, which decides whether the text of
-- an attribute such as `int32_byte_order` is a byte order, and the digits that
-- `set_tag_byte_order` then takes from it. A text is the list of its character codes.
use junk.Prelude.{
  ℕ, zero, suc, ◌-◌, ◌≤◌, ◌<◌, ◌≡◌, ◌≢◌, ◌↔◌, refl, sym, ap, ◌∙◌, Bool, true, false, List, [], ◌∷◌,
  inl, inr, arith, length, get_or, set, replicate, All, if◌then◌else◌, ltb, ◌==◌, ==_iff, ◌||◌, not,
  ℤ, Bool-cases, get_or-set_self, get_or-set_ne, length-set,
}
use mathlib.Core.Bool.{false≢true}
use junk.Memory.{Distinct, IsOrder}
use junk.Status.{status_ok, err_bad_data, err_too_small, err_too_large}

-- The loop over the characters, with the array `taken`.
unfoldable pub check_digits : ℕ → List Bool → List ℕ → ℤ
check_digits length taken [] = status_ok
check_digits length taken (c ∷ cs) =
    let val = c - b'0' in
    let rest = check_digits length (set taken val true) cs in
    if ltb c b'0' || ltb b'7' c
    then err_bad_data
    else if ltb (length - 1) val
    then err_bad_data
    else if get_or taken val false
    then err_bad_data
    else rest

unfoldable pub check_byte_order_str : List ℕ → ℕ → ℤ
check_byte_order_str byte_order n =
    if not (length byte_order == n)
    then (if ltb (length byte_order) n then err_too_small else err_too_large)
    else check_digits n (replicate 8 false) byte_order

-- The positions that a text stands for.
abbrev pub digits_of : List ℕ → List ℕ
digits_of [] = []
digits_of (c ∷ cs) = (c - b'0') ∷ digits_of cs

-- A text of digits `0` to `7`.
abbrev pub IsDigits : List ℕ → Type 0
IsDigits cs = All (λ c. (b'0' ≤ c) × (c ≤ b'7')) cs

-- What the loop has established when it ends well.
abbrev Checked : ℕ → List Bool → List ℕ → Type 0
Checked n taken cs =
    IsDigits cs
    × All (λ o. o < n) (digits_of cs)
    × Distinct (digits_of cs)
    × All (λ o. get_or taken o false ≡ false) (digits_of cs)

untaken :
    (taken : List Bool) (v : ℕ) (os : List ℕ)
    → v < length taken
    → All (λ o. get_or (set taken v true) o false ≡ false) os
    → All (λ o. o ≢ v) os × All (λ o. get_or taken o false ≡ false) os
untaken taken v [] lt h = (tt, tt)
untaken taken v (o ∷ os) lt h =
    let (apart, free) = untaken taken v os lt h.1 in
    let there = get_or-set_self taken v true false lt in
    elim (Bool-cases (o == v)) [
      | inl e ↦ absurd (false≢true (sym h.0 ∙ rw ((==_iff o v).0 e) there))
      | inr e ↦
          let ne : v ≢ o = ground arith in
          ((ground arith, apart), (sym (get_or-set_ne taken v o true false ne) ∙ h.0, free))
    ]

taken_one :
    (taken : List Bool) (v : ℕ) (os : List ℕ)
    → All (λ o. o ≢ v) os
    → All (λ o. get_or taken o false ≡ false) os
    → All (λ o. get_or (set taken v true) o false ≡ false) os
taken_one taken v [] apart free = tt
taken_one taken v (o ∷ os) apart free = (
  get_or-set_ne taken v o true false (λ e. apart.0 (sym e)) ∙ free.0,
  taken_one taken v os apart.1 free.1,
)

check_digits_sound :
    (n : ℕ) (taken : List Bool) (cs : List ℕ)
    → 0 < n
    → length taken ≡ 8
    → check_digits n taken cs ≡ status_ok
    → Checked n taken cs
unfolding check_digits
check_digits_sound n taken [] pos size h = (tt, tt, tt, tt)
check_digits_sound n taken (c ∷ cs) pos size h =
    let digit : (b'0' ≤ c) × (c ≤ b'7') = ground arith in
    let small : c - b'0' < n = ground arith in
    let free : get_or taken (c - b'0') false ≡ false = ground arith in
    let rest : check_digits n (set taken (c - b'0') true) cs ≡ status_ok = ground arith in
    let (digits, within, distinct, untaken_rest) =
      check_digits_sound n (set taken (c - b'0') true) cs pos
        (length-set taken (c - b'0') true ∙ size) rest in
    let (apart, free_rest) = untaken taken (c - b'0') (digits_of cs) (omega arith) untaken_rest in
    ((digit, digits), (small, within), (apart, distinct), (free, free_rest))

check_digits_complete :
    (n : ℕ) (taken : List Bool) (cs : List ℕ)
    → Checked n taken cs
    → check_digits n taken cs ≡ status_ok
unfolding check_digits
check_digits_complete n taken [] h = refl
check_digits_complete n taken (c ∷ cs) (digits, within, distinct, free) =
    let rest = check_digits_complete n (set taken (c - b'0') true) cs (
      digits.1,
      within.1,
      distinct.1,
      taken_one taken (c - b'0') (digits_of cs) distinct.0 free.1,
    ) in
    ground arith

digits_of-length : (cs : List ℕ) → length (digits_of cs) ≡ length cs
digits_of-length [] = refl
digits_of-length (c ∷ cs) = ap suc (digits_of-length cs)

none_taken : (k : ℕ) (o : ℕ) → get_or (replicate k false) o false ≡ false
none_taken zero o = refl
none_taken (suc k) zero = refl
none_taken (suc k) (suc o) = none_taken k o

all_free : (os : List ℕ) → All (λ o. get_or (replicate 8 false) o false ≡ false) os
all_free [] = tt
all_free (o ∷ os) = (none_taken 8 o, all_free os)

-- The test accepts a text for a word of one byte or more exactly if the text consists of the
-- digits 0 to 7 and these are a byte order: as many as the word has bytes, each below that
-- number, and no two the same.
pub check_byte_order_str_iff :
    (cs : List ℕ) (n : ℕ)
    → 0 < n
    → (check_byte_order_str cs n ≡ status_ok) ↔ (IsDigits cs × IsOrder n (digits_of cs))
unfolding check_byte_order_str
check_byte_order_str_iff cs n positive = (forward, backward)
  where
    forward : check_byte_order_str cs n ≡ status_ok → IsDigits cs × IsOrder n (digits_of cs)
    forward h =
        let size : length cs ≡ n = ground arith in
        let run : check_digits n (replicate 8 false) cs ≡ status_ok = ground arith in
        let (digits, within, distinct, free) =
          check_digits_sound n (replicate 8 false) cs positive refl run in
        (digits, record { full = digits_of-length cs ∙ size; within = within; distinct = distinct })

    backward : IsDigits cs × IsOrder n (digits_of cs) → check_byte_order_str cs n ≡ status_ok
    backward (digits, order) =
        let size : length cs ≡ n = omega (arith, digits_of-length cs, order.full) in
        let run =
          check_digits_complete n (replicate 8 false) cs
            (digits, order.within, order.distinct, all_free (digits_of cs)) in
        ground arith
