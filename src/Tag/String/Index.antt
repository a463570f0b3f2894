-- ===== src/Tag/String/Index.antt =====
-- Where the bytes of a string stand: the reader and the writer agree, and no two share a place.
use Prim.Native.Nat.{digits, differ, bit_xor-bitwise}
use junk.Prelude.{
  ℕ, zero, suc, ◌+◌, ◌-◌, ◌*◌, ◌/◌, ◌%◌, ◌≤◌, ◌<◌, ◌≡◌, refl, ◌∙◌, bit_xor, Bool, true, false,
  if◌then◌else◌, arith,
}
use junk.Tag.String.{xor_index}
use junk.Tag.String.Setting.{swapped_index}

differ_zero : (a : ℕ) → differ a 0 ≡ a
differ_zero zero = refl
differ_zero (suc a) = refl

digits_zero : (n a : ℕ) → a ≤ n → digits (λ b. b) differ n a 0 ≡ a
digits_zero zero a h = omega arith
digits_zero (suc n) zero h = refl
digits_zero (suc n) (suc a) h =
    omega (arith, digits_zero n (suc a / 2) (omega arith), differ_zero (suc a % 2))

differ_one : (a : ℕ) → a < 2 → differ a 1 ≡ 1 - a
differ_one zero h = refl
differ_one (suc zero) h = refl
differ_one (suc (suc a)) h = absurd (omega arith)

xor_zero : (i : ℕ) → bit_xor i 0 ≡ i
xor_zero i = bit_xor-bitwise i 0 ∙ digits_zero i i (omega arith)

xor_one : (i : ℕ) → bit_xor i 1 ≡ i + 1 - 2 * (i % 2)
xor_one zero = bit_xor-bitwise 0 1
xor_one (suc a) = omega (
  arith,
  bit_xor-bitwise (suc a) 1,
  digits_zero a (suc a / 2) (omega arith),
  differ_one (suc a % 2) (omega arith),
)

pub xor_index-swapped_index :
    (swapped : Bool) (i : ℕ) → xor_index swapped i ≡ swapped_index swapped i
xor_index-swapped_index true i = xor_one i ∙ ground arith
xor_index-swapped_index false i = xor_zero i

pub swapped_index-injective :
    (swapped : Bool) (i j : ℕ) → swapped_index swapped i ≡ swapped_index swapped j → i ≡ j
swapped_index-injective true i j h = ground arith
swapped_index-injective false i j h = h

-- Swapped in pairs, `n` bytes take up a whole number of pairs.
pub swapped_index-lt :
    (swapped : Bool) (n i : ℕ)
    → i < n
    → swapped_index swapped i < n + (if swapped then n % 2 else 0)
swapped_index-lt true n i h = ground arith
swapped_index-lt false n i h = omega arith
