-- ===== src/Prelude/Bits.antt =====
-- One bit of a byte, by the masks that the C code uses; the laws are checked over all bytes.
use Prim.Native.Nat.{ℕ, zero, suc, ◌-◌, ◌^◌, ◌<◌, bit_and, bit_or}
use mathlib.Core.Path.{◌≡◌, refl}
use mathlib.Core.Logic.{◌≢◌}
use mathlib.Core.Bool.{Bool, true, false, ◌&&◌, ◌||◌}
use native.Mathlib.Omega.{arith}
use junk.Prelude.Tests.{ltb, ◌==◌, ==_iff, if◌then◌else◌}

-- The test holds of the first numbers.
holds_up_to : (ℕ → Bool) → ℕ → Bool
holds_up_to test zero = true
holds_up_to test (suc bound) = holds_up_to test bound && test bound

holds_up_to_at :
    (test : ℕ → Bool) (bound : ℕ)
    → holds_up_to test bound ≡ true
    → (i : ℕ) → i < bound
    → test i ≡ true
unfolding holds_up_to
holds_up_to_at test zero h i lt = absurd (omega arith)
holds_up_to_at test (suc bound) h i lt =
    ground (arith, λ (below : holds_up_to test bound ≡ true). holds_up_to_at test bound below i)

-- `!!(((1 << k) & 0xFF) & b)`
unfoldable pub test_mask : ℕ → ℕ → ℕ
test_mask k b = if bit_and (bit_and (2 ^ k) 0xff) b == 0 then 0 else 1

-- `b |= (uint8_t)(1 << k)` and `b &= (uint8_t)(~(1 << k))`
unfoldable pub set_mask : Bool → ℕ → ℕ → ℕ
set_mask v k b = if v then bit_or b (2 ^ k) else bit_and b (0xff - 2 ^ k)

bit_value : Bool → ℕ
bit_value v = if v then 1 else 0

check_masks : Bool → ℕ → ℕ → Bool
check_masks v k b =
    (test_mask k (set_mask v k b) == bit_value v)
    && (ltb (set_mask v k b) 256
        && holds_up_to (λ j. j == k || test_mask j (set_mask v k b) == test_mask j b) 8)

masks_table : Bool → Bool
masks_table v = holds_up_to (λ k. holds_up_to (λ b. check_masks v k b) 256) 8

masks_hold : (v : Bool) → masks_table v ≡ true
unfolding masks_table check_masks holds_up_to test_mask set_mask bit_value
masks_hold true = refl
masks_hold false = refl

check_masks_lem : (v : Bool) (k b : ℕ) → k < 8 → b < 256 → check_masks v k b ≡ true
unfolding masks_table
check_masks_lem v k b hk hb =
    holds_up_to_at (λ c. check_masks v k c) 256
      (holds_up_to_at (λ j. holds_up_to (λ c. check_masks v j c) 256) 8 (masks_hold v) k hk) b hb

and_left : (a b : Bool) → (a && b) ≡ true → a ≡ true
and_left a b h = ground arith

and_right : (a b : Bool) → (a && b) ≡ true → b ≡ true
and_right a b h = ground arith

pub test_mask-set_mask :
    (v : Bool) (k b : ℕ) → k < 8 → b < 256 → test_mask k (set_mask v k b) ≡ (if v then 1 else 0)
unfolding check_masks bit_value
test_mask-set_mask v k b hk hb = (==_iff _ _).0 (and_left _ _ (check_masks_lem v k b hk hb))

pub set_mask-lt : (v : Bool) (k b : ℕ) → k < 8 → b < 256 → set_mask v k b < 256
unfolding check_masks
set_mask-lt v k b hk hb =
    let low : ltb (set_mask v k b) 256 ≡ true =
      and_left _ _ (and_right _ _ (check_masks_lem v k b hk hb)) in
    ground arith

pub test_mask-set_mask_ne :
    (v : Bool) (k j b : ℕ)
    → k < 8
    → j < 8
    → b < 256
    → j ≢ k
    → test_mask j (set_mask v k b) ≡ test_mask j b
unfolding check_masks
test_mask-set_mask_ne v k j b hk hj hb ne =
    let same : ℕ → Bool = λ i. i == k || test_mask i (set_mask v k b) == test_mask i b in
    let rest : holds_up_to same 8 ≡ true =
      and_right _ _ (and_right _ _ (check_masks_lem v k b hk hb)) in
    let here : (j == k || test_mask j (set_mask v k b) == test_mask j b) ≡ true =
      holds_up_to_at same 8 rest j hj in
    ground arith

pub test_mask-le : (k b : ℕ) → test_mask k b < 2
unfolding test_mask
test_mask-le k b = ground arith
