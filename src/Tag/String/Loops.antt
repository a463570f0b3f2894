-- ===== src/Tag/String/Loops.antt =====
-- What the loops over the bytes of a string do.
use junk.Prelude.{
  ℕ, zero, suc, ◌+◌, ◌≤◌, ◌<◌, ◌≡◌, ◌≢◌, ◌⊎◌, refl, sym, ◌∙◌, Bool, [], ◌∷◌, some, ◌==◌, ==_iff,
  arith, Bool-cases, inl, inr, length, get_or, set, All, lt→ltb, length-set, get_or-set_self,
  get_or-set_ne, All-set,
}
use mathlib.Core.Path.{subst}
use junk.Memory.{Bytes, IsByte, store}
use junk.Status.{status_ok}
use junk.Tag.String.{zero_bytes}
use junk.Tag.String.Setting.{copy_in, swapped_index}
use junk.Tag.String.Index.{swapped_index-injective}

-- After zeroing `n` bytes from `i` on.
pub record Zeroed (n i : ℕ) (bs after : Bytes) : Type 0 where
  pub runs : zero_bytes n i bs ≡ some after
  pub same_length : length after ≡ length bs
  pub zeros : (p : ℕ) → i ≤ p → p < i + n → get_or after p 0 ≡ 0
  pub kept : (p : ℕ) → (p < i) ⊎ (i + n ≤ p) → get_or after p 0 ≡ get_or bs p 0
  pub bytes : All IsByte bs → All IsByte after

pub by_number : (P : ℕ → Type 0) → P 0 → ((j : ℕ) → P (suc j)) → (j : ℕ) → P j
by_number P z s zero = z
by_number P z s (suc j) = s j

pub store-set : (bs : Bytes) (i v : ℕ) → i < length bs → store bs i v ≡ some (set bs i v)
store-set bs i v h = rw (lt→ltb i (length bs) h) refl

pub zero_bytes-Zeroed :
    (n i : ℕ) (bs : Bytes) → i + n ≤ length bs → (after : Bytes) × Zeroed n i bs after
unfolding zero_bytes
zero_bytes-Zeroed zero i bs fit = (
  bs,
  record {
    runs = refl;
    same_length = refl;
    zeros = λ p lo hi. absurd (omega arith);
    kept = λ p out. refl;
    bytes = λ h. h;
  },
)
zero_bytes-Zeroed (suc n) i bs fit =
    let size = length-set bs i 0 in
    let (after, z) = zero_bytes-Zeroed n (suc i) (set bs i 0) (omega arith) in
    (
      after,
      record {
        runs = rw (lt→ltb i (length bs) (omega arith)) z.runs;
        same_length = z.same_length ∙ size;
        zeros = λ p lo hi. elim (Bool-cases (i == p)) [
          | inl e ↦
              subst (λ q. get_or after q 0 ≡ 0) ((==_iff i p).0 e)
                (z.kept i (inl (omega arith)) ∙ get_or-set_self bs i 0 0 (omega arith))
          | inr e ↦ z.zeros p (ground arith) (omega arith)
        ];
        kept = λ p out. z.kept p (omega arith) ∙ get_or-set_ne bs i p 0 0 (omega arith);
        bytes = λ h. z.bytes (All-set IsByte bs i 0 h (omega arith));
      },
    )

-- After copying `cs` in, as the bytes from `i` on of a string at `start`.
pub record CopiedIn (cs : Bytes) (i : ℕ) (swapped : Bool) (size start : ℕ) (bs after : Bytes)
    : Type 0 where
  pub runs : copy_in cs i swapped size start bs ≡ some (after, status_ok)
  pub same_length : length after ≡ length bs
  pub copied :
      (j : ℕ)
      → j < length cs
      → get_or after (start + swapped_index swapped (i + j)) 0 ≡ get_or cs j 0
  pub kept :
      (p : ℕ)
      → ((j : ℕ) → j < length cs → p ≢ start + swapped_index swapped (i + j))
      → get_or after p 0 ≡ get_or bs p 0
  pub bytes : All IsByte cs → All IsByte bs → All IsByte after

pub copy_in-CopiedIn :
    (cs : Bytes) (i : ℕ) (swapped : Bool) (size start : ℕ) (bs : Bytes)
    → length bs ≡ size
    → ((j : ℕ) → j < length cs → start + swapped_index swapped (i + j) < size)
    → (after : Bytes) × CopiedIn cs i swapped size start bs after
unfolding copy_in
copy_in-CopiedIn [] i swapped size start bs same fit = (
  bs,
  record {
    runs = refl;
    same_length = refl;
    copied = λ j h. absurd (omega arith);
    kept = λ p out. refl;
    bytes = λ c h. h;
  },
)
copy_in-CopiedIn (c ∷ cs) i swapped size start bs same fit =
    let at = start + swapped_index swapped i in
    let first : i + 0 ≡ i = omega arith in
    let fits : at < size = rw first at (fit 0 (omega arith)) in
    let next = set bs at c in
    let size' = length-set bs at c in
    let shift : (j : ℕ) → suc i + j ≡ i + suc j = λ j. omega arith in
    let (after, w) =
      copy_in-CopiedIn cs (suc i) swapped size start next (size' ∙ same)
        λ j h. rw (shift j) (fit (suc j) (omega arith)) in
    let here : get_or after at 0 ≡ c =
      w.kept at (λ j h e.
        absurd (omega (arith, swapped_index-injective swapped i (suc i + j) (omega (arith, e)))))
      ∙ get_or-set_self bs at c 0 (omega arith) in
    (
      after,
      record {
        runs = rw (lt→ltb at size fits, lt→ltb at (length bs) (omega arith)) w.runs;
        same_length = w.same_length ∙ size';
        copied =
            by_number
              (λ j.
                j < suc (length cs)
                → get_or after (start + swapped_index swapped (i + j)) 0 ≡ get_or (c ∷ cs) j 0)
              (λ h. rw first here) (λ j h. rw (← shift j) (w.copied j (omega arith)));
        kept = λ p out.
            w.kept p (λ j h. rw (shift j) (out (suc j) (omega arith)))
            ∙ get_or-set_ne bs at p c 0 (λ e. out 0 (omega arith) (rw first (sym e)));
        bytes = λ h b. w.bytes h.1 (All-set IsByte bs at c b h.0);
      },
    )
