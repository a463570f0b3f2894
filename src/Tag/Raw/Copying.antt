-- ===== src/Tag/Raw/Copying.antt =====
-- What the copying loop does, and that bytes that are written are read back.
use mathlib.Core.Path.{subst}
use native.Mathlib.Nat.{zero-add}
use junk.Memory.{Bytes, IsByte}
use junk.Prelude.{
  ℕ, zero, suc, ◌+◌, ◌≤◌, ◌<◌, ◌≡◌, refl, ◌∙◌, ◌⊎◌, inl, inr, true, false, some, arith, length,
  get_or, set, All, lt→ltb, ◌==◌, ==_iff, Bool-cases, ℤ, pos, get_elem?-get_or, length-set,
  get_or-set_self, get_or-set_ne, All-set, All-get_or,
}
use junk.Status.{status_ok, err_not_found}
use junk.Tag.Raw.{
  copy_bytes, set_raw_at, set_raw_body, plc_tag_set_raw_bytes, get_raw_at, get_raw_body,
  plc_tag_get_raw_bytes,
}
use junk.Tag.{
  Tag, Tags, with_status, lookup_tag, update, in_bounds, check_bounds, check_bounds-inside,
  index_of, IsValid, IsSized-length, with_buffer, in_bounds-le, on_tag_found, lookup_tag-update,
  lookup_tag_id,
}

-- After the loop position `to_base + j` holds what stood at `from_base + j`, for each round `j`
-- from `i` to `i + n - 1`, and nothing else has changed.
pub record Copied (n i : ℕ) (from : Bytes) (from_base : ℕ) (to : Bytes) (to_base : ℕ)
    (after : Bytes) : Type 0 where
  pub runs : copy_bytes n i from from_base to to_base ≡ some after
  pub same_length : length after ≡ length to
  pub copied :
      (j : ℕ) → i ≤ j → j < i + n → get_or after (to_base + j) 0 ≡ get_or from (from_base + j) 0
  pub kept : (p : ℕ) → (p < to_base + i) ⊎ (to_base + i + n ≤ p) → get_or after p 0 ≡ get_or to p 0
  pub bytes : All IsByte from → All IsByte to → All IsByte after

pub copy_bytes-Copied :
    (n i : ℕ) (from : Bytes) (from_base : ℕ) (to : Bytes) (to_base : ℕ)
    → from_base + i + n ≤ length from
    → to_base + i + n ≤ length to
    → (after : Bytes) × Copied n i from from_base to to_base after
unfolding copy_bytes
copy_bytes-Copied zero i from from_base to to_base room fit = (
  to,
  record {
    runs = refl;
    same_length = refl;
    copied = λ j lo hi. absurd (omega arith);
    kept = λ p out. refl;
    bytes = λ f t. t;
  },
)
copy_bytes-Copied (suc n) i from from_base to to_base room fit =
    let b = get_or from (from_base + i) 0 in
    let next = set to (to_base + i) b in
    let size = length-set to (to_base + i) b in
    let (after, c) =
      copy_bytes-Copied n (suc i) from from_base next to_base (omega arith) (omega arith) in
    (
      after,
      record {
        runs = rw (
          copy_bytes,
          get_elem?-get_or from (from_base + i) 0 (omega arith),
          lt→ltb (to_base + i) (length to) (omega arith),
          c.runs,
        );
        same_length = c.same_length ∙ size;
        copied = λ j lo hi. elim (Bool-cases (i == j)) [
          | inl e ↦
              let here =
                c.kept (to_base + i) (inl (omega arith))
                ∙ get_or-set_self to (to_base + i) b 0 (omega arith) in
              subst (λ q. get_or after (to_base + q) 0 ≡ get_or from (from_base + q) 0)
                ((==_iff i j).0 e) here
          | inr e ↦ c.copied j (ground arith) (omega arith)
        ];
        kept = λ p out. c.kept p (omega arith) ∙ get_or-set_ne to (to_base + i) p b 0 (omega arith);
        bytes = λ f t. c.bytes f (
            All-set IsByte to (to_base + i) b t
              (All-get_or IsByte from (from_base + i) 0 f (omega arith)));
      },
    )

set_raw_body-writes :
    (offset : ℤ) (n : ℕ) (from bs after : Bytes) (t : Tag)
    → t.buffer ≡ some bs
    → t.is_bit ≡ false
    → check_bounds offset (suc n) t.size ≡ true
    → copy_bytes (suc n) 0 from 0 bs (index_of offset) ≡ some after
    → set_raw_body offset (some from) (pos (suc n)) t ≡ some (with_buffer t after, status_ok)
unfolding set_raw_body set_raw_at
set_raw_body-writes offset n from bs after t has plain inside runs = ground arith

get_raw_body-reads :
    (offset : ℤ) (n : ℕ) (to bs after : Bytes) (t : Tag)
    → t.buffer ≡ some bs
    → t.is_bit ≡ false
    → check_bounds offset (suc n) t.size ≡ true
    → copy_bytes (suc n) 0 bs (index_of offset) to 0 ≡ some after
    → get_raw_body offset (some to) (pos (suc n)) t
      ≡ some (with_status t status_ok, (status_ok, some after))
unfolding get_raw_body get_raw_at
get_raw_body-reads offset n to bs after t has plain inside runs = ground arith

-- What follows when `n` + 1 bytes of `from` are set at an offset of tag `t`, whose buffer is `bs`.
abbrev pub RawReadsBack : Tags → ℤ → ℤ → ℕ → Bytes → Bytes → Bytes → Tag → Type 0
RawReadsBack tags id offset n from to bs t =
    (tags' : Tags) × (tags'' : Tags) × (bs' : Bytes) × (to' : Bytes) × (plc_tag_set_raw_bytes tags
        id offset (some from) (pos (suc n))
      ≡ some (tags', status_ok))
    × (plc_tag_get_raw_bytes tags' id offset (some to) (pos (suc n))
        ≡ some (tags'', (status_ok, some to')))
    × ((j : ℕ) → j < suc n → get_or to' j 0 ≡ get_or from j 0)
    × (lookup_tag tags' id ≡ some (with_buffer t bs'))
    × ((p : ℕ)
        → (p < index_of offset) ⊎ (index_of offset + suc n ≤ p)
        → get_or bs' p 0 ≡ get_or bs p 0)

-- On a valid tag that is no bit tag: if a positive number of bytes, no more than the caller's
-- two buffers hold, fits at the offset, setting these bytes and then getting them both return OK
-- and give back the bytes that were set; the bytes of the tag outside that range are kept.
pub raw_bytes-round_trip :
    (tags : Tags) (id offset : ℤ) (n : ℕ) (from to bs : Bytes) (t : Tag)
    → lookup_tag tags id ≡ some t
    → IsValid t
    → t.buffer ≡ some bs
    → t.is_bit ≡ false
    → in_bounds offset (suc n) t.size ≡ true
    → suc n ≤ length from
    → suc n ≤ length to
    → RawReadsBack tags id offset n from to bs t
unfolding plc_tag_set_raw_bytes plc_tag_get_raw_bytes
raw_bytes-round_trip tags id offset n from to bs t found v has plain inside room space =
    let (size, bytes) = IsSized-length t.buffer t.size bs has v.sized in
    let checked = check_bounds-inside offset (suc n) t.size inside in
    let fit = in_bounds-le offset (suc n) t.size inside in
    let (bs', c) =
      copy_bytes-Copied (suc n) 0 from 0 bs (index_of offset) (omega arith) (omega arith) in
    let (to', d) =
      copy_bytes-Copied (suc n) 0 bs' (index_of offset) to 0 (omega (arith, c.same_length))
        (omega arith) in
    let t' = with_buffer t bs' in
    let found' = lookup_tag-update tags id t' (lookup_tag_id tags id found) in
    (
      update tags id t',
      update (update tags id t') id (with_status t' status_ok),
      bs',
      to',
      on_tag_found tags id err_not_found (set_raw_body offset (some from) (pos (suc n))) found
          (set_raw_body-writes offset n from bs bs' t has plain checked c.runs),
      on_tag_found (update tags id t') id (err_not_found, some to)
          (get_raw_body offset (some to) (pos (suc n))) found'
          (get_raw_body-reads offset n to bs' to' t' refl plain checked d.runs),
      λ j lt.
          rw zero-add at (d.copied j (omega arith) (omega arith))
          ∙ rw zero-add at (c.copied j (omega arith) (omega arith)),
      found',
      λ p out. c.kept p (omega arith),
    )
