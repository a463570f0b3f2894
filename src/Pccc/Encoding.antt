-- ===== src/Pccc/Encoding.antt =====
-- The encodings of an address in libplctag/src/libplctag/protocols/ab/pccc.c, and how their fields
-- are read back.
use junk.Prelude.{
  ℕ, ◌+◌, ◌*◌, ◌/◌, ◌%◌, ◌≤◌, ◌<◌, ◌≡◌, refl, ◌∙◌, inl, inr, true, false, some, arith,
  if◌then◌else◌, leb, ◌==◌, length, get_or, set, lt→ltb, length-set, get_or-set_self, get_or-set_ne,
  pos, Bool-cases, leb_ℤ,
}
use junk.Memory.{Bytes}
use junk.Pccc.{encode_data}

-- A field of an encoded address: a byte, or 0xFF and two bytes, the low one first.
abbrev pub decode_at : Bytes → ℕ → ℕ
decode_at bs i =
    if get_or bs i 0 == 0xff then get_or bs (i + 1) 0 + 256 * get_or bs (i + 2) 0 else get_or bs i 0

-- How many bytes a value takes.
abbrev pub width : ℕ → ℕ
width v = if leb v 254 then 1 else 3

-- The value stands at the index; what is before it is as it was.
pub record Encoded (bs : Bytes) (i v : ℕ) (after : Bytes) : Type 0 where
  pub runs : encode_data (bs, i) (pos v) ≡ some (after, i + width v)
  pub same_length : length after ≡ length bs
  pub first : get_or after i 0 ≡ (if leb v 254 then v else 0xff)
  pub rest : 255 ≤ v → (get_or after (i + 1) 0 ≡ v % 256) × (get_or after (i + 2) 0 ≡ v / 256)
  pub kept : (p : ℕ) → p < i → get_or after p 0 ≡ get_or bs p 0

encode_short :
    (bs : Bytes) (i v : ℕ)
    → v ≤ 254
    → i < length bs
    → encode_data (bs, i) (pos v) ≡ some (set bs i v, i + 1)
unfolding encode_data
encode_short bs i v le lt =
    let small : leb_ℤ (pos v) (pos 254) ≡ true = ground arith in
    let same : v % 256 ≡ v = omega arith in
    rw (encode_data, small, lt→ltb i (length bs) lt, same) refl

encode_long :
    (bs : Bytes) (i v : ℕ)
    → 255 ≤ v
    → v < 65536
    → i + 2 < length bs
    → encode_data (bs, i) (pos v)
      ≡ some (set (set (set bs i 0xff) (i + 1) (v % 256)) (i + 2) (v / 256), i + 3)
unfolding encode_data
encode_long bs i v ge lt room =
    let large : leb_ℤ (pos v) (pos 254) ≡ false = ground arith in
    let bs1 = set bs i 0xff in
    let bs2 = set bs1 (i + 1) (v % 256) in
    let l1 = length-set bs i 0xff in
    let l2 = length-set bs1 (i + 1) (v % 256) in
    let low : v % 4294967296 % 256 ≡ v % 256 = omega arith in
    let high : v % 4294967296 / 256 % 256 ≡ v / 256 = omega arith in
    rw
      (
        encode_data,
        large,
        lt→ltb i (length bs) (omega arith),
        low,
        high,
        lt→ltb (i + 1) (length bs1) (omega arith),
        lt→ltb (i + 2) (length bs2) (omega arith),
      )
      refl

pub encode_data-Encoded :
    (bs : Bytes) (i v : ℕ)
    → v < 65536
    → i + width v ≤ length bs
    → (after : Bytes) × Encoded bs i v after
encode_data-Encoded bs i v lt room = elim (Bool-cases (leb v 254)) [
  | inl b ↦ (
    set bs i v,
    record {
      runs = encode_short bs i v (ground arith) (ground arith) ∙ (rw b refl);
      same_length = length-set bs i v;
      first = get_or-set_self bs i v 0 (ground arith) ∙ (rw b refl);
      rest = λ ge. absurd (ground arith);
      kept = λ p below. get_or-set_ne bs i p v 0 (omega arith);
    },
  )
  | inr b ↦
      let ge : 255 ≤ v = ground arith in
      let room' : i + 2 < length bs = ground arith in
      let bs1 = set bs i 0xff in
      let bs2 = set bs1 (i + 1) (v % 256) in
      let l1 = length-set bs i 0xff in
      let l2 = length-set bs1 (i + 1) (v % 256) in
      (
        set bs2 (i + 2) (v / 256),
        record {
          runs = encode_long bs i v ge lt room' ∙ (rw b refl);
          same_length = length-set bs2 (i + 2) (v / 256) ∙ (l2 ∙ l1);
          first =
              get_or-set_ne bs2 (i + 2) i (v / 256) 0 (omega arith)
              ∙ (get_or-set_ne bs1 (i + 1) i (v % 256) 0 (omega arith)
                  ∙ (get_or-set_self bs i 0xff 0 (omega arith) ∙ (rw b refl)));
          rest = λ _. (
            get_or-set_ne bs2 (i + 2) (i + 1) (v / 256) 0 (omega arith)
                ∙ get_or-set_self bs1 (i + 1) (v % 256) 0 (omega arith),
            get_or-set_self bs2 (i + 2) (v / 256) 0 (omega arith),
          );
          kept = λ p below.
              get_or-set_ne bs2 (i + 2) p (v / 256) 0 (omega arith)
              ∙ (get_or-set_ne bs1 (i + 1) p (v % 256) 0 (omega arith)
                  ∙ get_or-set_ne bs i p 0xff 0 (omega arith));
        },
      )
]

-- The field is read back from any buffer that has the same bytes up to its end.
pub decode_at-Encoded :
    (bs after final : Bytes) (i v : ℕ)
    → Encoded bs i v after
    → ((p : ℕ) → p < i + width v → get_or final p 0 ≡ get_or after p 0)
    → decode_at final i ≡ v
decode_at-Encoded bs after final i v e same = elim (Bool-cases (leb v 254)) [
  | inl b ↦
      let here : get_or final i 0 ≡ v = same i (ground arith) ∙ (e.first ∙ (rw b refl)) in
      ground (arith, here)
  | inr b ↦
      let ge : 255 ≤ v = ground arith in
      let here : get_or final i 0 ≡ 0xff = same i (ground arith) ∙ (e.first ∙ (rw b refl)) in
      let low = same (i + 1) (ground arith) ∙ (e.rest ge).0 in
      let high = same (i + 2) (ground arith) ∙ (e.rest ge).1 in ground (arith, here, low, high)
]
