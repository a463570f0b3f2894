-- ===== src/Tag/Bit/RoundTrip.antt =====
-- A bit that is set is read back, and the other bits are kept.
use junk.Memory.{Bytes, IsByte}
use junk.Prelude.{
  ℕ, ◌/◌, ◌%◌, ◌<◌, ◌≡◌, refl, ap, ◌∙◌, ◌≢◌, Bool, not, some, inl, inr, arith, length, get_or, All,
  if◌then◌else◌, ℤ, pos, ◌==ℤ◌, ◌==◌, ==_iff, Bool-cases, test_mask, set_mask, test_mask-set_mask,
  test_mask-set_mask_ne, length-set, get_or-set_self, get_or-set_ne, All-get_or,
}
use junk.Status.{status_ok, err_not_found}
use junk.Tag.Bit.Safety.{
  trace_read-inside, get_bit_at-inside, set_bit_at-inside, with_bit, get_bit_impl-buffer,
  set_bit_impl-buffer,
}
use junk.Tag.Bit.{get_bit_impl, set_bit_impl, plc_tag_get_bit, plc_tag_set_bit}
use junk.Tag.{
  Tag, Tags, with_status, lookup_tag, update, IsValid, on_tag_found, lookup_tag-update,
  lookup_tag_id, IsSized-length, with_buffer,
}

-- The bit that a tag reads and writes: its own one on a bit tag, the one at the offset otherwise.
abbrev pub bit_position : Tag → ℤ → ℤ
bit_position t offset_bit = if t.is_bit then t.bit else offset_bit

-- The value of a bit of a buffer.
abbrev pub bit_of : Bytes → ℕ → ℤ
bit_of bs i = pos (test_mask (i % 8) (get_or bs (i / 8) 0))

with_bit-same :
    (bs : Bytes) (i : ℕ) (v : Bool)
    → i / 8 < length bs
    → All IsByte bs
    → bit_of (with_bit bs i v) i ≡ pos (if v then 1 else 0)
with_bit-same bs i v inside bytes =
    let byte = All-get_or IsByte bs (i / 8) 0 bytes (omega arith) in
    rw (get_or-set_self bs (i / 8) (set_mask v (i % 8) (get_or bs (i / 8) 0)) 0 inside)
      (ap pos (test_mask-set_mask v (i % 8) (get_or bs (i / 8) 0) (omega arith) byte))

with_bit-other :
    (bs : Bytes) (i j : ℕ) (v : Bool)
    → i / 8 < length bs
    → All IsByte bs
    → j ≢ i
    → bit_of (with_bit bs i v) j ≡ bit_of bs j
with_bit-other bs i j v inside bytes ne = elim (Bool-cases (j / 8 == i / 8)) [
  | inl e ↦
      let byte = All-get_or IsByte bs (i / 8) 0 bytes (omega arith) in
      let same : j / 8 ≡ i / 8 = (==_iff _ _).0 e in
      rw (same, get_or-set_self bs (i / 8) (set_mask v (i % 8) (get_or bs (i / 8) 0)) 0 inside)
        (ap pos (
          test_mask-set_mask_ne v (i % 8) (j % 8) (get_or bs (i / 8) 0) (omega arith) (omega arith)
            byte (omega arith)))
  | inr e ↦
      let apart : i / 8 ≢ j / 8 = ground arith in
      rw (get_or-set_ne bs (i / 8) (j / 8) (set_mask v (i % 8) (get_or bs (i / 8) 0)) 0 apart)
]

-- What follows when bit `i` of tag `t`, whose buffer is `bs`, is set by way of an offset.
abbrev pub BitReadsBack : Tags → ℤ → ℤ → ℤ → Tag → Bytes → ℕ → Type 0
BitReadsBack tags id offset_bit val t bs i =
    (tags' : Tags) × (tags'' : Tags) × (bs' : Bytes) × (plc_tag_set_bit tags id offset_bit val
      ≡ some (tags', status_ok))
    × (plc_tag_get_bit tags' id offset_bit ≡ some (tags'', if val ==ℤ pos 0 then pos 0 else pos 1))
    × (lookup_tag tags' id ≡ some (with_buffer t bs'))
    × ((j : ℕ) → j ≢ i → bit_of bs' j ≡ bit_of bs j)

-- Setting a bit of a valid tag at a position inside its buffer returns OK; getting it then
-- returns 1 if the value was not zero and 0 if it was. Every other bit of the buffer is kept.
pub get_bit-set_bit :
    (tags : Tags) (id offset_bit val : ℤ) (t : Tag) (bs : Bytes) (i : ℕ)
    → lookup_tag tags id ≡ some t
    → IsValid t
    → t.buffer ≡ some bs
    → bit_position t offset_bit ≡ pos i
    → i / 8 < t.size
    → BitReadsBack tags id offset_bit val t bs i
unfolding plc_tag_get_bit plc_tag_set_bit
get_bit-set_bit tags id offset_bit val t bs i found v has at inside =
    let (size, bytes) = IsSized-length t.buffer t.size bs has v.sized in
    let b = not (val ==ℤ pos 0) in
    let t' = with_buffer t (with_bit bs i b) in
    let found' = lookup_tag-update tags id t' (lookup_tag_id tags id found) in
    let (traced, read) = trace_read-inside t.spew bs i (omega arith) in
    let length' = length-set bs (i / 8) (set_mask b (i % 8) (get_or bs (i / 8) 0)) in
    let (traced', read') = trace_read-inside t.spew (with_bit bs i b) i (omega (arith, length')) in
    (
      update tags id t',
      update (update tags id t') id (with_status t' status_ok),
      with_bit bs i b,
      on_tag_found tags id err_not_found (λ u. set_bit_impl u offset_bit val) found
          (set_bit_impl-buffer t bs offset_bit val traced has (rw at read)
            ∙ rw at (set_bit_at-inside t bs i b size inside)),
      on_tag_found (update tags id t') id err_not_found (λ u. get_bit_impl u offset_bit) found'
          (get_bit_impl-buffer t' (with_bit bs i b) offset_bit traced' refl (rw at read')
            ∙ rw at (
                get_bit_at-inside t' (with_bit bs i b) i (length' ∙ size) inside
                ∙ rw (with_bit-same bs i b (omega arith) bytes) (ground arith))),
      found',
      λ j ne. with_bit-other bs i j b (omega arith) bytes ne,
    )
