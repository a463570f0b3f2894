-- ===== src/Tag/Bit/Safety.antt =====
-- The bit accessors of a tag with a buffer; they are defined on every valid tag.
use junk.Memory.{Bytes, IsByte}
use junk.Prelude.{
  ℕ, ◌/◌, ◌%◌, ◌<◌, ◌≡◌, refl, ◌∙◌, Bool, true, false, not, some, inl, inr, arith, length, get_or,
  set, All, if◌then◌else◌, ℤ, pos, negsuc, ltb, lt→ltb, ◌==ℤ◌, Bool-cases, Option-cases, test_mask,
  set_mask, set_mask-lt, get_elem?-get_or, length-set, All-set, All-get_or,
}
use junk.Status.{status_ok, err_no_data, err_out_of_bounds, err_not_found}
use junk.Tag.Bit.{
  trace_read, get_bit_at, get_bit_impl, set_bit_at, set_bit_impl, plc_tag_get_bit, plc_tag_set_bit,
}
use junk.Tag.{
  Tag, Tags, with_status, mark_dirty, IsValid, DefinedAt, Safe, TagsValid, Untraced,
  on_tag_found-Safe, IsSized-length, with_status-IsValid, with_buffer, with_buffer-IsValid,
}

-- The result of setting bit `i` of a buffer that holds it.
abbrev pub with_bit : Bytes → ℕ → Bool → Bytes
with_bit bs i v = set bs (i / 8) (set_mask v (i % 8) (get_or bs (i / 8) 0))

pub get_bit_at-inside :
    (t : Tag) (bs : Bytes) (i : ℕ)
    → length bs ≡ t.size
    → i / 8 < t.size
    → get_bit_at t bs (pos i)
      ≡ some (with_status t status_ok, pos (test_mask (i % 8) (get_or bs (i / 8) 0)))
unfolding get_bit_at
get_bit_at-inside t bs i size inside =
    rw (get_bit_at, lt→ltb (i / 8) t.size inside, get_elem?-get_or bs (i / 8) 0 (omega arith))

pub set_bit_at-inside :
    (t : Tag) (bs : Bytes) (i : ℕ) (v : Bool)
    → length bs ≡ t.size
    → i / 8 < t.size
    → set_bit_at t bs (pos i) v
      ≡ some
          (record (mark_dirty t) { buffer = some (with_bit bs i v); status = status_ok }, status_ok)
unfolding set_bit_at
set_bit_at-inside t bs i v size inside = rw (
  set_bit_at,
  lt→ltb (i / 8) t.size inside,
  get_elem?-get_or bs (i / 8) 0 (omega arith),
  lt→ltb (i / 8) (length bs) (omega arith),
)

pub with_bit-IsByte : (bs : Bytes) (i : ℕ) (v : Bool) → All IsByte bs → All IsByte (with_bit bs i v)
with_bit-IsByte bs i v h = All-set IsByte bs (i / 8) (set_mask v (i % 8) (get_or bs (i / 8) 0)) h (
    set_mask-lt v (i % 8) (get_or bs (i / 8) 0) (omega arith)
      (All-get_or IsByte bs (i / 8) 0 h (omega arith)))

get_bit_at-Keeps :
    (t : Tag) (bs : Bytes) (at : ℤ)
    → length bs ≡ t.size
    → (s r : ℤ) × (get_bit_at t bs at ≡ some (with_status t s, r))
unfolding get_bit_at
get_bit_at-Keeps t bs (negsuc n) size = (err_out_of_bounds, err_out_of_bounds, refl)
get_bit_at-Keeps t bs (pos i) size = elim (Bool-cases (ltb (i / 8) t.size)) [
  | inl e ↦ (status_ok, _, get_bit_at-inside t bs i size (ground arith))
  | inr e ↦ (err_out_of_bounds, err_out_of_bounds, rw (get_bit_at, e))
]

-- The trace is harmless below the finest debug level, and inside the buffer.
trace_read-quiet : (bs : Bytes) (at : ℤ) → trace_read false bs at ≡ some 0
unfolding trace_read
trace_read-quiet bs (pos i) = refl
trace_read-quiet bs (negsuc n) = refl

pub trace_read-inside :
    (spew : Bool) (bs : Bytes) (i : ℕ)
    → i / 8 < length bs
    → (traced : ℕ) × (trace_read spew bs (pos i) ≡ some traced)
unfolding trace_read
trace_read-inside true bs i inside =
    (get_or bs (i / 8) 0, get_elem?-get_or bs (i / 8) 0 (omega arith))
trace_read-inside false bs i inside = (0, refl)

-- The two operations on a tag with a buffer.
pub get_bit_impl-buffer :
    (t : Tag) (bs : Bytes) (offset_bit : ℤ) (traced : ℕ)
    → t.buffer ≡ some bs
    → trace_read t.spew bs (if t.is_bit then t.bit else offset_bit) ≡ some traced
    → get_bit_impl t offset_bit ≡ get_bit_at t bs (if t.is_bit then t.bit else offset_bit)
unfolding get_bit_impl
get_bit_impl-buffer t bs offset_bit traced e read = ground arith

pub set_bit_impl-buffer :
    (t : Tag) (bs : Bytes) (offset_bit val : ℤ) (traced : ℕ)
    → t.buffer ≡ some bs
    → trace_read t.spew bs (if t.is_bit then t.bit else offset_bit) ≡ some traced
    → set_bit_impl t offset_bit val
      ≡ set_bit_at t bs (if t.is_bit then t.bit else offset_bit) (not (val ==ℤ pos 0))
unfolding set_bit_impl
set_bit_impl-buffer t bs offset_bit val traced e read = ground arith

quiet_read : (t : Tag) (bs : Bytes) (at : ℤ) → t.spew ≡ false → trace_read t.spew bs at ≡ some 0
quiet_read t bs at q = rw q (trace_read-quiet bs at)

pub get_bit_impl-Defined :
    (offset_bit : ℤ) (t : Tag)
    → t.spew ≡ false
    → IsValid t
    → DefinedAt (λ u. get_bit_impl u offset_bit) t
unfolding get_bit_impl
get_bit_impl-Defined offset_bit t q v = elim (Option-cases t.buffer) [
  | inl e ↦
      (with_status t err_no_data, err_no_data, ground arith, with_status-IsValid t err_no_data v)
  | inr (bs, e) ↦
      let size = (IsSized-length t.buffer t.size bs e v.sized).0 in
      let at = if t.is_bit then t.bit else offset_bit in
      let (s, r, run) = get_bit_at-Keeps t bs at size in
      (
        with_status t s,
        r,
        get_bit_impl-buffer t bs offset_bit 0 e (quiet_read t bs at q) ∙ run,
        with_status-IsValid t s v,
      )
]

set_bit_at-Keeps :
    (t : Tag) (bs : Bytes) (at : ℤ) (b : Bool)
    → IsValid t
    → length bs ≡ t.size
    → All IsByte bs
    → (t' : Tag) × (r : ℤ) × (set_bit_at t bs at b ≡ some (t', r)) × IsValid t'
unfolding set_bit_at
set_bit_at-Keeps t bs (negsuc n) b v size bytes = (
  with_status t err_out_of_bounds,
  err_out_of_bounds,
  refl,
  with_status-IsValid t err_out_of_bounds v,
)
set_bit_at-Keeps t bs (pos i) b v size bytes = elim (Bool-cases (ltb (i / 8) t.size)) [
  | inl e ↦ (
    with_buffer t (with_bit bs i b),
    status_ok,
    set_bit_at-inside t bs i b size (ground arith),
    with_buffer-IsValid t (with_bit bs i b)
        (length-set bs (i / 8) (set_mask b (i % 8) (get_or bs (i / 8) 0)) ∙ size)
        (with_bit-IsByte bs i b bytes) v,
  )
  | inr e ↦ (
    with_status t err_out_of_bounds,
    err_out_of_bounds,
    rw (set_bit_at, e),
    with_status-IsValid t err_out_of_bounds v,
  )
]

pub set_bit_impl-Defined :
    (offset_bit val : ℤ) (t : Tag)
    → t.spew ≡ false
    → IsValid t
    → DefinedAt (λ u. set_bit_impl u offset_bit val) t
unfolding set_bit_impl
set_bit_impl-Defined offset_bit val t q v = elim (Option-cases t.buffer) [
  | inl e ↦
      (with_status t err_no_data, err_no_data, ground arith, with_status-IsValid t err_no_data v)
  | inr (bs, e) ↦
      let (size, bytes) = IsSized-length t.buffer t.size bs e v.sized in
      let at = if t.is_bit then t.bit else offset_bit in
      let (t', r, run, v') = set_bit_at-Keeps t bs at (not (val ==ℤ pos 0)) v size bytes in
      (t', r, set_bit_impl-buffer t bs offset_bit val 0 e (quiet_read t bs at q) ∙ run, v')
]

-- Getting and setting a bit never leaves a buffer, whatever the handle, the offset and the value,
-- if the tags of the table are valid and the debug level is below the finest one, which traces
-- the byte before its bounds check; and it leaves the tags valid.
pub plc_tag_bit-Safe :
    (tags : Tags) (id offset_bit val : ℤ)
    → TagsValid tags
    → Untraced tags
    → Safe (plc_tag_get_bit tags id offset_bit) × Safe (plc_tag_set_bit tags id offset_bit val)
unfolding plc_tag_get_bit plc_tag_set_bit
plc_tag_bit-Safe tags id offset_bit val valid quiet = (
  on_tag_found-Safe tags id err_not_found (λ t. get_bit_impl t offset_bit)
      (λ t found. get_bit_impl-Defined offset_bit t (quiet id t found)) valid,
  on_tag_found-Safe tags id err_not_found (λ t. set_bit_impl t offset_bit val)
      (λ t found. set_bit_impl-Defined offset_bit val t (quiet id t found)) valid,
)
