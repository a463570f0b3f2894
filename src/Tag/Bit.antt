-- ===== src/Tag/Bit.antt =====
-- `plc_tag_get_bit`, `plc_tag_set_bit` and their helpers in libplctag/src/libplctag/lib/lib.c.
-- The trace reads the byte too, in front of the bounds check, if the debug level is the finest.
pub mod Safety
pub mod RoundTrip
use junk.Prelude.{
  ℕ, ◌/◌, ◌%◌, Bool, true, false, Option, none, some, if◌then◌else◌, ◌>>=◌, ℤ, pos, negsuc, ltb,
  not, ◌==ℤ◌, test_mask, set_mask,
}
use junk.Memory.{Bytes, load, store}
use junk.Status.{status_ok, err_no_data, err_out_of_bounds, err_not_found}
use junk.Tag.{Tag, Tags, with_status, mark_dirty, on_tag}

-- `real_offset >= 0 && real_offset / 8 < tag->size`, then the byte is read.
unfoldable pub get_bit_at : Tag → Bytes → ℤ → Option (Tag × ℤ)
get_bit_at t bs (negsuc n) = some (with_status t err_out_of_bounds, err_out_of_bounds)
get_bit_at t bs (pos i) =
    if ltb (i / 8) t.size
    then (load bs (i / 8) >>= λ b. some (with_status t status_ok, pos (test_mask (i % 8) b)))
    else some (with_status t err_out_of_bounds, err_out_of_bounds)

-- The argument `tag->data[real_offset / 8]` of the trace, whose quotient is rounded towards 0:
-- a read outside the buffer is undefined.
unfoldable pub trace_read : Bool → Bytes → ℤ → Option ℕ
trace_read spew bs (pos i) = if spew then load bs (i / 8) else some 0
trace_read spew bs (negsuc n) = if spew then (if ltb n 7 then load bs 0 else none) else some 0

unfoldable pub get_bit_impl : Tag → ℤ → Option (Tag × ℤ)
get_bit_impl t offset_bit = elim t.buffer [
  | none ↦ some (with_status t err_no_data, err_no_data)
  | some bs ↦
      let real_offset = if t.is_bit then t.bit else offset_bit in
      trace_read t.spew bs real_offset >>= λ traced. get_bit_at t bs real_offset
]

unfoldable pub set_bit_at : Tag → Bytes → ℤ → Bool → Option (Tag × ℤ)
set_bit_at t bs (negsuc n) v = some (with_status t err_out_of_bounds, err_out_of_bounds)
set_bit_at t bs (pos i) v =
    if ltb (i / 8) t.size
    then (load bs (i / 8) >>= λ b. store bs (i / 8) (set_mask v (i % 8) b) >>= λ bs'.
        some (record (mark_dirty t) { buffer = some bs'; status = status_ok }, status_ok))
    else some (with_status t err_out_of_bounds, err_out_of_bounds)

-- `val` is tested for being zero.
unfoldable pub set_bit_impl : Tag → ℤ → ℤ → Option (Tag × ℤ)
set_bit_impl t offset_bit val = elim t.buffer [
  | none ↦ some (with_status t err_no_data, err_no_data)
  | some bs ↦
      let real_offset = if t.is_bit then t.bit else offset_bit in
      trace_read t.spew bs real_offset >>= λ traced.
      set_bit_at t bs real_offset (not (val ==ℤ pos 0))
]

unfoldable pub plc_tag_get_bit : Tags → ℤ → ℤ → Option (Tags × ℤ)
plc_tag_get_bit tags id offset_bit = on_tag tags id err_not_found (λ t. get_bit_impl t offset_bit)

unfoldable pub plc_tag_set_bit : Tags → ℤ → ℤ → ℤ → Option (Tags × ℤ)
plc_tag_set_bit tags id offset_bit val =
    on_tag tags id err_not_found (λ t. set_bit_impl t offset_bit val)
