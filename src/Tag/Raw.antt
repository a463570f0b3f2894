-- ===== src/Tag/Raw.antt =====
-- `plc_tag_set_raw_bytes` and `plc_tag_get_raw_bytes` in libplctag/src/libplctag/lib/lib.c.
-- The caller's buffer is a list of bytes, or no list for a null pointer; the read returns it as
-- it is afterwards.
pub mod Copying
use junk.Prelude.{
  ℕ, zero, suc, ◌+◌, Bool, true, false, Option, none, some, if◌then◌else◌, ◌>>=◌, ℤ, pos, negsuc,
  pos_part, leb_ℤ,
}
use junk.Memory.{Bytes, load, store}
use junk.Status.{
  status_ok, err_no_data, err_out_of_bounds, err_not_found, err_unsupported, err_null_ptr,
  err_bad_param,
}
use junk.Tag.{Tag, Tags, with_status, mark_dirty, on_tag, check_bounds, index_of, with_buffer}

-- `for(i = 0; i < n; i++) { to[to_base + i] = from[from_base + i]; }`, with `n` rounds to go.
unfoldable pub copy_bytes : ℕ → ℕ → Bytes → ℕ → Bytes → ℕ → Option Bytes
copy_bytes zero i from from_base to to_base = some to
copy_bytes (suc n) i from from_base to to_base = do
  b ← load from (from_base + i)
  to' ← store to (to_base + i) b
  copy_bytes n (suc i) from from_base to' to_base

unfoldable pub set_raw_at : ℤ → ℤ → Bytes → Bytes → Tag → Option (Tag × ℤ)
set_raw_at offset buffer_size buffer bs t =
    if t.is_bit
    then some (with_status t err_unsupported, err_unsupported)
    else if check_bounds offset (pos_part buffer_size) t.size
    then (copy_bytes (pos_part buffer_size) 0 buffer 0 bs (index_of offset) >>= λ bs'.
        some (with_buffer t bs', status_ok))
    else some (with_status t err_out_of_bounds, err_out_of_bounds)

unfoldable pub set_raw_body : ℤ → Option Bytes → ℤ → Tag → Option (Tag × ℤ)
set_raw_body offset buffer buffer_size t = elim t.buffer [
  | none ↦ some (with_status t err_no_data, err_no_data)
  | some bs ↦ elim buffer [
    | none ↦ some (t, err_null_ptr)
    | some from ↦
        if leb_ℤ buffer_size (pos 0)
        then some (t, err_bad_param)
        else set_raw_at offset buffer_size from bs t
  ]
]

unfoldable pub plc_tag_set_raw_bytes : Tags → ℤ → ℤ → Option Bytes → ℤ → Option (Tags × ℤ)
plc_tag_set_raw_bytes tags id offset buffer buffer_size =
    on_tag tags id err_not_found (set_raw_body offset buffer buffer_size)

unfoldable pub get_raw_at : ℤ → ℤ → Bytes → Bytes → Tag → Option (Tag × (ℤ × Option Bytes))
get_raw_at offset buffer_size buffer bs t =
    if t.is_bit
    then some (with_status t err_unsupported, (err_unsupported, some buffer))
    else if check_bounds offset (pos_part buffer_size) t.size
    then (copy_bytes (pos_part buffer_size) 0 bs (index_of offset) buffer 0 >>= λ buffer'.
        some (with_status t status_ok, (status_ok, some buffer')))
    else some (with_status t err_out_of_bounds, (err_out_of_bounds, some buffer))

unfoldable pub get_raw_body : ℤ → Option Bytes → ℤ → Tag → Option (Tag × (ℤ × Option Bytes))
get_raw_body offset buffer buffer_size t = elim t.buffer [
  | none ↦ some (with_status t err_no_data, (err_no_data, buffer))
  | some bs ↦ elim buffer [
    | none ↦ some (t, (err_null_ptr, none))
    | some to ↦
        if leb_ℤ buffer_size (pos 0)
        then some (t, (err_bad_param, some to))
        else get_raw_at offset buffer_size to bs t
  ]
]

unfoldable pub plc_tag_get_raw_bytes :
    Tags → ℤ → ℤ → Option Bytes → ℤ → Option (Tags × (ℤ × Option Bytes))
plc_tag_get_raw_bytes tags id offset buffer buffer_size =
    on_tag tags id (err_not_found, buffer) (get_raw_body offset buffer buffer_size)
