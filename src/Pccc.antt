-- ===== src/Pccc.antt =====
-- The addresses of PCCC data in libplctag/src/libplctag/protocols/ab/pccc.c: the address itself, and
-- its two encodings. A store outside the buffer is undefined behaviour, `none`; the
-- pointers are not null.
pub mod Types
pub mod Fields
pub mod Parser
pub mod Digits
pub mod Encoding
pub mod RoundTrip
mod Tests
use junk.Prelude.{
  ℕ, ◌+◌, ◌/◌, ◌%◌, ◌^◌, Bool, true, false, Option, none, some, if◌then◌else◌, ◌>>=◌, ℤ, pos,
  negsuc, ltb_ℤ, leb_ℤ, ◌==◌, to_unsigned,
}
use junk.Memory.{Bytes, store}
use junk.Status.{status_ok, err_too_small, err_bad_param}

-- `pccc_addr_t`
pub record PcccAddr : Type 0 where
  pub file_type : ℕ
  pub file : ℤ
  pub element : ℤ
  pub sub_element : ℤ
  pub is_bit : ℕ
  pub bit : ℕ
  pub element_size_bytes : ℕ

-- The buffer and `*size`.
unfoldable pub encode_data : Bytes × ℕ → ℤ → Option (Bytes × ℕ)
encode_data (bs, index) val =
    if leb_ℤ val (pos 254)
    then (do bs1 ← store bs index (to_unsigned 256 val); some (bs1, index + 1))
    else (do
      bs1 ← store bs index 0xff
      bs2 ← store bs1 (index + 1) (to_unsigned (2 ^ 32) val % 256)
      bs3 ← store bs2 (index + 2) (to_unsigned (2 ^ 32) val / 256 % 256)
      some (bs3, index + 3))

-- The levels, and the byte that says which are there.
unfoldable pub plc5_levels : Bytes → PcccAddr → Option (Bytes × ℕ)
plc5_levels bs a = do
  at_file ← encode_data (bs, 1) a.file
  at_element ← encode_data at_file a.element
  at_sub ←
      if ltb_ℤ a.sub_element (pos 0) then some at_element else encode_data at_element a.sub_element
  flagged ← store at_sub.0 0 (if ltb_ℤ a.sub_element (pos 0) then 0x06 else 0x0E)
  some (flagged, at_sub.1)

unfoldable pub plc5_encode_address : Bytes → ℤ → PcccAddr → Option ((Bytes × ℕ) × ℤ)
plc5_encode_address bs buf_size a =
    if ltb_ℤ buf_size (pos 10)
    then some ((bs, 0), err_too_small)
    else (plc5_levels bs a >>= λ r. some (r, status_ok))

unfoldable pub slc_fields : Bytes → PcccAddr → Option (Bytes × ℕ)
slc_fields bs a = do
  at_file ← encode_data (bs, 0) a.file
  at_type ← encode_data at_file (pos a.file_type)
  at_element ← encode_data at_type a.element
  encode_data at_element (if ltb_ℤ a.sub_element (pos 0) then pos 0 else a.sub_element)

-- `size` is what `*size` was, which a buffer that is too small leaves.
unfoldable pub slc_encode_address : Bytes → ℕ → ℤ → PcccAddr → Option ((Bytes × ℕ) × ℤ)
slc_encode_address bs size buf_size a =
    if ltb_ℤ buf_size (pos 10)
    then some ((bs, size), err_too_small)
    else if a.file_type == 0
    then some ((bs, 0), err_bad_param)
    else (slc_fields bs a >>= λ r. some (r, status_ok))
