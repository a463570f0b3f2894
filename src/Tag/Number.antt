-- ===== src/Tag/Number.antt =====
-- The accessors of whole numbers and of floating point numbers in
-- libplctag/src/libplctag/lib/lib.c, from `plc_tag_get_uint64` to `plc_tag_set_float32`.
-- A floating point number is its bit pattern: the code only copies its bytes. An offset so
-- large that the bounds check overflows passes it, and the access behind the buffer is undefined.
pub mod Kinds
pub mod RoundTrip
pub mod Safety
pub mod Errors
use junk.Prelude.{
  ℕ, ◌-◌, ◌^◌, Bool, true, false, List, [], ◌∷◌, Option, none, some, if◌then◌else◌, ◌>>=◌, ℤ, pos,
  negsuc, leb_ℤ, ◌==ℤ◌, to_unsigned, to_signed,
}
use junk.Memory.{Bytes, read_word, write_word}
use junk.Status.{status_ok, err_no_data, err_out_of_bounds, err_not_found, err_unsupported}
use junk.Tag.Bit.{get_bit_impl, set_bit_impl}
use junk.Tag.{ByteOrder, Tag, Tags, with_status, mark_dirty, on_tag, check_bounds, index_of}

-- The positions of the bytes, through the pointer `tag->byte_order`; one byte needs none.
abbrev pub int16_bytes : Tag → Option (List ℕ)
int16_bytes t = t.byte_order >>= λ o. some o.int16_order

abbrev pub int32_bytes : Tag → Option (List ℕ)
int32_bytes t = t.byte_order >>= λ o. some o.int32_order

abbrev pub int64_bytes : Tag → Option (List ℕ)
int64_bytes t = t.byte_order >>= λ o. some o.int64_order

abbrev pub float32_bytes : Tag → Option (List ℕ)
float32_bytes t = t.byte_order >>= λ o. some o.float32_order

abbrev pub float64_bytes : Tag → Option (List ℕ)
float64_bytes t = t.byte_order >>= λ o. some o.float64_order

abbrev pub one_byte : Tag → Option (List ℕ)
one_byte t = some (0 ∷ [])

-- What one getter does with a tag that has data: `width` bytes in the order `bytes`, the result
-- `default` where there is no value, and the conversion of the unsigned word.
unfoldable pub get_value :
    (Tag → Option (List ℕ)) → ℕ → ℤ → (ℕ → ℤ) → ℤ → Bytes → Tag → Option (Tag × ℤ)
get_value bytes width default convert offset bs t =
    if check_bounds offset width t.size
    then (bytes t >>= λ os.
        read_word bs (index_of offset) os >>= λ v. some (with_status t status_ok, convert v))
    else some (with_status t err_out_of_bounds, default)

-- A bit tag reads its bit; a bit, 0 or 1, is the same number in every result type.
unfoldable pub get_bit_value : ℤ → Tag → Option (Tag × ℤ)
get_bit_value default t =
    get_bit_impl t t.bit >>= λ r. some (r.0, if leb_ℤ (pos 0) r.1 then r.1 else default)

unfoldable pub get_number :
    (Tag → Option (List ℕ)) → ℕ → ℤ → ℤ → (ℕ → ℤ) → ℤ → Tag → Option (Tag × ℤ)
get_number bytes width no_data default convert offset t = elim t.buffer [
  | none ↦ some (with_status t err_no_data, no_data)
  | some bs ↦
      if t.is_bit
      then get_bit_value default t
      else get_value bytes width default convert offset bs t
]

unfoldable pub set_value : (Tag → Option (List ℕ)) → ℕ → ℤ → ℕ → Bytes → Tag → Option (Tag × ℤ)
set_value bytes width offset val bs t =
    if check_bounds offset width t.size
    then (bytes t >>= λ os. write_word bs (index_of offset) os val >>= λ bs'.
        some (record (mark_dirty t) { buffer = some bs'; status = status_ok }, status_ok))
    else some (with_status t err_out_of_bounds, err_out_of_bounds)

-- `if(!val) { … set_bit_impl(tag, 0, 0) } else { … set_bit_impl(tag, 0, 1) }`
unfoldable pub set_bit_value : ℕ → Tag → Option (Tag × ℤ)
set_bit_value val t = set_bit_impl t (pos 0) (if pos val ==ℤ pos 0 then pos 0 else pos 1)

unfoldable pub set_number : (Tag → Option (List ℕ)) → ℕ → ℤ → ℕ → Tag → Option (Tag × ℤ)
set_number bytes width offset val t = elim t.buffer [
  | none ↦ some (with_status t err_no_data, err_no_data)
  | some bs ↦ if t.is_bit then set_bit_value val t else set_value bytes width offset val bs t
]

-- `plc_tag_set_int64` has no `break` in its test for data: it goes on, and reaches the bounds
-- check, or the bit, with the null pointer. A write through that pointer is undefined.
unfoldable pub set_int64_body : ℤ → ℕ → Tag → Option (Tag × ℤ)
set_int64_body offset val t = elim t.buffer [
  | none ↦
      if t.is_bit
      then set_bit_value val t
      else if check_bounds offset 8 t.size
      then none
      else some (with_status t err_out_of_bounds, err_out_of_bounds)
  | some bs ↦ if t.is_bit then set_bit_value val t else set_value int64_bytes 8 offset val bs t
]

-- A bit tag holds no floating point number.
unfoldable pub get_float : (Tag → Option (List ℕ)) → ℕ → ℤ → ℤ → Tag → Option (Tag × ℤ)
get_float bytes width default offset t = elim t.buffer [
  | none ↦ some (with_status t err_no_data, default)
  | some bs ↦
      if t.is_bit
      then some (with_status t err_unsupported, default)
      else get_value bytes width default pos offset bs t
]

unfoldable pub set_float : (Tag → Option (List ℕ)) → ℕ → ℤ → ℕ → Tag → Option (Tag × ℤ)
set_float bytes width offset val t = elim t.buffer [
  | none ↦ some (with_status t err_no_data, err_no_data)
  | some bs ↦
      if t.is_bit
      then some (with_status t err_unsupported, err_unsupported)
      else set_value bytes width offset val bs t
]

unfoldable pub plc_tag_get_uint64 : Tags → ℤ → ℤ → Option (Tags × ℤ)
plc_tag_get_uint64 tags id offset =
    on_tag tags id (pos (2 ^ 64 - 1))
      (get_number int64_bytes 8 (pos (2 ^ 64 - 1)) (pos (2 ^ 64 - 1)) pos offset)

unfoldable pub plc_tag_set_uint64 : Tags → ℤ → ℤ → ℕ → Option (Tags × ℤ)
plc_tag_set_uint64 tags id offset val =
    on_tag tags id err_not_found (set_number int64_bytes 8 offset val)

unfoldable pub plc_tag_get_int64 : Tags → ℤ → ℤ → Option (Tags × ℤ)
plc_tag_get_int64 tags id offset =
    on_tag tags id (negsuc (2 ^ 63 - 1))
      (get_number int64_bytes 8 (err_no_data) (negsuc (2 ^ 63 - 1)) (to_signed (2 ^ 64)) offset)

unfoldable pub plc_tag_set_int64 : Tags → ℤ → ℤ → ℤ → Option (Tags × ℤ)
plc_tag_set_int64 tags id offset ival =
    on_tag tags id err_not_found (set_int64_body offset (to_unsigned (2 ^ 64) ival))

unfoldable pub plc_tag_get_uint32 : Tags → ℤ → ℤ → Option (Tags × ℤ)
plc_tag_get_uint32 tags id offset =
    on_tag tags id (pos (2 ^ 32 - 1))
      (get_number int32_bytes 4 (pos (2 ^ 32 - 1)) (pos (2 ^ 32 - 1)) pos offset)

unfoldable pub plc_tag_set_uint32 : Tags → ℤ → ℤ → ℕ → Option (Tags × ℤ)
plc_tag_set_uint32 tags id offset val =
    on_tag tags id err_not_found (set_number int32_bytes 4 offset val)

unfoldable pub plc_tag_get_int32 : Tags → ℤ → ℤ → Option (Tags × ℤ)
plc_tag_get_int32 tags id offset =
    on_tag tags id (negsuc (2 ^ 31 - 1))
      (get_number int32_bytes 4 (err_no_data) (negsuc (2 ^ 31 - 1)) (to_signed (2 ^ 32)) offset)

unfoldable pub plc_tag_set_int32 : Tags → ℤ → ℤ → ℤ → Option (Tags × ℤ)
plc_tag_set_int32 tags id offset ival =
    on_tag tags id err_not_found (set_number int32_bytes 4 offset (to_unsigned (2 ^ 32) ival))

unfoldable pub plc_tag_get_uint16 : Tags → ℤ → ℤ → Option (Tags × ℤ)
plc_tag_get_uint16 tags id offset =
    on_tag tags id (pos (2 ^ 16 - 1))
      (get_number int16_bytes 2 (pos (2 ^ 16 - 1)) (pos (2 ^ 16 - 1)) pos offset)

unfoldable pub plc_tag_set_uint16 : Tags → ℤ → ℤ → ℕ → Option (Tags × ℤ)
plc_tag_set_uint16 tags id offset val =
    on_tag tags id err_not_found (set_number int16_bytes 2 offset val)

unfoldable pub plc_tag_get_int16 : Tags → ℤ → ℤ → Option (Tags × ℤ)
plc_tag_get_int16 tags id offset =
    on_tag tags id (negsuc (2 ^ 15 - 1))
      (get_number int16_bytes 2 (err_no_data) (negsuc (2 ^ 15 - 1)) (to_signed (2 ^ 16)) offset)

unfoldable pub plc_tag_set_int16 : Tags → ℤ → ℤ → ℤ → Option (Tags × ℤ)
plc_tag_set_int16 tags id offset ival =
    on_tag tags id err_not_found (set_number int16_bytes 2 offset (to_unsigned (2 ^ 16) ival))

unfoldable pub plc_tag_get_uint8 : Tags → ℤ → ℤ → Option (Tags × ℤ)
plc_tag_get_uint8 tags id offset =
    on_tag tags id (pos (2 ^ 8 - 1))
      (get_number one_byte 1 (pos (2 ^ 8 - 1)) (pos (2 ^ 8 - 1)) pos offset)

unfoldable pub plc_tag_set_uint8 : Tags → ℤ → ℤ → ℕ → Option (Tags × ℤ)
plc_tag_set_uint8 tags id offset val =
    on_tag tags id err_not_found (set_number one_byte 1 offset val)

unfoldable pub plc_tag_get_int8 : Tags → ℤ → ℤ → Option (Tags × ℤ)
plc_tag_get_int8 tags id offset =
    on_tag tags id (negsuc (2 ^ 7 - 1))
      (get_number one_byte 1 (err_no_data) (negsuc (2 ^ 7 - 1)) (to_signed (2 ^ 8)) offset)

unfoldable pub plc_tag_set_int8 : Tags → ℤ → ℤ → ℤ → Option (Tags × ℤ)
plc_tag_set_int8 tags id offset ival =
    on_tag tags id err_not_found (set_number one_byte 1 offset (to_unsigned (2 ^ 8) ival))

-- The bit patterns of `DBL_MIN` and `FLT_MIN`, which the getters return where there is no value.
abbrev pub dbl_min : ℕ
dbl_min = 2 ^ 52

abbrev pub flt_min : ℕ
flt_min = 2 ^ 23

unfoldable pub plc_tag_get_float64 : Tags → ℤ → ℤ → Option (Tags × ℤ)
plc_tag_get_float64 tags id offset =
    on_tag tags id (pos dbl_min) (get_float float64_bytes 8 (pos dbl_min) offset)

unfoldable pub plc_tag_set_float64 : Tags → ℤ → ℤ → ℕ → Option (Tags × ℤ)
plc_tag_set_float64 tags id offset val =
    on_tag tags id err_not_found (set_float float64_bytes 8 offset val)

unfoldable pub plc_tag_get_float32 : Tags → ℤ → ℤ → Option (Tags × ℤ)
plc_tag_get_float32 tags id offset =
    on_tag tags id (pos flt_min) (get_float float32_bytes 4 (pos flt_min) offset)

unfoldable pub plc_tag_set_float32 : Tags → ℤ → ℤ → ℕ → Option (Tags × ℤ)
plc_tag_set_float32 tags id offset val =
    on_tag tags id err_not_found (set_float float32_bytes 4 offset val)
