-- ===== src/Tag/String.antt =====
-- The accessors of strings in libplctag/src/libplctag/lib/lib.c, and the functions that measure a
-- string in a tag's buffer. A C string is the list of its bytes without the zero at its end, or
-- no list for a null pointer. The offset of a string is a number: the functions do not reject a
-- negative one, with which they leave the buffer. A null buffer is one without bytes.
pub mod Setting
pub mod Index
pub mod Loops
pub mod Reading
pub mod Writing
pub mod Lengths
pub mod Storing
pub mod Sizes
pub mod RoundTrip
mod Tests
use junk.Prelude.{
  ℕ, zero, suc, ◌+◌, ◌-◌, ◌*◌, ◌%◌, ◌^◌, bit_xor, ◌≡◌, Bool, true, false, not, List, [], ◌∷◌, ◌++◌,
  Option, none, some, if◌then◌else◌, ◌>>=◌, ℤ, pos, negsuc, pos_part, ltb, leb_ℤ, ltb_ℤ, ◌==◌,
  ◌==ℤ◌, ◌+ℤ◌, ◌&&◌, ◌||◌, length, min, to_signed,
}
use junk.Memory.{Bytes, load, store, read_word}
use junk.Status.{
  status_ok, err_no_data, err_out_of_bounds, err_not_found, err_unsupported, err_bad_config,
}
use junk.Tag.{ByteOrder, Tag, Tags, with_status, on_tag}
use junk.Tag.Size.{old_bytes}

-- The positions of the count word's bytes, lowest first, for the sizes that there are.
abbrev pub count_order : ByteOrder → Option (List ℕ)
count_order o =
    if o.str_count_word_bytes == 1
    then some (0 ∷ [])
    else if o.str_count_word_bytes == 2
    then some o.int16_order
    else if o.str_count_word_bytes == 4
    then some o.int32_order
    else none

-- Two and four bytes are a signed number.
abbrev pub count_value : ℕ → ℕ → ℤ
count_value width v = if width == 1 then pos v else to_signed (256 ^ width) v

-- Where a reader finds byte `i` of a string: bytes may be swapped in pairs.
abbrev pub xor_index : Bool → ℕ → ℕ
xor_index swapped i = bit_xor i (if swapped then 1 else 0)

-- The loop that looks for the zero byte, with `n` rounds to go.
unfoldable pub find_end : ℕ → Bool → Bytes → ℕ → ℕ → Option ℕ
find_end zero swapped bs start string_length = some string_length
find_end (suc n) swapped bs start string_length =
    let rest = find_end n swapped bs start (suc string_length) in
    load bs (xor_index swapped string_length + start) >>= λ b.
    if b == 0 then some string_length else rest

unfoldable pub counted_length : ByteOrder → Bytes → ℕ → Option ℤ
counted_length o bs offset = elim (count_order o) [
  | none ↦ some (pos 0)
  | some order ↦ read_word bs offset order >>= λ v. some (count_value o.str_count_word_bytes v)
]

unfoldable pub get_string_length_unsafe : ByteOrder → Bytes → ℕ → ℕ → Option ℤ
get_string_length_unsafe o bs size offset =
    if o.str_is_counted
    then counted_length o bs offset
    else if o.str_is_zero_terminated
    then (find_end (size - (offset + o.str_count_word_bytes)) o.str_is_byte_swapped bs
          (offset + o.str_count_word_bytes) 0
        >>= λ n. some (pos n))
    else some (pos 0)

abbrev pub terminator : ByteOrder → ℕ
terminator o = if o.str_is_zero_terminated then 1 else 0

unfoldable pub get_string_total_length_unsafe : ByteOrder → Bytes → ℕ → ℕ → Option ℤ
get_string_total_length_unsafe o bs size offset =
    (if o.str_is_fixed_length
      then some (pos o.str_max_capacity)
      else get_string_length_unsafe o bs size offset)
    >>= λ n. some (pos (o.str_count_word_bytes + terminator o + o.str_pad_bytes) +ℤ n)

abbrev pub swap_pad : ByteOrder → ℕ → ℕ
swap_pad o n = if o.str_is_byte_swapped then n % 2 else 0

unfoldable pub get_new_string_total_length_unsafe : ByteOrder → Bytes → ℤ
get_new_string_total_length_unsafe o string_val =
    let n = length string_val in
    if o.str_is_fixed_length
    then (if not (o.str_total_length == 0) then pos o.str_total_length else err_bad_config)
    else pos (n + o.str_count_word_bytes + terminator o + o.str_pad_bytes + swap_pad o n)

-- The checks of the functions that measure a string, and their critical block.
unfoldable pub measure : (ByteOrder → Bytes → ℕ → Option ℤ) → Tag → Option (Tag × ℤ)
measure f t = elim t.byte_order [
  | none ↦ some (with_status t err_unsupported, err_unsupported)
  | some o ↦
      if not o.str_is_defined
      then some (with_status t err_unsupported, err_unsupported)
      else elim t.buffer [
        | none ↦ some (with_status t err_no_data, err_no_data)
        | some bs ↦
            if t.is_bit
            then some (with_status t err_unsupported, err_unsupported)
            else (f o bs t.size >>= λ n. some (t, n))
      ]
]

unfoldable pub plc_tag_get_string_length : Tags → ℤ → ℕ → Option (Tags × ℤ)
plc_tag_get_string_length tags id string_start_offset =
    on_tag tags id err_not_found
      (measure (λ o bs size. get_string_length_unsafe o bs size string_start_offset))

unfoldable pub plc_tag_get_string_total_length : Tags → ℤ → ℕ → Option (Tags × ℤ)
plc_tag_get_string_total_length tags id string_start_offset =
    on_tag tags id err_not_found
      (measure (λ o bs size. get_string_total_length_unsafe o bs size string_start_offset))

unfoldable pub plc_tag_get_string_capacity : Tags → ℤ → ℕ → Option (Tags × ℤ)
plc_tag_get_string_capacity tags id string_start_offset = on_tag tags id err_not_found (
    measure λ o bs size.
      if not (o.str_max_capacity == 0)
      then some (pos o.str_max_capacity)
      else get_string_length_unsafe o bs size string_start_offset)

-- The loop that copies a string out, with `n` rounds to go; the result is `rc`.
unfoldable pub copy_out : ℕ → ℕ → Bool → Bytes → ℕ → ℕ → Bytes → Option (Bytes × ℤ)
copy_out zero i swapped bs size start buffer = some (buffer, status_ok)
copy_out (suc n) i swapped bs size start buffer =
    let char_index = xor_index swapped i + start in
    let copied = load bs char_index >>= λ b.
    store buffer i b >>= λ buffer'. copy_out n (suc i) swapped bs size start buffer' in
    if ltb char_index size then copied else some (buffer, err_out_of_bounds)

-- `memset(buffer, 0, n)`, with `n` bytes to go.
unfoldable pub zero_bytes : ℕ → ℕ → Bytes → Option Bytes
zero_bytes zero i bs = some bs
zero_bytes (suc n) i bs = do bs' ← store bs i 0; zero_bytes n (suc i) bs'

-- The critical block of `plc_tag_get_string`, for a length of the string.
unfoldable pub get_string_at :
    ByteOrder → Bytes → ℕ → ℤ → ℤ → Bytes → Tag → Option (Tag × (ℤ × Bytes))
get_string_at o bs offset buffer_length string_length buffer t =
    let max_len = if ltb_ℤ buffer_length string_length then buffer_length else string_length in
    let start = offset + o.str_count_word_bytes in
    if leb_ℤ (pos start +ℤ max_len) (pos t.size)
    then (copy_out (min (pos_part max_len) t.size) 0 o.str_is_byte_swapped bs t.size start buffer
        >>= λ (buffer', rc).
            some (if rc ==ℤ status_ok then with_status t status_ok else t, (rc, buffer')))
    else some (with_status t err_out_of_bounds, (err_out_of_bounds, buffer))

unfoldable pub get_string_body : ℕ → Bytes → ℤ → Tag → Option (Tag × (ℤ × Bytes))
get_string_body offset buffer buffer_length t = elim t.byte_order [
  | none ↦ some (with_status t err_unsupported, (err_unsupported, buffer))
  | some o ↦
      if not o.str_is_defined
      then some (with_status t err_unsupported, (err_unsupported, buffer))
      else elim t.buffer [
        | none ↦ some (with_status t err_no_data, (err_no_data, buffer))
        | some bs ↦
            if t.is_bit
            then some (with_status t err_unsupported, (err_unsupported, buffer))
            else (zero_bytes (pos_part buffer_length) 0 buffer >>= λ zeroed.
                get_string_length_unsafe o bs t.size offset >>= λ string_length.
                get_string_at o bs offset buffer_length string_length zeroed t)
      ]
]

unfoldable pub plc_tag_get_string : Tags → ℤ → ℕ → Bytes → ℤ → Option (Tags × (ℤ × Bytes))
plc_tag_get_string tags id string_start_offset buffer buffer_length =
    on_tag tags id (err_not_found, buffer)
      (get_string_body string_start_offset buffer buffer_length)
