-- ===== src/Tag/Tests.antt =====
-- A small table of tags: runs of the accessors, and the theorems at it.
use mathlib.Core.Option.{some-injective}
use mathlib.Core.Path.{subst}
use junk.Memory.{Bytes, IsByte, IsOrder, read_word}
use junk.Prelude.{
  ◌^◌, ◌-◌, ℕ, ◌≡◌, refl, inr, ◌↔◌, true, false, [], ◌∷◌, Option, none, some, arith, length,
  replicate, All, if◌then◌else◌, ℤ, pos, negsuc, ◌==ℤ◌, test_mask, length-replicate, All-replicate,
}
use junk.Status.{status_ok, err_bad_data, err_no_data, err_out_of_bounds, err_too_small}
use junk.Tag.Bit.RoundTrip.{BitReadsBack, get_bit-set_bit}
use junk.Tag.Bit.Safety.{plc_tag_bit-Safe}
use junk.Tag.Bit.{plc_tag_get_bit, plc_tag_set_bit, get_bit_impl, get_bit_at, trace_read}
use junk.Tag.Number.Errors.{number-outside, number-no_data}
use junk.Tag.Number.Kinds.{Kind, int32, int64, uint8, float32, getter, setter, width, Holds}
use junk.Tag.Number.RoundTrip.{ReadsBack, getter-setter, KeepsOther, getter-setter_apart}
use junk.Tag.Number.Safety.{number-Safe}
use junk.Tag.Number.{flt_min, plc_tag_get_int32, get_number, get_value, get_bit_value}
use junk.Tag.Order.{check_byte_order_str, check_digits, check_byte_order_str_iff, IsDigits}
use junk.Tag.Raw.Copying.{RawReadsBack, raw_bytes-round_trip}
use junk.Tag.Size.Resizing.{size-Safe, SizeReadsBack, get_size-set_size}
use junk.Tag.Size.Splitting.{Split, resize_at_offset-Split}
use junk.Tag.Size.{
  Allocator, plc_tag_get_size, plc_tag_set_size, resize_tag_buffer_at_offset_unsafe,
}
use junk.Tag.{
  ByteOrder, Tag, Tags, with_status, lookup_tag, on_tag, update, in_bounds, IsOrdered, IsValid,
  TagsValid, Untraced, Untraced-update, no_tags-Untraced, Safe, TagsValid-update, no_tags-TagsValid,
}

-- Big-endian whole numbers, as a PLC/5 has them; strings as counted text.
abbrev big_endian : ByteOrder
big_endian = record {
  str_is_defined = true;
  str_is_counted = true;
  str_is_fixed_length = false;
  str_is_zero_terminated = false;
  str_is_byte_swapped = false;
  str_count_word_bytes = 2;
  str_max_capacity = 0;
  str_total_length = 0;
  str_pad_bytes = 0;
  str_pad_to_multiple_bytes = 1;
  int16_order = 1 ∷ 0 ∷ [];
  int32_order = 3 ∷ 2 ∷ 1 ∷ 0 ∷ [];
  int64_order = 7 ∷ 6 ∷ 5 ∷ 4 ∷ 3 ∷ 2 ∷ 1 ∷ 0 ∷ [];
  float32_order = 2 ∷ 3 ∷ 0 ∷ 1 ∷ [];
  float64_order = 0 ∷ 1 ∷ 2 ∷ 3 ∷ 4 ∷ 5 ∷ 6 ∷ 7 ∷ [];
}

big_endian-IsOrdered : IsOrdered big_endian
big_endian-IsOrdered = omega arith

abbrev bytes : Bytes
bytes = 1 ∷ 2 ∷ 3 ∷ 4 ∷ 5 ∷ 6 ∷ 7 ∷ 8 ∷ 0xff ∷ []

abbrev sample : Tag
sample = record {
  tag_id = pos 7;
  buffer = some bytes;
  size = 9;
  byte_order = some big_endian;
  bit = pos 0;
  is_bit = false;
  status = status_ok;
  auto_sync_write_ms = pos 100;
  tag_is_dirty = false;
  allow_field_resize = false;
  spew = false;
}

abbrev empty : Tag
empty = record sample { tag_id = pos 8; buffer = none; size = 0 }

abbrev table : Tags
table id = if id ==ℤ pos 7 then some sample else if id ==ℤ pos 8 then some empty else none

sample-IsValid : IsValid sample
sample-IsValid = record {
  sized = omega arith;
  order = big_endian;
  has_order = refl;
  ordered = big_endian-IsOrdered;
}

empty-IsValid : IsValid empty
empty-IsValid = record {
  sized = refl;
  order = big_endian;
  has_order = refl;
  ordered = big_endian-IsOrdered;
}

found : lookup_tag table (pos 7) ≡ some sample
unfolding lookup_tag
found = refl

abbrev one_tag : Tags
one_tag = update (λ _. none) (pos 7) sample

one_tag-TagsValid : TagsValid one_tag
one_tag-TagsValid = TagsValid-update (λ _. none) (pos 7) sample no_tags-TagsValid sample-IsValid

one_tag-Untraced : Untraced one_tag
one_tag-Untraced = Untraced-update (λ _. none) (pos 7) sample no_tags-Untraced refl

holds : (k : Kind) (offset : ℤ) → in_bounds offset (width k) 9 ≡ true → Holds k offset sample bytes
holds k offset inside = record {
  valid = sample-IsValid;
  has_buffer = refl;
  plain = refl;
  inside = inside;
}

getter-setter_example : ReadsBack int32 table (pos 7) (pos 2) (negsuc 4) sample bytes
getter-setter_example =
    getter-setter int32 table (pos 7) (pos 2) (negsuc 4) sample bytes found
      (holds int32 (pos 2) refl) (omega arith)

getter-setter_apart_example : KeepsOther int64 uint8 table (pos 7) (pos 0) (pos 8) (negsuc 4)
getter-setter_apart_example =
    getter-setter_apart int64 uint8 table (pos 7) (pos 0) (pos 8) (negsuc 4) sample bytes found
      (holds int64 (pos 0) refl) (holds uint8 (pos 8) refl) (inr (omega arith))

number-Safe_example :
    Safe (getter int64 one_tag (pos 7) (pos 3))
    × Safe (setter int64 one_tag (pos 7) (pos 3) (pos 9))
number-Safe_example =
    number-Safe int64 one_tag (pos 7) (pos 3) (pos 9) (omega arith) one_tag-TagsValid
      one_tag-Untraced

plc_tag_bit-Safe_example :
    Safe (plc_tag_get_bit one_tag (pos 7) (pos 71))
    × Safe (plc_tag_set_bit one_tag (pos 7) (pos 71) (pos 1))
plc_tag_bit-Safe_example =
    plc_tag_bit-Safe one_tag (pos 7) (pos 71) (pos 1) one_tag-TagsValid one_tag-Untraced

get_bit-set_bit_example : BitReadsBack table (pos 7) (pos 70) (pos 0) sample bytes 70
get_bit-set_bit_example =
    get_bit-set_bit table (pos 7) (pos 70) (pos 0) sample bytes 70 found sample-IsValid refl refl
      (omega arith)

missing : lookup_tag table (pos 3) ≡ none
unfolding lookup_tag
missing = refl

number-outside_example :
    (getter float32 table (pos 7) (pos 6)
      ≡ some (update table (pos 7) (with_status sample err_out_of_bounds), pos flt_min))
    × (setter float32 table (pos 7) (pos 6) (pos 1)
        ≡ some (update table (pos 7) (with_status sample err_out_of_bounds), err_out_of_bounds))
number-outside_example =
    number-outside float32 table (pos 7) (pos 6) (pos 1) sample bytes found refl refl refl
      (omega arith)

found_empty : lookup_tag table (pos 8) ≡ some empty
unfolding lookup_tag
found_empty = refl

number-no_data_example :
    (getter int64 table (pos 8) (pos 0)
      ≡ some (update table (pos 8) (with_status empty err_no_data), err_no_data))
    × (setter int64 table (pos 8) (pos 0) (pos 1)
        ≡ some (update table (pos 8) (with_status empty err_out_of_bounds), err_out_of_bounds))
number-no_data_example =
    number-no_data int64 table (pos 8) (pos 0) (pos 1) empty found_empty empty-IsValid refl refl
      (omega arith)

abbrev source : Bytes
source = 0x41 ∷ 0x42 ∷ 0x43 ∷ []

raw_bytes-round_trip_example :
    RawReadsBack table (pos 7) (pos 5) 2 source (replicate 4 0) bytes sample
raw_bytes-round_trip_example =
    raw_bytes-round_trip table (pos 7) (pos 5) 2 source (replicate 4 0) bytes sample found
      sample-IsValid refl refl refl (omega arith) (omega arith)

replicate-length : (n : ℕ) (bs : Bytes) → some (replicate n 0) ≡ some bs → length bs ≡ n
replicate-length n bs e = subst (λ xs. length xs ≡ n) (some-injective _ _ e) (length-replicate n 0)

replicate-bytes : (n : ℕ) (bs : Bytes) → some (replicate n 0) ≡ some bs → All IsByte bs
replicate-bytes n bs e =
    subst (All IsByte) (some-injective _ _ e) (All-replicate IsByte n 0 (omega arith))

-- A `realloc` that always has memory, and clears it.
abbrev zeroed : Allocator
zeroed = record {
  block = λ n. some (replicate n 0);
  block_length = replicate-length;
  block_bytes = replicate-bytes;
}

size-Safe_example :
    Safe (plc_tag_set_size zeroed one_tag (pos 7) (pos 20))
    × Safe (plc_tag_get_size one_tag (pos 7))
size-Safe_example = size-Safe zeroed one_tag (pos 7) (pos 20) one_tag-TagsValid

get_size-set_size_example : SizeReadsBack zeroed table (pos 7) 11 sample
get_size-set_size_example =
    get_size-set_size zeroed table (pos 7) 11 sample (replicate 12 0) found sample-IsValid refl

resize_at_offset-Split_example :
    (bs' : Bytes) × (resize_tag_buffer_at_offset_unsafe zeroed sample (pos 4) (pos 6)
      ≡ some (record sample { buffer = some bs'; size = 11 }, status_ok))
    × Split sample bytes 4 6 10 bs'
resize_at_offset-Split_example =
    resize_at_offset-Split zeroed sample bytes 4 6 10 (replicate 11 0) sample-IsValid refl
      (omega arith) refl refl

check_byte_order_str_iff_example :
    (check_byte_order_str (b'2' ∷ b'3' ∷ b'0' ∷ b'1' ∷ []) 4 ≡ status_ok)
    ↔ (IsDigits (b'2' ∷ b'3' ∷ b'0' ∷ b'1' ∷ []) × IsOrder 4 (2 ∷ 3 ∷ 0 ∷ 1 ∷ []))
check_byte_order_str_iff_example =
    check_byte_order_str_iff (b'2' ∷ b'3' ∷ b'0' ∷ b'1' ∷ []) 4 (omega arith)

program : Unit {0}
unfolding lookup_tag on_tag plc_tag_get_int32 get_number get_value get_bit_value read_word
    plc_tag_get_bit get_bit_impl get_bit_at trace_read test_mask check_byte_order_str check_digits
program = tt

value_of : Option (Tags × ℤ) → Option ℤ
value_of none = none
value_of (some (tags, r)) = some r

-- 0x02030405, in the order of the table.
get_int32_run : value_of (getter int32 table (pos 7) (pos 1)) ≡ some (pos 0x02030405)
unfolding program value_of
get_int32_run = refl

-- The fifth bit of the byte 0xff, and a bit behind the end.
get_bit_run :
    (value_of (plc_tag_get_bit table (pos 7) (pos 69)) ≡ some (pos 1))
    × (value_of (plc_tag_get_bit table (pos 7) (pos 72)) ≡ some err_out_of_bounds)
unfolding program value_of
get_bit_run = (refl, refl)

order_runs :
    (check_byte_order_str (b'1' ∷ b'1' ∷ []) 2 ≡ err_bad_data)
    × (check_byte_order_str (b'1' ∷ []) 2 ≡ err_too_small)
unfolding program
order_runs = (refl, refl)

-- An offset near INT_MAX passes the bounds check, and the read behind the buffer is undefined.
overflow_run : getter int32 table (pos 7) (pos (2 ^ 31 - 2)) ≡ none
unfolding program
overflow_run = refl

-- The trace of a bit behind the end is undefined at the finest debug level.
trace_run :
    plc_tag_get_bit (update table (pos 7) (record sample { spew = true })) (pos 7) (pos 72) ≡ none
unfolding program trace_read
trace_run = refl
