-- ===== src/Tag/String/Tests.antt =====
-- Strings in a small tag.
use junk.Prelude.{
  ◌≡◌, refl, inl, inr, true, false, [], ◌∷◌, none, some, arith, length, replicate, pos,
  if◌then◌else◌, ◌==ℤ◌, length-replicate, All-replicate,
}
use mathlib.Core.Option.{some-injective}
use mathlib.Core.Path.{subst}
use junk.Memory.{Bytes, IsByte, read_word}
use junk.Prelude.{All}
use junk.Status.{status_ok}
use junk.Tag.{ByteOrder, Tag, Tags, lookup_tag, IsOrdered, IsValid}
use junk.Tag.Size.{Allocator}
use junk.Tag.String.{
  get_string_total_length_unsafe, get_string_length_unsafe, counted_length,
  get_new_string_total_length_unsafe, zero_bytes,
}
use junk.Tag.String.Setting.{write_string, write_chars, copy_in, end_string, finished}
use junk.Tag.String.Writing.{count_of_two, Fits}
use junk.Prelude.{ℕ, ◌<◌, ◌+◌, zero, suc, get_or}
use junk.Tag.String.Setting.{swapped_index}
use junk.Tag.String.Reading.{Holds}
use junk.Tag.String.Sizes.{get_string_total_length_unsafe_lem}
use junk.Tag.String.RoundTrip.{StringReadsBack, get_string-set_string}

-- Strings with a count word, swapped in pairs.
abbrev swapped_order : ByteOrder
swapped_order = record {
  str_is_defined = true;
  str_is_counted = true;
  str_is_fixed_length = false;
  str_is_zero_terminated = false;
  str_is_byte_swapped = true;
  str_count_word_bytes = 2;
  str_max_capacity = 82;
  str_total_length = 0;
  str_pad_bytes = 0;
  str_pad_to_multiple_bytes = 1;
  int16_order = 1 ∷ 0 ∷ [];
  int32_order = 3 ∷ 2 ∷ 1 ∷ 0 ∷ [];
  int64_order = 7 ∷ 6 ∷ 5 ∷ 4 ∷ 3 ∷ 2 ∷ 1 ∷ 0 ∷ [];
  float32_order = 2 ∷ 3 ∷ 0 ∷ 1 ∷ [];
  float64_order = 0 ∷ 1 ∷ 2 ∷ 3 ∷ 4 ∷ 5 ∷ 6 ∷ 7 ∷ [];
}

-- The string ab at 1, in front of another field.
abbrev bytes : Bytes
bytes = 9 ∷ 0 ∷ 2 ∷ b'b' ∷ b'a' ∷ 7 ∷ []

abbrev text : Tag
text = record {
  tag_id = pos 5;
  buffer = some bytes;
  size = 6;
  byte_order = some swapped_order;
  bit = pos 0;
  is_bit = false;
  status = status_ok;
  auto_sync_write_ms = pos 100;
  tag_is_dirty = false;
  allow_field_resize = true;
  spew = false;
}

abbrev chars : Bytes
chars = b'h' ∷ b'i' ∷ b'!' ∷ []

old_size : get_string_total_length_unsafe swapped_order bytes 6 1 ≡ some (pos 4)
unfolding get_string_total_length_unsafe get_string_length_unsafe counted_length read_word
old_size = refl

new_size : get_new_string_total_length_unsafe swapped_order chars ≡ pos 6
unfolding get_new_string_total_length_unsafe
new_size = refl

-- Strings swapped in pairs and ended by a zero byte.
abbrev ended_order : ByteOrder
ended_order = record swapped_order {
  str_is_counted = false;
  str_is_zero_terminated = true;
  str_count_word_bytes = 0;
}

abbrev blank : Tag
blank = record text { buffer = some (1 ∷ 1 ∷ 1 ∷ []); size = 3; byte_order = some ended_order }

-- The zero byte overwrites the last character of a string of odd length.
last_char_lost :
    write_string ended_order 0 3 (b'A' ∷ []) blank ≡ some (finished blank (0 ∷ 0 ∷ 0 ∷ []))
unfolding write_string zero_bytes write_chars copy_in end_string
last_char_lost = refl

text_tags : Tags
text_tags id = if id ==ℤ pos 5 then some text else none

text_found : lookup_tag text_tags (pos 5) ≡ some text
unfolding lookup_tag text_tags
text_found = refl

swapped_order-IsOrdered : IsOrdered swapped_order
swapped_order-IsOrdered = omega arith

text-IsValid : IsValid text
text-IsValid = record {
  sized = omega arith;
  order = swapped_order;
  has_order = refl;
  ordered = swapped_order-IsOrdered;
}

chars-Fits : Fits swapped_order chars 6
chars-Fits = record {
  layout = count_of_two refl refl (omega arith);
  straight = inr refl;
  chars_bytes = omega arith;
  enough = omega arith;
}

abbrev zeroed : Allocator
zeroed = record {
  block = λ n. some (replicate n 0);
  block_length =
      λ n bs e. subst (λ ys. length ys ≡ n) (some-injective _ _ e) (length-replicate n 0);
  block_bytes = λ n bs e.
      subst (λ ys. All IsByte ys) (some-injective _ _ e) (All-replicate IsByte n 0 (omega arith));
}

get_string-set_string_example :
    StringReadsBack zeroed text_tags (pos 5) 1 chars (replicate 10 1) 10 bytes 4 6
get_string-set_string_example =
    get_string-set_string zeroed text_tags (pos 5) 1 chars (replicate 10 1) 10 text swapped_order
      bytes (replicate 8 0) 4 6 7 text_found text-IsValid refl refl refl refl chars-Fits
      (inr (omega arith)) old_size new_size (inl refl) (omega arith) refl refl (omega arith)
      (omega arith)

abbrev plain_order : ByteOrder
plain_order = record swapped_order { str_is_byte_swapped = false }

abbrev plain_bytes : Bytes
plain_bytes = 9 ∷ 0 ∷ 3 ∷ b'h' ∷ b'i' ∷ b'!' ∷ []

by_three : (j : ℕ) → j < 3 → get_or plain_bytes (1 + 2 + swapped_index false j) 0 ≡ get_or chars j 0
by_three zero lt = refl
by_three (suc zero) lt = refl
by_three (suc (suc zero)) lt = refl
by_three (suc (suc (suc j))) lt = absurd (omega arith)

plain-Holds : Holds plain_order plain_bytes 1 chars
unfolding get_string_length_unsafe counted_length read_word
plain-Holds = record { measured = refl; stands = λ j lt. by_three j lt; room = omega arith }

get_string_total_length_unsafe_lem_example :
    get_string_total_length_unsafe plain_order plain_bytes 6 1
    ≡ some (get_new_string_total_length_unsafe plain_order chars)
get_string_total_length_unsafe_lem_example =
    get_string_total_length_unsafe_lem plain_order plain_bytes 1 chars plain-Holds refl refl
