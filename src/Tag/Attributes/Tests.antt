-- ===== src/Tag/Attributes/Tests.antt =====
-- Byte orders that attributes ask for.
use junk.Prelude.{
  ◌<◌, ◌^◌, ◌≡◌, refl, ap, true, false, [], ◌∷◌, List, ℕ, Option, none, some, arith, inl, ℤ, pos,
}
use junk.Status.{status_ok}
use junk.Tag.{ByteOrder, IsOrdered}
use junk.Tag.Order.{check_byte_order_str, check_digits}
use junk.Tag.Attributes.{
  Attribute, int32_byte_order, is_counted, count_word_bytes, Attribs, overrides, set_order,
  set_flag, set_count, set_size, set_pad_multiple, check_strings, run_blocks, set_tag_byte_order,
}
use junk.Tag.Attributes.Consistency.{set_tag_byte_order-IsOrdered}
use junk.Tag.Attributes.Strings.{IsConsistent, sum_of_parts, set_tag_byte_order-IsConsistent}

-- The byte order of a tag without strings.
abbrev default_order : ByteOrder
default_order = record {
  str_is_defined = false;
  str_is_counted = false;
  str_is_fixed_length = false;
  str_is_zero_terminated = false;
  str_is_byte_swapped = false;
  str_pad_to_multiple_bytes = 1;
  str_count_word_bytes = 0;
  str_max_capacity = 0;
  str_total_length = 0;
  str_pad_bytes = 0;
  int16_order = 0 ∷ 1 ∷ [];
  int32_order = 0 ∷ 1 ∷ 2 ∷ 3 ∷ [];
  int64_order = 0 ∷ 1 ∷ 2 ∷ 3 ∷ 4 ∷ 5 ∷ 6 ∷ 7 ∷ [];
  float32_order = 0 ∷ 1 ∷ 2 ∷ 3 ∷ [];
  float64_order = 0 ∷ 1 ∷ 2 ∷ 3 ∷ 4 ∷ 5 ∷ 6 ∷ 7 ∷ [];
}

abbrev asked_str : Attribute → Option (List ℕ)
asked_str int32_byte_order = some (b'3' ∷ b'2' ∷ b'1' ∷ b'0' ∷ [])
asked_str is_counted = some (b'1' ∷ [])
asked_str count_word_bytes = some (b'2' ∷ [])
asked_str _ = none

abbrev asked_int : Attribute → ℤ
asked_int is_counted = pos 1
asked_int count_word_bytes = pos 2
asked_int _ = pos 0

-- `int32_byte_order=3210&str_is_counted=1&str_count_word_bytes=2`
abbrev asked : Attribs
asked = record { get_str = asked_str; get_int = asked_int }

asked_given : set_tag_byte_order true asked default_order ≡ (
  record default_order {
    str_is_defined = true;
    str_is_counted = true;
    str_count_word_bytes = 2;
    int32_order = 3 ∷ 2 ∷ 1 ∷ 0 ∷ [];
  },
  status_ok,
)
unfolding set_tag_byte_order overrides run_blocks set_order set_flag set_count set_size
    set_pad_multiple check_strings check_byte_order_str check_digits
asked_given = refl

default_order-IsOrdered : IsOrdered default_order
default_order-IsOrdered = omega arith

default_order-IsConsistent : IsConsistent default_order
default_order-IsConsistent = record {
  count_word = λ h. ground arith;
  size = λ h. ground arith;
  enough = inl refl;
  defined = λ h. h;
}

set_tag_byte_order-IsOrdered_example : IsOrdered (set_tag_byte_order true asked default_order).0
set_tag_byte_order-IsOrdered_example =
    set_tag_byte_order-IsOrdered true asked default_order default_order-IsOrdered

fine : (set_tag_byte_order true asked default_order).1 ≡ status_ok
fine = ap (λ r. r.1) asked_given

small : sum_of_parts (set_tag_byte_order true asked default_order).0 < 2 ^ 32
small = rw asked_given (omega arith)

set_tag_byte_order-IsConsistent_example :
    IsConsistent (set_tag_byte_order true asked default_order).0
set_tag_byte_order-IsConsistent_example =
    set_tag_byte_order-IsConsistent true asked default_order default_order-IsConsistent fine small
