-- ===== src/Tag/String/Sizes.antt =====
-- The size of the field that a string has, and of the one that it needs.
use junk.Prelude.{
  if_second, ℕ, ◌+◌, ◌≡◌, sym, ap, ◌∙◌, false, some, arith, length, pos, ◌+ℤ◌, ◌>>=◌,
}
use junk.Memory.{Bytes}
use junk.Tag.{ByteOrder}
use junk.Tag.String.{
  swap_pad, terminator, get_string_total_length_unsafe, get_new_string_total_length_unsafe,
}
use junk.Tag.String.Reading.{Holds}

total : (w t p n s : ℕ) → s ≡ 0 → pos (w + t + p) +ℤ pos n ≡ pos (n + w + t + p + s)
total w t p n s h = ground arith

-- Where a buffer holds a string of no fixed size, and swapping its bytes in pairs needs no byte
-- more, the field that is measured there has the size that setting the same string asks for.
pub get_string_total_length_unsafe_lem :
    (o : ByteOrder) (bs : Bytes) (offset : ℕ) (chars : Bytes)
    → Holds o bs offset chars
    → o.str_is_fixed_length ≡ false
    → swap_pad o (length chars) ≡ 0
    → get_string_total_length_unsafe o bs (length bs) offset
      ≡ some (get_new_string_total_length_unsafe o chars)
unfolding get_string_total_length_unsafe get_new_string_total_length_unsafe
get_string_total_length_unsafe_lem o bs offset chars h free even =
    ap (λ m. m >>= λ n. some (pos (o.str_count_word_bytes + terminator o + o.str_pad_bytes) +ℤ n))
      (if_second _ _ free ∙ h.measured)
    ∙ ap some (
        total o.str_count_word_bytes (terminator o) o.str_pad_bytes (length chars)
          (swap_pad o (length chars)) even
        ∙ sym (if_second _ _ free))
