-- ===== src/Tag/String/Writing.antt =====
-- A string that is written into a buffer with room for it stands there afterwards.
use native.Mathlib.Nat.{zero-add}
use junk.Prelude.{
  ℕ, ◌+◌, ◌^◌, ◌≤◌, ◌<◌, ◌≡◌, ◌≢◌, ◌⊎◌, refl, ◌∙◌, Bool, true, false, some, arith, Bool-cases, inl,
  inr, length, get_or, set, All, lt→ltb, length-set, get_or-set_self, get_or-set_ne, All-set,
}
use junk.Memory.{Bytes, IsByte}
use junk.Tag.{ByteOrder, Tag}
use junk.Tag.String.{terminator, swap_pad}
use junk.Tag.String.Setting.{swapped_index, finished, end_string, write_chars}
use junk.Tag.String.Index.{swapped_index-lt}
use junk.Tag.String.Loops.{copy_in-CopiedIn}

-- The ways to note the length of a string that a reader understands. A count word of two or four
-- bytes is signed, and a string that ends at a zero byte has none in it.
pub data Layout (o : ByteOrder) (chars : Bytes) : Type 0 where
  count_of_one :
      o.str_is_counted ≡ true → o.str_count_word_bytes ≡ 1 → length chars < 2 ^ 8 → Layout o chars
  count_of_two :
      o.str_is_counted ≡ true → o.str_count_word_bytes ≡ 2 → length chars < 2 ^ 15 → Layout o chars
  count_of_four :
      o.str_is_counted ≡ true → o.str_count_word_bytes ≡ 4 → length chars < 2 ^ 31 → Layout o chars
  ended_by_zero :
      o.str_is_counted ≡ false
      → o.str_is_zero_terminated ≡ true
      → o.str_count_word_bytes ≡ 0
      → All (λ c. c ≢ 0) chars
      → Layout o chars

-- A string fits `size` bytes; none is both swapped in pairs and ended by a zero byte.
pub record Fits (o : ByteOrder) (chars : Bytes) (size : ℕ) : Type 0 where
  pub layout : Layout o chars
  pub straight : (o.str_is_byte_swapped ≡ false) ⊎ (o.str_is_zero_terminated ≡ false)
  pub chars_bytes : All IsByte chars
  pub enough :
      o.str_count_word_bytes + length chars + terminator o + swap_pad o (length chars) ≤ size

-- The buffer after the characters, from `start` on, and the zero byte.
pub record Written (o : ByteOrder) (start : ℕ) (chars : Bytes) (t : Tag) (bs after : Bytes)
    : Type 0 where
  pub runs : write_chars o start chars t bs ≡ some (finished t after)
  pub same_length : length after ≡ length bs
  pub stands :
      (j : ℕ)
      → j < length chars
      → get_or after (start + swapped_index o.str_is_byte_swapped j) 0 ≡ get_or chars j 0
  pub ended : o.str_is_zero_terminated ≡ true → get_or after (start + length chars) 0 ≡ 0
  pub kept :
      (p : ℕ)
      → (p < start) ⊎ (start + length chars + terminator o + swap_pad o (length chars) ≤ p)
      → get_or after p 0 ≡ get_or bs p 0
  pub bytes : All IsByte chars → All IsByte bs → All IsByte after

end_string-plain :
    (o : ByteOrder) (start n : ℕ) (t : Tag) (bs : Bytes)
    → o.str_is_zero_terminated ≡ false
    → end_string o start n t bs ≡ some (finished t bs)
unfolding end_string
end_string-plain o start n t bs e = rw e refl

end_string-terminated :
    (o : ByteOrder) (start n : ℕ) (t : Tag) (bs : Bytes)
    → o.str_is_zero_terminated ≡ true
    → length bs ≡ t.size
    → start + n < t.size
    → end_string o start n t bs ≡ some (finished t (set bs (start + n) 0))
unfolding end_string
end_string-terminated o start n t bs e size lt =
    rw (e, lt→ltb (start + n) t.size lt, lt→ltb (start + n) (length bs) (omega arith)) refl

swapped_index-lt_pad :
    (o : ByteOrder) (n j : ℕ) → j < n → swapped_index o.str_is_byte_swapped j < n + swap_pad o n
swapped_index-lt_pad o n j h = swapped_index-lt o.str_is_byte_swapped n j h

unswapped : (b : Bool) (j : ℕ) → b ≡ false → swapped_index b j ≡ j
unswapped b j e = rw e refl

pub terminator-true : (o : ByteOrder) → o.str_is_zero_terminated ≡ true → terminator o ≡ 1
terminator-true o e = rw e refl

pub write_chars-Written :
    (o : ByteOrder) (start : ℕ) (chars : Bytes) (t : Tag) (bs : Bytes)
    → length bs ≡ t.size
    → start + length chars + terminator o + swap_pad o (length chars) ≤ t.size
    → (o.str_is_byte_swapped ≡ false) ⊎ (o.str_is_zero_terminated ≡ false)
    → (after : Bytes) × Written o start chars t bs after
unfolding write_chars
write_chars-Written o start chars t bs size room straight =
    let n = length chars in
    let swapped = o.str_is_byte_swapped in
    let below = swapped_index-lt_pad o n in
    let (copy, c) =
      copy_in-CopiedIn chars 0 swapped t.size start bs size
        (λ j lt. rw zero-add (omega (arith, below j lt))) in
    elim (Bool-cases o.str_is_zero_terminated) [
      | inl e ↦
          let one = terminator-true o e in
          let straight' : swapped ≡ false = ground arith in
          let ends =
            end_string-terminated o start n t copy e (c.same_length ∙ size) (omega arith) in
          (
            set copy (start + n) 0,
            record {
              runs = rw c.runs ends;
              same_length = length-set copy (start + n) 0 ∙ c.same_length;
              stands = λ j lt.
                  get_or-set_ne copy (start + n) (start + swapped_index swapped j) 0 0
                    (omega (arith, unswapped swapped j straight'))
                  ∙ rw zero-add at (c.copied j lt);
              ended = λ _. get_or-set_self copy (start + n) 0 0 (omega (arith, c.same_length));
              kept = λ p out.
                  get_or-set_ne copy (start + n) p 0 0 (omega arith)
                  ∙ c.kept p (λ j lt. rw zero-add (omega (arith, below j lt)));
              bytes = λ h b. All-set IsByte copy (start + n) 0 (c.bytes h b) (omega arith);
            },
          )
      | inr e ↦ (
        copy,
        record {
          runs = rw c.runs (end_string-plain o start n t copy e);
          same_length = c.same_length;
          stands = λ j lt. rw zero-add at (c.copied j lt);
          ended = λ h. ground arith;
          kept = λ p out. c.kept p (λ j lt. rw zero-add (omega (arith, below j lt)));
          bytes = c.bytes;
        },
      )
    ]
