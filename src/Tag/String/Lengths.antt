-- ===== src/Tag/String/Lengths.antt =====
-- How the length of a string in a buffer is noted and found.
use junk.Prelude.{
  ℕ, zero, suc, ◌+◌, ◌-◌, ◌^◌, ◌≤◌, ◌<◌, ◌≡◌, ◌≢◌, refl, ap, true, false, List, [], ◌∷◌, some,
  arith, length, get_or, All, ltb, pos,
}
use junk.Memory.{Bytes, IsOrder, read_word}
use junk.Memory.Words.{Wrote, write_word-Wrote}
use junk.Status.{status_ok}
use junk.Tag.{ByteOrder, IsOrdered}
use junk.Tag.String.{count_order, count_value, find_end, counted_length, get_string_length_unsafe}
use junk.Tag.String.Setting.{swapped_index, set_count_word}
use junk.Tag.String.Reading.{find_end_lem}

-- The count word that a layout has, if it has one.
pub record Counted (o : ByteOrder) (n : ℕ) : Type 0 where
  pub order : List ℕ
  pub has : count_order o ≡ some order
  pub is_order : IsOrder o.str_count_word_bytes order
  pub below : n < 256 ^ o.str_count_word_bytes
  pub value : count_value o.str_count_word_bytes n ≡ pos n

one_byte-IsOrder : IsOrder 1 (0 ∷ [])
one_byte-IsOrder = omega arith

pub one-Counted : (o : ByteOrder) (n : ℕ) → o.str_count_word_bytes ≡ 1 → n < 2 ^ 8 → Counted o n
one-Counted o n w lt = record {
  order = 0 ∷ [];
  has = rw w refl;
  is_order = rw w one_byte-IsOrder;
  below = rw w lt;
  value = rw w refl;
}

two_value : (n : ℕ) → n < 2 ^ 15 → count_value 2 n ≡ pos n
two_value n h = ground arith

four_value : (n : ℕ) → n < 2 ^ 31 → count_value 4 n ≡ pos n
four_value n h = ground arith

pub two-Counted :
    (o : ByteOrder) (n : ℕ) → IsOrdered o → o.str_count_word_bytes ≡ 2 → n < 2 ^ 15 → Counted o n
two-Counted o n v w lt = record {
  order = o.int16_order;
  has = rw w refl;
  is_order = rw w v.int16;
  below = rw w (omega arith);
  value = rw w (two_value n lt);
}

pub four-Counted :
    (o : ByteOrder) (n : ℕ) → IsOrdered o → o.str_count_word_bytes ≡ 4 → n < 2 ^ 31 → Counted o n
four-Counted o n v w lt = record {
  order = o.int32_order;
  has = rw w refl;
  is_order = rw w v.int32;
  below = rw w (omega arith);
  value = rw w (four_value n lt);
}

not_below : (a b : ℕ) → a ≤ b → ltb b a ≡ false
not_below a b h = ground arith

pub set_count_word_lem :
    (o : ByteOrder) (size offset n : ℕ) (bs : Bytes) (c : Counted o n)
    → length bs ≡ size
    → (fit : offset + o.str_count_word_bytes ≤ length bs)
    → (after : Bytes) × (set_count_word o size offset n bs ≡ some (after, status_ok))
      × Wrote bs offset o.str_count_word_bytes c.is_order fit n after
unfolding set_count_word
set_count_word_lem o size offset n bs c same fit =
    let (after, w) = write_word-Wrote bs offset o.str_count_word_bytes c.is_order fit n in
    (
      after,
      rw
          (
            not_below (offset + o.str_count_word_bytes) size (omega arith),
            c.has,
            not_below n (256 ^ o.str_count_word_bytes - 1) (omega (arith, c.below)),
            w.writes,
          )
          refl,
      w,
    )

pub counted_length_lem :
    (o : ByteOrder) (bs : Bytes) (offset n : ℕ) (c : Counted o n)
    → o.str_is_counted ≡ true
    → read_word bs offset c.order ≡ some n
    → get_string_length_unsafe o bs (length bs) offset ≡ some (pos n)
unfolding get_string_length_unsafe counted_length
counted_length_lem o bs offset n c is_counted reads =
    rw (counted_length, c.has, reads, c.value, is_counted) refl

pub zero_pad :
    (o : ByteOrder) (chars : Bytes)
    → o.str_is_byte_swapped ≡ false
    → (j : ℕ) → swapped_index o.str_is_byte_swapped j ≡ j
zero_pad o chars e j = rw e refl

All-get : (chars : Bytes) (j : ℕ) → All (λ c. c ≢ 0) chars → j < length chars → get_or chars j 0 ≢ 0
All-get [] j h lt = absurd (omega arith)
All-get (c ∷ cs) zero h lt = h.0
All-get (c ∷ cs) (suc j) h lt = All-get cs j h.1 (omega arith)

terminated_run :
    (o : ByteOrder) (bs : Bytes) (offset n : ℕ)
    → o.str_is_counted ≡ false
    → o.str_is_zero_terminated ≡ true
    → o.str_count_word_bytes ≡ 0
    → find_end (length bs - offset) o.str_is_byte_swapped bs offset 0 ≡ some n
    → get_string_length_unsafe o bs (length bs) offset ≡ some (pos n)
unfolding get_string_length_unsafe
terminated_run o bs offset n uncounted terminated none_bytes found =
    let same : offset + o.str_count_word_bytes ≡ offset = omega arith in
    rw (same, found, uncounted, terminated) refl

pub terminated_length_lem :
    (o : ByteOrder) (bs : Bytes) (offset : ℕ) (chars : Bytes)
    → o.str_is_counted ≡ false
    → o.str_is_zero_terminated ≡ true
    → o.str_count_word_bytes ≡ 0
    → o.str_is_byte_swapped ≡ false
    → All (λ c. c ≢ 0) chars
    → offset + length chars < length bs
    → ((j : ℕ) → j < length chars → get_or bs (offset + j) 0 ≡ get_or chars j 0)
    → get_or bs (offset + length chars) 0 ≡ 0
    → get_string_length_unsafe o bs (length bs) offset ≡ some (pos (length chars))
terminated_length_lem o bs offset chars uncounted terminated none_bytes plain chars_nonzero fit
      stands ended =
    let at : (j : ℕ) → offset + swapped_index o.str_is_byte_swapped j ≡ offset + j =
      λ j. ap (λ k. offset + k) (zero_pad o chars plain j) in
    let found =
      find_end_lem (length bs - offset) o.str_is_byte_swapped bs offset 0 (length chars)
        (omega arith) (omega arith) (λ j le. rw (at j) (omega arith))
        (λ j lt. rw (at j, stands j lt) (All-get chars j chars_nonzero lt))
        (rw (at (length chars)) ended) in
    terminated_run o bs offset (length chars) uncounted terminated none_bytes found
