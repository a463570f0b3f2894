-- ===== src/Tag/String/Storing.antt =====
-- After the buffer of a tag has its new size, the string that is set stands in it.
use junk.Prelude.{
  ℕ, ◌+◌, ◌-◌, ◌≤◌, ◌<◌, ◌≡◌, ◌≢◌, ◌⊎◌, refl, ap, ◌∙◌, true, false, Option, some, arith, inl,
  length, get_or, All, min, ℤ,
}
use junk.Memory.{Bytes, IsByte, read_word}
use junk.Memory.Words.{read_word-same}
use junk.Status.{status_ok}
use junk.Tag.{ByteOrder, Tag, IsOrdered}
use junk.Tag.Size.{old_bytes}
use junk.Tag.String.{zero_bytes}
use junk.Tag.String.Setting.{swapped_index, set_count_word, finished, write_chars, write_string}
use junk.Tag.String.Loops.{zero_bytes-Zeroed}
use junk.Tag.String.Reading.{Holds}
use junk.Tag.String.Writing.{
  Layout, count_of_one, count_of_two, count_of_four, ended_by_zero, Fits, write_chars-Written,
  terminator-true,
}
use junk.Tag.String.Lengths.{
  Counted, one-Counted, two-Counted, four-Counted, set_count_word_lem, counted_length_lem, zero_pad,
  terminated_length_lem,
}

-- What a tag's buffer is after a string has been written to it.
pub record Stored (o : ByteOrder) (offset new : ℕ) (chars : Bytes) (t : Tag) (bs after : Bytes)
    : Type 0 where
  pub runs : write_string o offset new chars t ≡ some (finished t after)
  pub same_length : length after ≡ length bs
  pub holds : Holds o after offset chars
  pub kept : (p : ℕ) → (p < offset) ⊎ (offset + new ≤ p) → get_or after p 0 ≡ get_or bs p 0
  pub bytes : All IsByte bs → All IsByte after

whole : (offset new size : ℕ) → offset + new ≤ size → min (offset + new) size - offset ≡ new
whole offset new size h = omega arith

pub old_bytes-some : (o : Option Bytes) (bs : Bytes) → o ≡ some bs → old_bytes o ≡ bs
old_bytes-some o bs e = ap old_bytes e

counted_run :
    (o : ByteOrder) (offset new : ℕ) (chars bs zeroed counted : Bytes) (t : Tag) (r : Tag × ℤ)
    → t.buffer ≡ some bs
    → zero_bytes (min (offset + new) t.size - offset) offset bs ≡ some zeroed
    → o.str_is_counted ≡ true
    → set_count_word o t.size offset (length chars) zeroed ≡ some (counted, status_ok)
    → write_chars o (offset + o.str_count_word_bytes) chars t counted ≡ some r
    → write_string o offset new chars t ≡ some r
unfolding write_string
counted_run o offset new chars bs zeroed counted t r has zeros is_counted count write =
    rw (old_bytes-some t.buffer bs has, zeros, count, write, is_counted) refl

uncounted_run :
    (o : ByteOrder) (offset new : ℕ) (chars bs zeroed : Bytes) (t : Tag) (r : Tag × ℤ)
    → t.buffer ≡ some bs
    → zero_bytes (min (offset + new) t.size - offset) offset bs ≡ some zeroed
    → o.str_is_counted ≡ false
    → write_chars o offset chars t zeroed ≡ some r
    → write_string o offset new chars t ≡ some r
unfolding write_string
uncounted_run o offset new chars bs zeroed t r has zeros uncounted write =
    rw (old_bytes-some t.buffer bs has, zeros, write, uncounted) refl

Counted-Stored :
    (o : ByteOrder) (offset new : ℕ) (chars bs : Bytes) (t : Tag)
    → t.buffer ≡ some bs
    → length bs ≡ t.size
    → Fits o chars new
    → offset + new ≤ t.size
    → o.str_is_counted ≡ true
    → Counted o (length chars)
    → (after : Bytes) × Stored o offset new chars t bs after
Counted-Stored o offset new chars bs t has size fits room is_counted c =
    let n = length chars in
    let width = o.str_count_word_bytes in
    let (zeroed, z) = zero_bytes-Zeroed new offset bs (omega arith) in
    let (counted, counts, w) =
      set_count_word_lem o t.size offset n zeroed c (z.same_length ∙ size)
        (omega (arith, fits.enough, z.same_length)) in
    let (after, x) =
      write_chars-Written o (offset + width) chars t counted
        (w.same_length ∙ (z.same_length ∙ size)) (omega (arith, fits.enough)) fits.straight in
    let same_length : length after ≡ length bs = x.same_length ∙ (w.same_length ∙ z.same_length) in
    let count : read_word after offset c.order ≡ some n =
      read_word-same counted after offset width c.is_order
        (omega (arith, fits.enough, w.same_length, z.same_length)) x.same_length
        (λ i lo hi. x.kept i (inl hi))
      ∙ w.reads c.below in
    (
      after,
      record {
        runs =
            counted_run o offset new chars bs zeroed counted t (finished t after) has
              (ap (λ k. zero_bytes k offset bs) (whole offset new t.size room) ∙ z.runs) is_counted
              counts x.runs;
        same_length = same_length;
        holds = record {
          measured = counted_length_lem o after offset n c is_counted count;
          stands = x.stands;
          room = omega (arith, fits.enough, same_length);
        };
        kept = λ p out.
            x.kept p (omega (arith, fits.enough))
            ∙ w.frame p (omega (arith, fits.enough))
            ∙ z.kept p out;
        bytes = λ h. x.bytes fits.chars_bytes (w.bytes (z.bytes h));
      },
    )

uncounted-Stored :
    (o : ByteOrder) (offset new : ℕ) (chars bs : Bytes) (t : Tag)
    → t.buffer ≡ some bs
    → length bs ≡ t.size
    → Fits o chars new
    → offset + new ≤ t.size
    → o.str_is_counted ≡ false
    → o.str_is_zero_terminated ≡ true
    → o.str_count_word_bytes ≡ 0
    → All (λ c. c ≢ 0) chars
    → (after : Bytes) × Stored o offset new chars t bs after
uncounted-Stored o offset new chars bs t has size fits room uncounted terminated none_bytes
      nonzero =
    let plain : o.str_is_byte_swapped ≡ false = ground (arith, fits.straight) in
    let one = terminator-true o terminated in
    let (zeroed, z) = zero_bytes-Zeroed new offset bs (omega arith) in
    let (after, x) =
      write_chars-Written o offset chars t zeroed (z.same_length ∙ size)
        (omega (arith, fits.enough)) fits.straight in
    let same_length = x.same_length ∙ z.same_length in
    let at : (j : ℕ) → offset + swapped_index o.str_is_byte_swapped j ≡ offset + j =
      λ j. ap (λ k. offset + k) (zero_pad o chars plain j) in
    let start : offset + o.str_count_word_bytes ≡ offset = omega arith in
    (
      after,
      record {
        runs =
            uncounted_run o offset new chars bs zeroed t (finished t after) has
              (ap (λ k. zero_bytes k offset bs) (whole offset new t.size room) ∙ z.runs) uncounted
              x.runs;
        same_length = same_length;
        holds = record {
          measured =
              terminated_length_lem o after offset chars uncounted terminated none_bytes plain
                nonzero (omega (arith, fits.enough, same_length))
                (λ j lt. rw (at j) at (x.stands j lt)) (x.ended terminated);
          stands = λ j lt. rw start (x.stands j lt);
          room = omega (arith, fits.enough, same_length);
        };
        kept = λ p out. x.kept p (omega (arith, fits.enough)) ∙ z.kept p out;
        bytes = λ h. x.bytes fits.chars_bytes (z.bytes h);
      },
    )

-- A string that fits is stored.
pub write_string-Stored :
    (o : ByteOrder) (offset new : ℕ) (chars bs : Bytes) (t : Tag)
    → IsOrdered o
    → t.buffer ≡ some bs
    → length bs ≡ t.size
    → offset + new ≤ t.size
    → (fits : Fits o chars new) → Layout o chars
    → (after : Bytes) × Stored o offset new chars t bs after
write_string-Stored o offset new chars bs t v has size room fits (count_of_one is_counted w lt) =
    Counted-Stored o offset new chars bs t has size fits room is_counted
      (one-Counted o (length chars) w lt)
write_string-Stored o offset new chars bs t v has size room fits (count_of_two is_counted w lt) =
    Counted-Stored o offset new chars bs t has size fits room is_counted
      (two-Counted o (length chars) v w lt)
write_string-Stored o offset new chars bs t v has size room fits (count_of_four is_counted w lt) =
    Counted-Stored o offset new chars bs t has size fits room is_counted
      (four-Counted o (length chars) v w lt)
write_string-Stored o offset new chars bs t v has size room fits
      (ended_by_zero uncounted terminated none_bytes nonzero) =
    uncounted-Stored o offset new chars bs t has size fits room uncounted terminated none_bytes
      nonzero
