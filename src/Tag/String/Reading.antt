-- ===== src/Tag/String/Reading.antt =====
-- What the readers of a string find in a buffer that holds one.
use native.Mathlib.Nat.{zero-add}
use junk.Prelude.{
  ℕ, zero, suc, ◌+◌, ◌≤◌, ◌<◌, ◌≡◌, ◌≢◌, ◌⊎◌, refl, ◌∙◌, Bool, true, false, some, ◌==◌, ==_iff,
  arith, Bool-cases, inl, inr, length, get_or, set, lt→ltb, get_elem?-get_or, length-set,
  get_or-set_self, get_or-set_ne, min, pos, leb_ℤ, ltb_ℤ, ◌+ℤ◌,
}
use junk.Memory.{Bytes}
use junk.Status.{status_ok}
use junk.Tag.{ByteOrder, Tag, with_status}
use junk.Tag.String.{
  zero_bytes, copy_out, find_end, xor_index, get_string_at, get_string_length_unsafe, swap_pad,
}
use junk.Tag.String.Setting.{swapped_index}
use junk.Tag.String.Index.{xor_index-swapped_index, swapped_index-lt}
use junk.Tag.String.Loops.{by_number, zero_bytes-Zeroed}

place :
    (swapped : Bool) (i start : ℕ) → xor_index swapped i + start ≡ start + swapped_index swapped i
place swapped i start = omega (arith, xor_index-swapped_index swapped i)

-- After copying `n` bytes out, from byte `i` on of a string at `start`.
pub record CopiedOut (n i : ℕ) (swapped : Bool) (bs : Bytes) (size start : ℕ) (buffer after : Bytes)
    : Type 0 where
  pub runs : copy_out n i swapped bs size start buffer ≡ some (after, status_ok)
  pub same_length : length after ≡ length buffer
  pub copied :
      (j : ℕ) → j < n → get_or after (i + j) 0 ≡ get_or bs (start + swapped_index swapped (i + j)) 0
  pub kept : (p : ℕ) → (p < i) ⊎ (i + n ≤ p) → get_or after p 0 ≡ get_or buffer p 0

pub copy_out-CopiedOut :
    (n i : ℕ) (swapped : Bool) (bs : Bytes) (size start : ℕ) (buffer : Bytes)
    → length bs ≡ size
    → ((j : ℕ) → j < n → start + swapped_index swapped (i + j) < size)
    → i + n ≤ length buffer
    → (after : Bytes) × CopiedOut n i swapped bs size start buffer after
unfolding copy_out
copy_out-CopiedOut zero i swapped bs size start buffer same fit room = (
  buffer,
  record {
    runs = refl;
    same_length = refl;
    copied = λ j h. absurd (omega arith);
    kept = λ p out. refl;
  },
)
copy_out-CopiedOut (suc n) i swapped bs size start buffer same fit room =
    let at = start + swapped_index swapped i in
    let first : i + 0 ≡ i = omega arith in
    let fits : at < size = rw first at (fit 0 (omega arith)) in
    let shift : (j : ℕ) → suc i + j ≡ i + suc j = λ j. omega arith in
    let b = get_or bs at 0 in
    let next = set buffer i b in
    let size' = length-set buffer i b in
    let (after, w) =
      copy_out-CopiedOut n (suc i) swapped bs size start next same
        (λ j h. rw (shift j) (fit (suc j) (omega arith))) (omega arith) in
    let here : get_or after i 0 ≡ b =
      w.kept i (inl (omega arith)) ∙ get_or-set_self buffer i b 0 (omega arith) in
    (
      after,
      record {
        runs =
            rw
              (
                place swapped i start,
                lt→ltb at size fits,
                get_elem?-get_or bs at 0 (omega arith),
                lt→ltb i (length buffer) (omega arith),
              )
              w.runs;
        same_length = w.same_length ∙ size';
        copied =
            by_number
              (λ j.
                j < suc n
                → get_or after (i + j) 0 ≡ get_or bs (start + swapped_index swapped (i + j)) 0)
              (λ h. rw first here) (λ j h. rw (← shift j) (w.copied j (omega arith)));
        kept = λ p out. w.kept p (omega arith) ∙ get_or-set_ne buffer i p b 0 (omega arith);
      },
    )

nonzero : (b : ℕ) → b ≢ 0 → (b == 0) ≡ false
nonzero b h = ground arith

pub find_end_lem :
    (n : ℕ) (swapped : Bool) (bs : Bytes) (start k len : ℕ)
    → k ≤ len
    → len < k + n
    → ((j : ℕ) → j ≤ len → start + swapped_index swapped j < length bs)
    → ((j : ℕ) → j < len → get_or bs (start + swapped_index swapped j) 0 ≢ 0)
    → get_or bs (start + swapped_index swapped len) 0 ≡ 0
    → find_end n swapped bs start k ≡ some len
unfolding find_end
find_end_lem zero swapped bs start k len le lt fit chars end = absurd (omega arith)
find_end_lem (suc n) swapped bs start k len le lt fit chars end = elim (Bool-cases (k == len)) [
  | inl e ↦
      let same : k ≡ len = (==_iff k len).0 e in
      rw
        (
          same,
          place swapped len start,
          get_elem?-get_or bs (start + swapped_index swapped len) 0 (fit len (omega arith)),
          end,
        )
        refl
  | inr e ↦
      let before : k < len = ground arith in
      rw
        (
          place swapped k start,
          get_elem?-get_or bs (start + swapped_index swapped k) 0 (fit k (omega arith)),
          nonzero (get_or bs (start + swapped_index swapped k) 0) (chars k before),
        )
        (find_end_lem n swapped bs start (suc k) len before (omega arith) fit chars end)
]

-- A buffer holds a string at an offset.
pub record Holds (o : ByteOrder) (bs : Bytes) (offset : ℕ) (chars : Bytes) : Type 0 where
  pub measured : get_string_length_unsafe o bs (length bs) offset ≡ some (pos (length chars))
  pub stands :
      (j : ℕ)
      → j < length chars
      → get_or bs (offset + o.str_count_word_bytes + swapped_index o.str_is_byte_swapped j) 0
        ≡ get_or chars j 0
  pub room : offset + o.str_count_word_bytes + length chars + swap_pad o (length chars) ≤ length bs

-- What the caller finds in a buffer of `n` bytes: the string, and zeros behind it.
pub record IsCopy (chars : Bytes) (n : ℕ) (buffer : Bytes) : Type 0 where
  pub copied : (j : ℕ) → j < length chars → get_or buffer j 0 ≡ get_or chars j 0
  pub padded : (j : ℕ) → length chars ≤ j → j < n → get_or buffer j 0 ≡ 0

min_left : (a b : ℕ) → a ≤ b → min a b ≡ a
min_left a b h = omega arith

within : (start len size : ℕ) → start + len ≤ size → leb_ℤ (pos start +ℤ pos len) (pos size) ≡ true
within start len size h = ground arith

shorter : (len n : ℕ) → len ≤ n → ltb_ℤ (pos n) (pos len) ≡ false
shorter len n h = ground arith

pub get_string_at_lem :
    (o : ByteOrder) (bs : Bytes) (offset n : ℕ) (chars buffer : Bytes) (t : Tag)
    → length bs ≡ t.size
    → Holds o bs offset chars
    → length chars ≤ n
    → n ≤ length buffer
    → (zeroed : Bytes) × (buffer' : Bytes) × (zero_bytes n 0 buffer ≡ some zeroed)
      × (get_string_at o bs offset (pos n) (pos (length chars)) zeroed t
          ≡ some (with_status t status_ok, (status_ok, buffer')))
      × IsCopy chars n buffer'
unfolding get_string_at
get_string_at_lem o bs offset n chars buffer t size h short space =
    let len = length chars in
    let start = offset + o.str_count_word_bytes in
    let (zeroed, z) = zero_bytes-Zeroed n 0 buffer (omega arith) in
    let (buffer', c) =
      copy_out-CopiedOut len 0 o.str_is_byte_swapped bs t.size start zeroed size
        (λ j lt.
          let below = swapped_index-lt o.str_is_byte_swapped len j lt in
          rw zero-add (omega (arith, below, h.room)))
        (omega (arith, z.same_length)) in
    (
      zeroed,
      buffer',
      z.runs,
      rw
          (
            shorter len n short,
            within start len t.size (omega (arith, h.room)),
            min_left len t.size (omega (arith, h.room)),
            c.runs,
          )
          refl,
      record {
        copied = λ j lt. rw zero-add at (c.copied j lt) ∙ h.stands j lt;
        padded = λ j lo hi. c.kept j (inr (omega arith)) ∙ z.zeros j (omega arith) (omega arith);
      },
    )
