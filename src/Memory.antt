-- ===== src/Memory.antt =====
-- A byte buffer in memory, and the words that the accessors of
-- libplctag/src/libplctag/lib/lib.c read and write in it, one byte at a time, in the order that
-- the tag's byte order gives. An access outside the buffer is undefined behaviour, `none`.
pub mod Words
use junk.Prelude.{
  ℕ, ◌+◌, ◌*◌, ◌/◌, ◌%◌, ◌<◌, ◌≡◌, ◌≢◌, List, [], ◌∷◌, Option, none, some, ltb, if◌then◌else◌,
  length, get_elem?, set, All, ◌>>=◌,
}

abbrev pub Bytes : Type 0
Bytes = List ℕ

-- `data[i]`
abbrev pub load : Bytes → ℕ → Option ℕ
load = get_elem?

-- `data[i] = v`
abbrev pub store : Bytes → ℕ → ℕ → Option Bytes
store bs i v = if ltb i (length bs) then some (set bs i v) else none

-- `((uintN_t)(data[base + order[0]]) << 0) + ((uintN_t)(data[base + order[1]]) << 8) + …`
unfoldable pub read_word : Bytes → ℕ → List ℕ → Option ℕ
read_word bs base [] = some 0
read_word bs base (o ∷ os) = do
  b ← load bs (base + o)
  rest ← read_word bs base os
  some (b + 256 * rest)

-- `data[base + order[0]] = (uint8_t)((val >> 0) & 0xFF); data[base + order[1]] = …`
unfoldable pub write_word : Bytes → ℕ → List ℕ → ℕ → Option Bytes
write_word bs base [] v = some bs
write_word bs base (o ∷ os) v = do
  written ← store bs (base + o) (v % 256)
  write_word written base os (v / 256)

-- The bytes of a buffer are `uint8_t`.
abbrev pub IsByte : ℕ → Type 0
IsByte b = b < 256

abbrev pub Distinct : List ℕ → Type 0
Distinct [] = Unit
Distinct (o ∷ os) = All (λ p. p ≢ o) os × Distinct os

-- An order of `w` bytes uses each of the positions 0 to w - 1 once.
pub record IsOrder (w : ℕ) (os : List ℕ) : Type 0 where
  pub full : length os ≡ w
  pub within : All (λ o. o < w) os
  pub distinct : Distinct os
