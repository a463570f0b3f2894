-- ===== src/Memory/Words.antt =====
-- Reading and writing words: neither leaves the buffer, and a read gives back what was written.
use mathlib.Core.Logic.{Ne-symm}
use native.Mathlib.Nat.{pow-suc}
use junk.Prelude.{
  ℕ, ◌+◌, ◌*◌, ◌/◌, ◌%◌, ◌^◌, ◌≤◌, ◌<◌, ◌≡◌, refl, sym, ap, ◌∙◌, ◌⊎◌, ◌≢◌, List, [], ◌∷◌, some,
  arith, lt→ltb, length, get_or, set, All, length-set, get_elem?-get_or, get_or-set_self,
  get_or-set_ne, All-set, All-get_or,
}
use junk.Memory.{Bytes, IsByte, Distinct, IsOrder, read_word, write_word}

-- The word and the buffer that stand for a read and a write inside the buffer.
word : Bytes → ℕ → List ℕ → ℕ
word bs base [] = 0
word bs base (o ∷ os) = get_or bs (base + o) 0 + 256 * word bs base os

written : Bytes → ℕ → List ℕ → ℕ → Bytes
written bs base [] v = bs
written bs base (o ∷ os) v = written (set bs (base + o) (v % 256)) base os (v / 256)

read_word-word :
    (bs : Bytes) (base w : ℕ) (os : List ℕ)
    → All (λ o. o < w) os
    → base + w ≤ length bs
    → read_word bs base os ≡ some (word bs base os)
unfolding read_word word
read_word-word bs base w [] h fit = refl
read_word-word bs base w (o ∷ os) h fit =
    rw (get_elem?-get_or bs (base + o) 0 (omega arith), read_word-word bs base w os h.1 fit)

write_word-written :
    (bs : Bytes) (base w : ℕ) (os : List ℕ) (v : ℕ)
    → All (λ o. o < w) os
    → base + w ≤ length bs
    → write_word bs base os v ≡ some (written bs base os v)
unfolding write_word written
write_word-written bs base w [] v h fit = refl
write_word-written bs base w (o ∷ os) v h fit = rw (lt→ltb (base + o) (length bs) (omega arith)) (
    write_word-written (set bs (base + o) (v % 256)) base w os (v / 256) h.1
      (omega (arith, length-set bs (base + o) (v % 256))))

length-written :
    (bs : Bytes) (base : ℕ) (os : List ℕ) (v : ℕ) → length (written bs base os v) ≡ length bs
unfolding written
length-written bs base [] v = refl
length-written bs base (o ∷ os) v =
    length-written (set bs (base + o) (v % 256)) base os (v / 256) ∙ length-set bs (base + o) _

written-IsByte :
    (bs : Bytes) (base : ℕ) (os : List ℕ) (v : ℕ)
    → All IsByte bs
    → All IsByte (written bs base os v)
unfolding written
written-IsByte bs base [] v h = h
written-IsByte bs base (o ∷ os) v h =
    written-IsByte (set bs (base + o) (v % 256)) base os (v / 256)
      (All-set IsByte bs (base + o) (v % 256) h (omega arith))

-- A write leaves the other positions alone.
get_or-written :
    (bs : Bytes) (base : ℕ) (os : List ℕ) (v i : ℕ)
    → All (λ o. i ≢ base + o) os
    → get_or (written bs base os v) i 0 ≡ get_or bs i 0
unfolding written
get_or-written bs base [] v i h = refl
get_or-written bs base (o ∷ os) v i h =
    get_or-written (set bs (base + o) (v % 256)) base os (v / 256) i h.1
    ∙ get_or-set_ne bs (base + o) i (v % 256) 0 (Ne-symm h.0)

All-ne-add : (base o : ℕ) (os : List ℕ) → All (λ p. p ≢ o) os → All (λ p. base + o ≢ base + p) os
All-ne-add base o [] h = tt
All-ne-add base o (p ∷ os) h = (omega arith, All-ne-add base o os h.1)

word-written :
    (bs : Bytes) (base w : ℕ) (os : List ℕ) (v : ℕ)
    → All (λ o. o < w) os
    → Distinct os
    → base + w ≤ length bs
    → v < 256 ^ length os
    → word (written bs base os v) base os ≡ v
unfolding word written
word-written bs base w [] v h d fit lt = omega arith
word-written bs base w (o ∷ os) v h d fit lt =
    let next = set bs (base + o) (v % 256) in
    let bound : v / 256 < 256 ^ length os = omega (arith, pow-suc 256 (length os)) in
    let same = length-set bs (base + o) (v % 256) in
    omega (
      arith,
      word-written next base w os (v / 256) h.1 d.1 (omega (arith, same)) bound,
      get_or-written next base os (v / 256) (base + o) (All-ne-add base o os d.0),
      get_or-set_self bs (base + o) (v % 256) 0 (omega arith),
    )

word-lt : (bs : Bytes) (base : ℕ) (os : List ℕ) → All IsByte bs → word bs base os < 256 ^ length os
unfolding word
word-lt bs base [] h = omega arith
word-lt bs base (o ∷ os) h =
    let first : get_or bs (base + o) 0 < 256 = All-get_or IsByte bs (base + o) 0 h (omega arith) in
    omega (arith, word-lt bs base os h, pow-suc 256 (length os))

word-same :
    (bs after : Bytes) (base w : ℕ) (os : List ℕ)
    → All (λ o. o < w) os
    → ((i : ℕ) → base ≤ i → i < base + w → get_or after i 0 ≡ get_or bs i 0)
    → word after base os ≡ word bs base os
unfolding word
word-same bs after base w [] h same = refl
word-same bs after base w (o ∷ os) h same =
    omega
      (arith, same (base + o) (omega arith) (omega arith), word-same bs after base w os h.1 same)

module _ (bs : Bytes) (base w : ℕ) {os : List ℕ} (order : IsOrder w os)
    (fit : base + w ≤ length bs) where
  -- Reading a word of a buffer of bytes does not fault, and the word fits its width.
  pub read_word-lt : All IsByte bs → (v : ℕ) × (read_word bs base os ≡ some v) × (v < 256 ^ w)
  read_word-lt bytes = (
    word bs base os,
    read_word-word bs base w os order.within fit,
    rw (← order.full) (word-lt bs base os bytes),
  )

  -- Writing a word does not fault; it keeps the length, the bytes and the other positions, and
  -- reading it back gives the word that was written.
  pub record Wrote (v : ℕ) (after : Bytes) : Type 0 where
    pub writes : write_word bs base os v ≡ some after
    pub same_length : length after ≡ length bs
    pub bytes : All IsByte bs → All IsByte after
    pub frame : (i : ℕ) → (i < base) ⊎ (base + w ≤ i) → get_or after i 0 ≡ get_or bs i 0
    pub reads : v < 256 ^ w → read_word after base os ≡ some v

  All-outside :
      (i : ℕ) (ps : List ℕ)
      → (i < base) ⊎ (base + w ≤ i)
      → All (λ o. o < w) ps
      → All (λ o. i ≢ base + o) ps
  All-outside i [] out h = tt
  All-outside i (p ∷ ps) out h = (omega arith, All-outside i ps out h.1)

  pub write_word-Wrote : (v : ℕ) → (after : Bytes) × Wrote v after
  write_word-Wrote v =
      let after = written bs base os v in
      let size = length-written bs base os v in
      (
        after,
        record {
          writes = write_word-written bs base w os v order.within fit;
          same_length = size;
          bytes = written-IsByte bs base os v;
          frame = λ i out. get_or-written bs base os v i (All-outside i os out order.within);
          reads = λ lt.
              read_word-word after base w os order.within (omega (arith, size))
              ∙ ap some
                  (word-written bs base w os v order.within order.distinct fit (rw order.full lt));
        },
      )

-- Reading depends only on the bytes of the word.
pub read_word-same :
    (bs after : Bytes) (base w : ℕ) {os : List ℕ}
    → IsOrder w os
    → base + w ≤ length bs
    → length after ≡ length bs
    → ((i : ℕ) → base ≤ i → i < base + w → get_or after i 0 ≡ get_or bs i 0)
    → read_word after base os ≡ read_word bs base os
read_word-same bs after base w {os} order fit size same =
    read_word-word after base w os order.within (omega arith)
    ∙ ap some (word-same bs after base w os order.within same)
    ∙ sym (read_word-word bs base w os order.within fit)
