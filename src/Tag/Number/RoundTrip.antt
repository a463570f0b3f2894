-- ===== src/Tag/Number/RoundTrip.antt =====
-- A number that is written is read back, and leaves the rest of the buffer alone.
use junk.Memory.Words.{read_word-lt, read_word-same, Wrote, write_word-Wrote}
use junk.Memory.{Bytes, IsByte, IsOrder, read_word, write_word}
use junk.Prelude.{
  ℕ, ◌+◌, ◌≤◌, ◌<◌, ◌≡◌, refl, ◌∙◌, ◌⊎◌, true, false, List, some, arith, length, get_or, All, ℤ,
}
use junk.Status.{status_ok}
use junk.Tag.Number.Kinds.{
  Kind, uint64, getter, setter, width, Fits, default, to_word, of_word, byte_positions,
  of_word-to_word, positions-IsOrder, get_body, set_body, getter-on_tag, setter-on_tag, Holds,
}
use junk.Tag.Number.{
  get_value, get_number, set_value, set_number, set_int64_body, get_float, set_float,
}
use junk.Tag.{
  ByteOrder, Tag, Tags, with_status, mark_dirty, lookup_tag, update, check_bounds,
  check_bounds-inside, index_of, on_tag_found, lookup_tag-update, lookup_tag_id, IsSized-length,
  in_bounds-le, with_buffer, with_buffer-IsValid,
}

body_read :
    (k : Kind) (offset : ℤ) (t : Tag) (bs : Bytes) (o : ByteOrder) (v : ℕ)
    → t.buffer ≡ some bs
    → t.is_bit ≡ false
    → check_bounds offset (width k) t.size ≡ true
    → t.byte_order ≡ some o
    → read_word bs (index_of offset) (byte_positions k o) ≡ some v
    → get_body offset k t ≡ some (with_status t status_ok, of_word k v)
unfolding get_body get_number get_float get_value
body_read uint64 offset t bs o v has plain inside order e = ground arith
body_read _ offset t bs o v has plain inside order e = ground arith

body_write :
    (k : Kind) (offset : ℤ) (t : Tag) (bs : Bytes) (o : ByteOrder) (v : ℤ) (after : Bytes)
    → t.buffer ≡ some bs
    → t.is_bit ≡ false
    → check_bounds offset (width k) t.size ≡ true
    → t.byte_order ≡ some o
    → write_word bs (index_of offset) (byte_positions k o) (to_word k v) ≡ some after
    → set_body offset k v t
      ≡ some (record (mark_dirty t) { buffer = some after; status = status_ok }, status_ok)
unfolding set_body set_number set_int64_body set_float set_value
body_write uint64 offset t bs o v after has plain inside order e = ground arith
body_write _ offset t bs o v after has plain inside order e = ground arith

module _ {k : Kind} {offset : ℤ} {t : Tag} {bs : Bytes} (h : Holds k offset t bs) where
  open h.valid use {order}

  abbrev pub positions : List ℕ
  positions = byte_positions k order

  pub fits : index_of offset + width k ≤ length bs
  fits = omega (
    arith,
    in_bounds-le offset (width k) t.size h.inside,
    (IsSized-length t.buffer t.size bs h.has_buffer h.valid.sized).0,
  )

  checked : check_bounds offset (width k) t.size ≡ true
  checked = check_bounds-inside offset (width k) t.size h.inside

  pub is_bytes : All IsByte bs
  is_bytes = (IsSized-length t.buffer t.size bs h.has_buffer h.valid.sized).1

  pub positions-order : IsOrder (width k) positions
  positions-order = positions-IsOrder k h.valid.ordered

  pub get_body-read :
      (v : ℕ)
      → read_word bs (index_of offset) positions ≡ some v
      → get_body offset k t ≡ some (with_status t status_ok, of_word k v)
  get_body-read v e =
      body_read k offset t bs order v h.has_buffer h.plain checked h.valid.has_order e

  pub set_body-write :
      (v : ℤ) (after : Bytes)
      → write_word bs (index_of offset) positions (to_word k v) ≡ some after
      → set_body offset k v t ≡ some (with_buffer t after, status_ok)
  set_body-write v after e =
      body_write k offset t bs order v after h.has_buffer h.plain checked h.valid.has_order e

  pub written-Holds :
      (v : ℕ) (after : Bytes)
      → Wrote bs (index_of offset) (width k) positions-order fits v after
      → Holds k offset (with_buffer t after) after
  written-Holds v after w = record {
    valid =
        with_buffer-IsValid t after
          (w.same_length ∙ (IsSized-length t.buffer t.size bs h.has_buffer h.valid.sized).0)
          (w.bytes is_bytes) h.valid;
    has_buffer = refl;
    plain = h.plain;
    inside = h.inside;
  }

-- What follows when the number `v` is set at an offset of tag `t`, whose buffer is `bs`.
abbrev pub ReadsBack : Kind → Tags → ℤ → ℤ → ℤ → Tag → Bytes → Type 0
ReadsBack k tags id offset v t bs =
    (tags' : Tags) × (tags'' : Tags) × (bs' : Bytes) × (setter k tags id offset v
      ≡ some (tags', status_ok))
    × (getter k tags' id offset ≡ some (tags'', v))
    × (lookup_tag tags' id ≡ some (with_buffer t bs'))
    × ((i : ℕ)
        → (i < index_of offset) ⊎ (index_of offset + width k ≤ i)
        → get_or bs' i 0 ≡ get_or bs i 0)

-- For each of the ten number types: on a valid tag that is no bit tag, a value of the type that
-- is set at an offset inside the buffer is set with status OK; getting it afterwards at that
-- offset returns it. The bytes outside the ones of the number keep their values, and the tag is
-- marked for writing exactly if it is written automatically or was marked before.
pub getter-setter :
    (k : Kind) (tags : Tags) (id offset v : ℤ) (t : Tag) (bs : Bytes)
    → lookup_tag tags id ≡ some t
    → Holds k offset t bs
    → Fits k v
    → ReadsBack k tags id offset v t bs
unfolding written-Holds with_buffer-IsValid
getter-setter k tags id offset v t bs found h f =
    let (after, w) =
      write_word-Wrote bs (index_of offset) (width k) (positions-order h) (fits h) (to_word k v) in
    let (same, lt) = of_word-to_word k v f in
    let held = written-Holds h (to_word k v) after w in
    let found' = lookup_tag-update tags id (with_buffer t after) (lookup_tag_id tags id found) in
    (
      update tags id (with_buffer t after),
      update (update tags id (with_buffer t after)) id
          (with_status (with_buffer t after) status_ok),
      after,
      setter-on_tag k tags id offset v
          ∙ on_tag_found tags id _ (set_body offset k v) found (set_body-write h v after w.writes),
      getter-on_tag k _ id offset
          ∙ on_tag_found _ id (default k) (get_body offset k) found'
              (rw same at (get_body-read held (to_word k v) (w.reads lt))),
      found',
      w.frame,
    )

-- Setting a number at `offset` keeps the one at `at`.
abbrev pub KeepsOther : Kind → Kind → Tags → ℤ → ℤ → ℤ → ℤ → Type 0
KeepsOther k j tags id offset at v =
    (before : Tags) × (tags' : Tags) × (later : Tags) × (x : ℤ) × (getter j tags id at
      ≡ some (before, x))
    × (setter k tags id offset v ≡ some (tags', status_ok))
    × (getter j tags' id at ≡ some (later, x))

-- On a valid tag that is no bit tag: where two numbers, of any of the ten types, lie inside the
-- buffer and do not overlap, setting one returns OK and does not change what getting the other
-- returns.
pub getter-setter_apart :
    (k j : Kind) (tags : Tags) (id offset at v : ℤ) (t : Tag) (bs : Bytes)
    → lookup_tag tags id ≡ some t
    → Holds k offset t bs
    → Holds j at t bs
    → (index_of at + width j ≤ index_of offset) ⊎ (index_of offset + width k ≤ index_of at)
    → KeepsOther k j tags id offset at v
unfolding with_buffer-IsValid
getter-setter_apart k j tags id offset at v t bs found h g apart =
    let (after, w) =
      write_word-Wrote bs (index_of offset) (width k) (positions-order h) (fits h) (to_word k v) in
    let (x, read, lt) =
      read_word-lt bs (index_of at) (width j) (positions-order g) (fits g) (is_bytes g) in
    let found' = lookup_tag-update tags id (with_buffer t after) (lookup_tag_id tags id found) in
    let held : Holds j at (with_buffer t after) after = record {
      valid =
          with_buffer-IsValid t after
            (w.same_length ∙ (IsSized-length t.buffer t.size bs h.has_buffer h.valid.sized).0)
            (w.bytes (is_bytes h)) g.valid;
      has_buffer = refl;
      plain = g.plain;
      inside = g.inside;
    } in
    (
      update tags id (with_status t status_ok),
      update tags id (with_buffer t after),
      update (update tags id (with_buffer t after)) id
          (with_status (with_buffer t after) status_ok),
      of_word j x,
      getter-on_tag j tags id at
          ∙ on_tag_found tags id (default j) (get_body at j) found (get_body-read g x read),
      setter-on_tag k tags id offset v
          ∙ on_tag_found tags id _ (set_body offset k v) found (set_body-write h v after w.writes),
      getter-on_tag j _ id at
          ∙ on_tag_found _ id (default j) (get_body at j) found' (
              get_body-read held x (
                read_word-same bs after (index_of at) (width j) (positions-order g) (fits g)
                  w.same_length (λ i lo hi. w.frame i (omega arith))
                ∙ read)),
    )
