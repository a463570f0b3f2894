-- ===== src/Tag/String/RoundTrip.antt =====
-- A string that is set is the string that is got.
use mathlib.Core.Option.{some-injective}
use mathlib.Core.Path.{subst}
use junk.Prelude.{
  if_second, not_negative, ℕ, suc, ◌+◌, ◌≤◌, ◌<◌, ◌≡◌, ◌⊎◌, refl, sym, ◌∙◌, Bool, true, false, not,
  Option, some, ◌==◌, arith, inl, inr, length, get_or, All, ltb, ℤ, pos, ◌+ℤ◌, ◌==ℤ◌, ◌&&◌,
}
use junk.Memory.{Bytes, IsByte}
use junk.Status.{status_ok, err_not_found}
use junk.Tag.{
  ByteOrder, Tag, Tags, IsOrdered, IsValid, lookup_tag, update, on_tag_found, lookup_tag-update,
  lookup_tag_id,
}
use junk.Tag.Size.{Allocator, resize_tag_buffer_at_offset_unsafe}
use junk.Tag.Size.Splitting.{resize_at_offset-Split}
use junk.Tag.String.{
  zero_bytes, get_string_length_unsafe, get_string_total_length_unsafe,
  get_new_string_total_length_unsafe, measure, plc_tag_get_string_length, get_string_at,
  get_string_body, plc_tag_get_string,
}
use junk.Tag.String.Setting.{
  finished, write_string, replace_string, set_string_at, set_string_body, plc_tag_set_string,
}
use junk.Tag.String.Reading.{IsCopy, get_string_at_lem}
use junk.Tag.String.Writing.{Fits}
use junk.Tag.String.Storing.{write_string-Stored, old_bytes-some}

add_pos : (a b : ℕ) → pos a +ℤ pos b ≡ pos (a + b)
add_pos a b = ground arith

small_enough : (cap n : ℕ) → (cap ≡ 0) ⊎ (n ≤ cap) → (not (cap == 0) && ltb cap n) ≡ false
small_enough cap n h = ground arith

may_resize :
    (allowed : Bool) (new old : ℕ)
    → (allowed ≡ true) ⊎ (new ≡ old)
    → (not allowed && not (pos new ==ℤ pos old)) ≡ false
may_resize allowed new old h = ground arith

get_body_run :
    (o : ByteOrder) (offset n : ℕ) (chars bs buffer zeroed : Bytes) (t : Tag)
    (r : Tag × (ℤ × Bytes))
    → t.byte_order ≡ some o
    → o.str_is_defined ≡ true
    → t.buffer ≡ some bs
    → t.is_bit ≡ false
    → zero_bytes n 0 buffer ≡ some zeroed
    → get_string_length_unsafe o bs t.size offset ≡ some (pos (length chars))
    → get_string_at o bs offset (pos n) (pos (length chars)) zeroed t ≡ some r
    → get_string_body offset buffer (pos n) t ≡ some r
unfolding get_string_body
get_body_run o offset n chars bs buffer zeroed t r order is_defined has plain zeros measured run =
    ground arith

measure_run :
    (f : ByteOrder → Bytes → ℕ → Option ℤ) (o : ByteOrder) (bs : Bytes) (t : Tag) (n : ℤ)
    → t.byte_order ≡ some o
    → o.str_is_defined ≡ true
    → t.buffer ≡ some bs
    → t.is_bit ≡ false
    → f o bs t.size ≡ some n
    → measure f t ≡ some (t, n)
unfolding measure
measure_run f o bs t n order is_defined has plain run = ground arith

module _ (memory : Allocator) where
  open memory use {block}

  set_body_run :
      (o : ByteOrder) (offset : ℕ) (chars : Bytes) (t : Tag)
      → t.byte_order ≡ some o
      → o.str_is_defined ≡ true
      → set_string_body memory offset (some chars) t ≡ set_string_at memory o offset chars t
  unfolding set_string_body
  set_body_run o offset chars t order is_defined = ground arith

  set_at_run :
      (o : ByteOrder) (offset old new : ℕ) (chars bs : Bytes) (t : Tag)
      → t.is_bit ≡ false
      → (o.str_max_capacity ≡ 0) ⊎ (length chars ≤ o.str_max_capacity)
      → t.buffer ≡ some bs
      → get_string_total_length_unsafe o bs t.size offset ≡ some (pos old)
      → get_new_string_total_length_unsafe o chars ≡ pos new
      → set_string_at memory o offset chars t
        ≡ replace_string memory o offset chars (pos old) (pos new) t
  unfolding set_string_at
  set_at_run o offset old new chars bs t plain small has old_size new_size =
      if_second _ _ plain
      ∙ if_second _ _ (small_enough o.str_max_capacity (length chars) small)
      ∙ rw (old_bytes-some t.buffer bs has, old_size, new_size) refl

  replace_run :
      (o : ByteOrder) (offset old new : ℕ) (chars : Bytes) (t t' : Tag)
      → (t.allow_field_resize ≡ true) ⊎ (new ≡ old)
      → resize_tag_buffer_at_offset_unsafe memory t (pos (offset + old)) (pos (offset + new))
        ≡ some (t', status_ok)
      → replace_string memory o offset chars (pos old) (pos new) t
        ≡ write_string o offset new chars t'
  unfolding replace_string
  replace_run o offset old new chars t t' allowed resized =
      if_second _ _ (not_negative old)
      ∙ if_second _ _ (not_negative new)
      ∙ if_second _ _ (may_resize t.allow_field_resize new old allowed)
      ∙ rw (add_pos offset old, add_pos offset new, resized) refl

-- What follows when `chars` are set at an offset of tag `t`, whose buffer is `bs` and holds `old`
-- bytes there, which become `new` ones, and `n` bytes are then read back.
abbrev pub StringReadsBack : Allocator → Tags → ℤ → ℕ → Bytes → Bytes → ℕ → Bytes → ℕ → ℕ → Type 0
StringReadsBack memory tags id offset chars buffer n bs old new =
    (tags' : Tags) × (tags'' : Tags) × (last : Tags) × (t' : Tag) × (bs' : Bytes)
    × (buffer' : Bytes) × (plc_tag_set_string memory tags id offset (some chars)
        ≡ some (tags', status_ok))
    × (plc_tag_get_string tags' id offset buffer (pos n) ≡ some (tags'', (status_ok, buffer')))
    × IsCopy chars n buffer'
    × (plc_tag_get_string_length tags' id offset ≡ some (last, pos (length chars)))
    × (lookup_tag tags' id ≡ some t')
    × IsValid t'
    × (t'.buffer ≡ some bs')
    × ((p : ℕ) → p < offset → get_or bs' p 0 ≡ get_or bs p 0)
    × ((j : ℕ)
        → offset + old + j < length bs
        → get_or bs' (offset + new + j) 0 ≡ get_or bs (offset + old + j) 0)

IsOrdered-order : (t : Tag) (o : ByteOrder) → IsValid t → t.byte_order ≡ some o → IsOrdered o
IsOrdered-order t o v e = subst IsOrdered (some-injective _ _ (sym v.has_order ∙ e)) v.ordered

finished-IsValid :
    (t : Tag) (b bs : Bytes) (size : ℕ)
    → IsValid t
    → length bs ≡ size
    → All IsByte bs
    → IsValid (finished (record t { buffer = some b; size = size }) bs).0
finished-IsValid t b bs size v same bytes = record {
  sized = (same, bytes);
  order = v.order;
  has_order = v.has_order;
  ordered = v.ordered;
}

module _ (memory : Allocator) where
  open memory use {block}

  -- On a valid tag that is no bit tag and has strings: a string that fits its new field and the
  -- capacity is set at an offset, where the field of the old string lies in the buffer, fields may
  -- be resized or the field keeps its size, the buffer stays non-empty and `realloc` returns a
  -- block for it. Setting returns OK; getting it then, with room for the string, returns OK and
  -- gives the string with zeros behind it, and its length is that of the string. The tag stays
  -- valid, and the bytes before the field are kept, as are those behind it, which move along.
  pub get_string-set_string :
      (tags : Tags) (id : ℤ) (offset : ℕ) (chars buffer : Bytes) (n : ℕ) (t : Tag) (o : ByteOrder)
      (bs fresh : Bytes) (old new m : ℕ)
      → lookup_tag tags id ≡ some t
      → IsValid t
      → t.byte_order ≡ some o
      → o.str_is_defined ≡ true
      → t.buffer ≡ some bs
      → t.is_bit ≡ false
      → Fits o chars new
      → (o.str_max_capacity ≡ 0) ⊎ (length chars ≤ o.str_max_capacity)
      → get_string_total_length_unsafe o bs t.size offset ≡ some (pos old)
      → get_new_string_total_length_unsafe o chars ≡ pos new
      → (t.allow_field_resize ≡ true) ⊎ (new ≡ old)
      → offset + old ≤ t.size
      → suc m + (offset + old) ≡ t.size + (offset + new)
      → block (suc m) ≡ some fresh
      → length chars ≤ n
      → n ≤ length buffer
      → StringReadsBack memory tags id offset chars buffer n bs old new
  unfolding plc_tag_set_string plc_tag_get_string plc_tag_get_string_length
  get_string-set_string tags id offset chars buffer n t o bs fresh old new m found v order
        is_defined has plain fits small old_size new_size allowed inside total got short space =
      let (b, resized, split) =
        resize_at_offset-Split memory t bs (offset + old) (offset + new) m fresh v has inside total
          got in
      let t1 = record t { buffer = some b; size = suc m } in
      let (bs', stored) =
        write_string-Stored o offset new chars b t1 (IsOrdered-order t o v order) refl
          split.same_length (omega arith) fits fits.layout in
      let t' = (finished t1 bs').0 in
      let size' : length bs' ≡ suc m = stored.same_length ∙ split.same_length in
      let set =
        set_body_run memory o offset chars t order is_defined
        ∙ set_at_run memory o offset old new chars bs t plain small has old_size new_size
        ∙ replace_run memory o offset old new chars t t1 allowed resized
        ∙ stored.runs in
      let found' = lookup_tag-update tags id t' (lookup_tag_id tags id found) in
      let (zeroed, buffer', zeros, reads, copy) =
        get_string_at_lem o bs' offset n chars buffer t' size' stored.holds short space in
      let measured : get_string_length_unsafe o bs' (suc m) offset ≡ some (pos (length chars)) =
        rw (← size') stored.holds.measured in
      (
        update tags id t',
        _,
        _,
        t',
        bs',
        buffer',
        on_tag_found tags id err_not_found (set_string_body memory offset (some chars)) found set,
        on_tag_found (update tags id t') id (err_not_found, buffer)
            (get_string_body offset buffer (pos n)) found'
            (get_body_run o offset n chars bs' buffer zeroed t' _ order is_defined refl plain zeros
              measured reads),
        copy,
        on_tag_found (update tags id t') id err_not_found _ found' (
            measure_run (λ o bs size. get_string_length_unsafe o bs size offset) o bs' t' _ order
              is_defined refl plain measured),
        found',
        finished-IsValid t b bs' (suc m) v size' (stored.bytes split.bytes),
        refl,
        λ p lt. stored.kept p (inl lt) ∙ split.front p (omega arith) (omega arith),
        λ j lt. stored.kept (offset + new + j) (inr (omega arith)) ∙ split.back j lt,
      )
