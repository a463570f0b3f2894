-- ===== src/Tag/String/Setting.antt =====
-- `plc_tag_set_string` in libplctag/src/libplctag/lib/lib.c.
use junk.Prelude.{
  ℕ, suc, ◌+◌, ◌-◌, ◌%◌, ◌^◌, Bool, not, [], ◌∷◌, Option, none, some, if◌then◌else◌, ◌>>=◌, ℤ, pos,
  pos_part, ltb, ltb_ℤ, ◌==◌, ◌==ℤ◌, ◌+ℤ◌, ◌&&◌, length, min,
}
use junk.Memory.{Bytes, store, write_word}
use junk.Status.{
  status_ok, err_out_of_bounds, err_not_found, err_unsupported, err_null_ptr, err_too_large,
  err_not_allowed,
}
use junk.Tag.{ByteOrder, Tag, Tags, with_status, mark_dirty, on_tag}
use junk.Tag.Size.{Allocator, old_bytes, resize_tag_buffer_at_offset_unsafe}
use junk.Tag.String.{
  count_order, get_string_total_length_unsafe, get_new_string_total_length_unsafe, zero_bytes,
}

-- Where the writer puts byte `i` of a string.
abbrev pub swapped_index : Bool → ℕ → ℕ
swapped_index swapped i = if swapped then (if i % 2 == 1 then i - 1 else i + 1) else i

-- The loop that copies a string in, from its byte `i` on; the result is `rc`.
unfoldable pub copy_in : Bytes → ℕ → Bool → ℕ → ℕ → Bytes → Option (Bytes × ℤ)
copy_in [] i swapped size start bs = some (bs, status_ok)
copy_in (c ∷ cs) i swapped size start bs =
    let char_index = start + swapped_index swapped i in
    let copied = store bs char_index c >>= λ bs'. copy_in cs (suc i) swapped size start bs' in
    if ltb char_index size then copied else some (bs, err_out_of_bounds)

-- The count word of a counted string; the result is `rc`.
unfoldable pub set_count_word : ByteOrder → ℕ → ℕ → ℕ → Bytes → Option (Bytes × ℤ)
set_count_word o size offset string_length bs =
    if ltb size (offset + o.str_count_word_bytes)
    then some (bs, err_out_of_bounds)
    else elim (count_order o) [
      | none ↦ some (bs, err_unsupported)
      | some order ↦
          if ltb (256 ^ o.str_count_word_bytes - 1) string_length
          then some (bs, err_too_large)
          else (write_word bs offset order string_length >>= λ bs'. some (bs', status_ok))
    ]

-- The tag with new contents of its buffer; a null buffer stays one.
abbrev pub put_bytes : Tag → Bytes → Tag
put_bytes t bs = record t { buffer = elim t.buffer [ none ↦ none | some _ ↦ some bs ] }

abbrev pub finished : Tag → Bytes → Tag × ℤ
finished t bs = (with_status (mark_dirty (put_bytes t bs)) status_ok, status_ok)

-- The byte behind the string, and the end of the critical block.
unfoldable pub end_string : ByteOrder → ℕ → ℕ → Tag → Bytes → Option (Tag × ℤ)
end_string o start string_length t bs =
    if o.str_is_zero_terminated
    then (if ltb (start + string_length) t.size
        then (store bs (start + string_length) 0 >>= λ bs'. some (finished t bs'))
        else some (put_bytes t bs, err_out_of_bounds))
    else some (finished t bs)

unfoldable pub write_chars : ByteOrder → ℕ → Bytes → Tag → Bytes → Option (Tag × ℤ)
write_chars o start string_val t bs =
    copy_in string_val 0 o.str_is_byte_swapped t.size start bs >>= λ (bs', rc).
    if rc ==ℤ status_ok
    then end_string o start (length string_val) t bs'
    else some (with_status (put_bytes t bs') rc, rc)

-- After the buffer has its new size.
unfoldable pub write_string : ByteOrder → ℕ → ℕ → Bytes → Tag → Option (Tag × ℤ)
write_string o offset new_size string_val t = do
  zeroed ← zero_bytes (min (offset + new_size) t.size - offset) offset (old_bytes t.buffer)
  if o.str_is_counted
      then (set_count_word o t.size offset (length string_val) zeroed >>= λ (bs, rc).
          if rc ==ℤ status_ok
          then write_chars o (offset + o.str_count_word_bytes) string_val t bs
          else some (with_status (put_bytes t bs) rc, rc))
      else write_chars o offset string_val t zeroed

module _ (memory : Allocator) where
  -- The critical block, for the sizes of the old string and of the new one.
  unfoldable pub replace_string : ByteOrder → ℕ → Bytes → ℤ → ℤ → Tag → Option (Tag × ℤ)
  replace_string o offset string_val old_size new_size t =
      if ltb_ℤ old_size (pos 0)
      then some (t, old_size)
      else if ltb_ℤ new_size (pos 0)
      then some (t, new_size)
      else if not t.allow_field_resize && not (new_size ==ℤ old_size)
      then some (t, err_not_allowed)
      else (resize_tag_buffer_at_offset_unsafe memory t (pos offset +ℤ old_size)
            (pos offset +ℤ new_size)
          >>= λ (t', rc).
              if rc ==ℤ status_ok
              then write_string o offset (pos_part new_size) string_val t'
              else some (t', rc))

  unfoldable pub set_string_at : ByteOrder → ℕ → Bytes → Tag → Option (Tag × ℤ)
  set_string_at o offset string_val t =
      if t.is_bit
      then some (with_status t err_unsupported, err_unsupported)
      else if not (o.str_max_capacity == 0) && ltb o.str_max_capacity (length string_val)
      then some (with_status t err_too_large, err_too_large)
      else (get_string_total_length_unsafe o (old_bytes t.buffer) t.size offset >>= λ old_size.
          replace_string o offset string_val old_size
            (get_new_string_total_length_unsafe o string_val) t)

  unfoldable pub set_string_body : ℕ → Option Bytes → Tag → Option (Tag × ℤ)
  set_string_body offset string_val t = elim t.byte_order [
    | none ↦ some (with_status t err_unsupported, err_unsupported)
    | some o ↦
        if not o.str_is_defined
        then some (with_status t err_unsupported, err_unsupported)
        else elim string_val [
          | none ↦ some (with_status t err_null_ptr, err_null_ptr)
          | some chars ↦ set_string_at o offset chars t
        ]
  ]

  unfoldable pub plc_tag_set_string : Tags → ℤ → ℕ → Option Bytes → Option (Tags × ℤ)
  plc_tag_set_string tags id string_start_offset string_val =
      on_tag tags id err_not_found (set_string_body string_start_offset string_val)
