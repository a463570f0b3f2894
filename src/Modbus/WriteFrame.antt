-- ===== src/Modbus/WriteFrame.antt =====
-- The request that `create_write_request` of libplctag/src/libplctag/protocols/mb/modbus.c builds,
-- and the part of the tag that it carries.
use mathlib.Core.Path.{subst}
use junk.Prelude.{
  ℕ, ◌+◌, ◌-◌, ◌*◌, ◌/◌, ◌%◌, ◌≤◌, ◌<◌, ◌≡◌, refl, sym, ◌∙◌, ◌⊎◌, inl, inr, List, [], ◌∷◌, some,
  arith, length, get_or, false, ◌==◌, ℤ, pos, if_second, min,
}
use junk.Memory.{Bytes}
use junk.Tag.Raw.{copy_bytes}
use junk.Tag.Raw.Copying.{copy_bytes-Copied}
use junk.Modbus.{Plc, ModbusTag, max_modbus_request_payload, next_seq_id, high_byte, low_byte}
use junk.Modbus.Requests.{
  write_bytes, registers_per_request, register_count, write_command, queued, put_write, put_data,
  write_request_of, create_write_request,
}
use junk.Modbus.Frames.{with_frame, write_bytes-Put}
use junk.Modbus.ReadPayload.{register_count_lem}

-- What request `k` of a write carries: `per` registers of `es` bits at most, of `ec` in all, that
-- fill `size` bytes.
pub record IsPart (es per ec k size : ℕ) : Type 0 where
  pub below : k * per ≤ ec
  pub offset : (k * per * es) / 8 ≡ 246 * k
  pub bytes : (min per (ec - k * per) * es + 7) / 8 ≡ min 246 (size - 246 * k)

coils_in :
    (ec k : ℕ) → (246 * k < (ec * 1 + 7) / 8) ⊎ (k ≡ 0) → IsPart 1 1968 ec k ((ec * 1 + 7) / 8)
coils_in ec k h = record { below = omega arith; offset = omega arith; bytes = omega arith }

words_in :
    (ec k : ℕ) → (246 * k < (ec * 16 + 7) / 8) ⊎ (k ≡ 0) → IsPart 16 123 ec k ((ec * 16 + 7) / 8)
words_in ec k h = record { below = omega arith; offset = omega arith; bytes = omega arith }

pub IsPart-of :
    (es ec k : ℕ)
    → (es ≡ 1) ⊎ (es ≡ 16)
    → (246 * k < (ec * es + 7) / 8) ⊎ (k ≡ 0)
    → IsPart es ((246 * 8) / es) ec k ((ec * es + 7) / 8)
IsPart-of es ec k (inl e) =
    subst
      (λ s.
        (246 * k < (ec * s + 7) / 8) ⊎ (k ≡ 0) → IsPart s ((246 * 8) / s) ec k ((ec * s + 7) / 8))
      (sym e) (coils_in ec k)
IsPart-of es ec k (inr e) =
    subst
      (λ s.
        (246 * k < (ec * s + 7) / 8) ⊎ (k ≡ 0) → IsPart s ((246 * 8) / s) ec k ((ec * s + 7) / 8))
      (sym e) (words_in ec k)

-- A frame whose payload is the `p` bytes of the tag from position `from` on.
pub record WriteFrame (d : Bytes) (seq code p from : ℕ) (buffer : Bytes) : Type 0 where
  pub seq_high : get_or d 0 0 ≡ high_byte (pos seq)
  pub seq_low : get_or d 1 0 ≡ low_byte (pos seq)
  pub length_high : get_or d 4 0 ≡ high_byte (pos (p + 7))
  pub length_low : get_or d 5 0 ≡ low_byte (pos (p + 7))
  pub command : get_or d 7 0 ≡ code
  pub payload_length : get_or d 12 0 ≡ p % 256
  pub payload : (i : ℕ) → i < p → get_or d (13 + i) 0 ≡ get_or buffer (from + i) 0

-- The state after `create_write_request`, with the frame `d`, whose payload has `p` bytes.
abbrev pub write_queued : Plc → ModbusTag → Bytes → ℕ → Plc × (ModbusTag × ℤ)
write_queued plc tag d p =
    let seq = next_seq_id plc.seq_id in
    queued (with_frame (record plc { seq_id = seq }) d (13 + p)) tag seq

pub record WriteMade (plc : Plc) (tag : ModbusTag) (code p : ℕ) (d : Bytes) : Type 0 where
  pub runs : create_write_request plc tag ≡ some (write_queued plc tag d p)
  pub same_length : length d ≡ length plc.write_data
  pub frame : WriteFrame d (next_seq_id plc.seq_id) code p (246 * tag.request_num) tag.buffer

abbrev header_bytes : Plc → ℕ → ℕ → List ℕ
header_bytes plc seq len =
    high_byte (pos seq)
    ∷ low_byte (pos seq)
    ∷ 0
    ∷ 0
    ∷ high_byte (pos len)
    ∷ low_byte (pos len)
    ∷ plc.server_id
    ∷ []

abbrev body_bytes : ℕ → ℕ → ℕ → ℕ → List ℕ
body_bytes code base n p =
    code
    ∷ high_byte (pos base)
    ∷ low_byte (pos base)
    ∷ high_byte (pos n)
    ∷ low_byte (pos n)
    ∷ (p % 256)
    ∷ []

abbrev started : Plc → Plc
started plc = record plc { seq_id = next_seq_id plc.seq_id; write_data_len = 0 }

create_write_request-runs :
    (plc : Plc) (tag : ModbusTag) (code p n : ℕ) (h g d : Bytes)
    → let per = registers_per_request max_modbus_request_payload tag in
      (tag.elem_size == 0) ≡ false
      → register_count per tag ≡ pos n
      → (n * tag.elem_size + 7) / 8 ≡ p
      → write_command tag.reg_type ≡ some code
      → write_bytes (started plc) (header_bytes plc (next_seq_id plc.seq_id) (p + 7))
        ≡ some (with_frame (started plc) h 7)
      → write_bytes
          (with_frame (started plc) h 7)
          (body_bytes code (tag.reg_base + tag.request_num * per) n p)
        ≡ some (with_frame (started plc) g 13)
      → (tag.request_num * per * tag.elem_size) / 8 ≡ 246 * tag.request_num
      → copy_bytes p 0 tag.buffer (246 * tag.request_num) g 13 ≡ some d
      → create_write_request plc tag ≡ some (write_queued plc tag d p)
unfolding create_write_request write_request_of put_write put_data
create_write_request-runs plc tag code p n h g d sized count bytes can heads bodies offset copies =
    if_second _ _ sized
    ∙ (rw (count, write_request_of)
        (rw (bytes, heads, can) (rw (bytes, put_write, bodies, offset, copies) refl)))

pub create_write_request-WriteMade :
    (plc : Plc) (tag : ModbusTag) (code p : ℕ)
    → (tag.elem_size == 0) ≡ false
    → write_command tag.reg_type ≡ some code
    → length plc.write_data ≡ 300
    → IsPart tag.elem_size
        (registers_per_request max_modbus_request_payload tag)
        tag.elem_count
        tag.request_num
        tag.size
    → p ≡ min 246 (tag.size - 246 * tag.request_num)
    → 246 * tag.request_num + p ≤ length tag.buffer
    → (d : Bytes) × WriteMade plc tag code p d
create_write_request-WriteMade plc tag code p sized can room part is_p fit =
    let k = tag.request_num in
    let seq = next_seq_id plc.seq_id in
    let per = registers_per_request max_modbus_request_payload tag in
    let n = min per (tag.elem_count - k * per) in
    let base = tag.reg_base + k * per in
    let (h, a) =
      write_bytes-Put (started plc) (header_bytes plc seq (p + 7)) (omega (arith, room)) in
    let (g, b) =
      write_bytes-Put (with_frame (started plc) h 7) (body_bytes code base n p)
        (omega (arith, a.same_length, room)) in
    let (d, c) =
      copy_bytes-Copied p 0 tag.buffer (246 * k) g 13 (omega arith)
        (omega (arith, a.same_length, b.same_length, room)) in
    let bytes : (n * tag.elem_size + 7) / 8 ≡ p = part.bytes ∙ sym is_p in
    (
      d,
      record {
        runs =
            create_write_request-runs plc tag code p n h g d sized
              (register_count_lem per tag part.below) bytes can a.runs b.runs part.offset c.runs;
        same_length = c.same_length ∙ (b.same_length ∙ a.same_length);
        frame = record {
          seq_high =
              c.kept 0 (inl (omega arith))
              ∙ (b.kept 0 (inl (omega arith)) ∙ a.placed 0 (omega arith));
          seq_low =
              c.kept 1 (inl (omega arith))
              ∙ (b.kept 1 (inl (omega arith)) ∙ a.placed 1 (omega arith));
          length_high =
              c.kept 4 (inl (omega arith))
              ∙ (b.kept 4 (inl (omega arith)) ∙ a.placed 4 (omega arith));
          length_low =
              c.kept 5 (inl (omega arith))
              ∙ (b.kept 5 (inl (omega arith)) ∙ a.placed 5 (omega arith));
          command = c.kept 7 (inl (omega arith)) ∙ b.placed 0 (omega arith);
          payload_length = c.kept 12 (inl (omega arith)) ∙ b.placed 5 (omega arith);
          payload = λ i lt. c.copied i (omega arith) (omega arith);
        };
      },
    )
