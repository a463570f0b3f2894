-- ===== src/Modbus/ReadFrame.antt =====
-- The request that `create_read_request` of libplctag/src/libplctag/protocols/mb/modbus.c builds.
use junk.Prelude.{
  ℕ, ◌+◌, ◌*◌, ◌≤◌, ◌≡◌, refl, ◌∙◌, inl, List, [], ◌∷◌, some, arith, length, get_or, false, ◌==◌, ℤ,
  pos, if_second,
}
use junk.Memory.{Bytes}
use junk.Modbus.{Plc, ModbusTag, max_modbus_response_payload, next_seq_id, high_byte, low_byte}
use junk.Modbus.Requests.{
  registers_per_request, register_count, read_command, queued, put_read, create_read_request,
}
use junk.Modbus.Frames.{with_frame, write_bytes-Put}

-- The bytes that matter for the answer: the sequence number, the command, the first register and
-- the number of registers.
pub record ReadFrame (d : Bytes) (seq code base : ℕ) (count : ℤ) : Type 0 where
  pub seq_high : get_or d 0 0 ≡ high_byte (pos seq)
  pub seq_low : get_or d 1 0 ≡ low_byte (pos seq)
  pub command : get_or d 7 0 ≡ code
  pub base_high : get_or d 8 0 ≡ high_byte (pos base)
  pub base_low : get_or d 9 0 ≡ low_byte (pos base)
  pub count_high : get_or d 10 0 ≡ high_byte count
  pub count_low : get_or d 11 0 ≡ low_byte count

-- The state after `create_read_request`, with the frame `d` of 12 bytes.
abbrev pub read_queued : Plc → ModbusTag → Bytes → Plc × (ModbusTag × ℤ)
read_queued plc tag d =
    let seq = next_seq_id plc.seq_id in
    queued (with_frame (record plc { seq_id = seq }) d 12) tag seq

pub record ReadMade (plc : Plc) (tag : ModbusTag) (code : ℕ) (d : Bytes) : Type 0 where
  pub runs : create_read_request plc tag ≡ some (read_queued plc tag d)
  pub same_length : length d ≡ length plc.write_data
  pub frame :
      let per_request = registers_per_request max_modbus_response_payload tag in
      ReadFrame d
        (next_seq_id plc.seq_id)
        code
        (tag.reg_base + tag.request_num * per_request)
        (register_count per_request tag)

pub create_read_request-ReadMade :
    (plc : Plc) (tag : ModbusTag) (code : ℕ)
    → (tag.elem_size == 0) ≡ false
    → read_command tag.reg_type ≡ some code
    → 12 ≤ length plc.write_data
    → (d : Bytes) × ReadMade plc tag code d
unfolding create_read_request put_read
create_read_request-ReadMade plc tag code sized can room =
    let seq = next_seq_id plc.seq_id in
    let per = registers_per_request max_modbus_response_payload tag in
    let base = tag.reg_base + tag.request_num * per in
    let count = register_count per tag in
    let start = record plc { seq_id = seq; write_data_len = 0 } in
    let first : List ℕ =
      high_byte (pos seq)
      ∷ low_byte (pos seq)
      ∷ 0
      ∷ 0
      ∷ high_byte (pos 6)
      ∷ low_byte (pos 6)
      ∷ plc.server_id
      ∷ [] in
    let (h, p) = write_bytes-Put start first (omega arith) in
    let headed = with_frame start h 7 in
    let second : List ℕ =
      code ∷ high_byte (pos base) ∷ low_byte (pos base) ∷ high_byte count ∷ low_byte count ∷ [] in
    let (d, q) = write_bytes-Put headed second (omega (arith, p.same_length)) in
    (
      d,
      record {
        runs = if_second _ _ sized ∙ (rw (p.runs, can, q.runs) refl);
        same_length = q.same_length ∙ p.same_length;
        frame = record {
          seq_high = q.kept 0 (inl (omega arith)) ∙ p.placed 0 (omega arith);
          seq_low = q.kept 1 (inl (omega arith)) ∙ p.placed 1 (omega arith);
          command = q.placed 0 (omega arith);
          base_high = q.placed 1 (omega arith);
          base_low = q.placed 2 (omega arith);
          count_high = q.placed 3 (omega arith);
          count_low = q.placed 4 (omega arith);
        };
      },
    )
