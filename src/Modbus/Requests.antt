-- ===== src/Modbus/Requests.antt =====
-- `create_read_request` and `create_write_request` of
-- libplctag/src/libplctag/protocols/mb/modbus.c, which build a request in `write_data`.
use junk.Prelude.{
  ℕ, ◌+◌, ◌*◌, ◌/◌, ◌%◌, true, List, [], ◌∷◌, Option, none, some, if◌then◌else◌, ◌==◌, ◌>>=◌, ℤ,
  pos, negsuc, sub_ℕ, ltb_ℤ,
}
use junk.Memory.{store}
use junk.Status.{status_ok, err_unsupported}
use junk.Tag.Raw.{copy_bytes}
use junk.Modbus.{
  RegType, unknown, coil, discrete_input, holding_register, input_register, Plc, ModbusTag,
  max_modbus_request_payload, max_modbus_response_payload, next_seq_id, high_byte, low_byte,
}

-- `plc->write_data[plc->write_data_len] = b; plc->write_data_len++;`, for each byte.
unfoldable pub write_bytes : Plc → List ℕ → Option Plc
write_bytes plc [] = some plc
write_bytes plc (b ∷ bs) = do
  written ← store plc.write_data plc.write_data_len b
  write_bytes (record plc { write_data = written; write_data_len = plc.write_data_len + 1 }) bs

-- `(MAX_MODBUS_…_PAYLOAD * 8) / tag->elem_size`, whose division by 0 is undefined.
abbrev pub registers_per_request : ℕ → ModbusTag → ℕ
registers_per_request payload tag = (payload * 8) / tag.elem_size

-- `tag->elem_count - (tag->request_num * registers_per_request)`, clamped.
unfoldable pub register_count : ℕ → ModbusTag → ℤ
register_count per_request tag =
    let left = sub_ℕ tag.elem_count (tag.request_num * per_request) in
    if ltb_ℤ (pos per_request) left then pos per_request else left

-- `MB_CMD_READ_…_MULTI`, for the types that can be read.
abbrev pub read_command : RegType → Option ℕ
read_command unknown = none
read_command coil = some 0x01
read_command discrete_input = some 0x02
read_command holding_register = some 0x03
read_command input_register = some 0x04

-- `MB_CMD_WRITE_…_MULTI`, for the types that can be written.
abbrev pub write_command : RegType → Option ℕ
write_command unknown = none
write_command coil = some 0x0F
write_command discrete_input = none
write_command holding_register = some 0x10
write_command input_register = none

-- The first seven bytes, with the sequence number and the length of what follows.
abbrev pub put_header : Plc → ℕ → ℕ → Option Plc
put_header plc seq len =
    write_bytes (record plc { seq_id = seq; write_data_len = 0 })
      (high_byte (pos seq)
        ∷ low_byte (pos seq)
        ∷ 0
        ∷ 0
        ∷ high_byte (pos len)
        ∷ low_byte (pos len)
        ∷ plc.server_id
        ∷ [])

-- The request is ready to be sent.
abbrev pub queued : Plc → ModbusTag → ℕ → Plc × (ModbusTag × ℤ)
queued plc tag seq = (
  record plc { request_ready = true; request_tag_id = tag.tag_id },
  (record tag { seq_id = seq }, status_ok),
)

unfoldable pub put_read : Plc → ModbusTag → ℕ → ℕ → Option Plc
put_read plc tag code per_request =
    let base = tag.reg_base + tag.request_num * per_request in
    let count = register_count per_request tag in
    write_bytes plc
      (code ∷ high_byte (pos base) ∷ low_byte (pos base) ∷ high_byte count ∷ low_byte count ∷ [])

unfoldable pub create_read_request : Plc → ModbusTag → Option (Plc × (ModbusTag × ℤ))
create_read_request plc tag =
    let seq = next_seq_id plc.seq_id in
    if tag.elem_size == 0
    then none
    else (put_header plc seq 6 >>= λ headed. elim (read_command tag.reg_type) [
      | none ↦ some (headed, (tag, err_unsupported))
      | some code ↦
          put_read headed tag code (registers_per_request max_modbus_response_payload tag)
          >>= λ built. some (queued built tag seq)
    ])

-- `mem_copy(&plc->write_data[plc->write_data_len], &tag->data[byte_offset], size)` and the length
unfoldable pub put_data : Plc → ModbusTag → ℕ → ℕ → Option Plc
put_data plc tag byte_offset size =
    copy_bytes size 0 tag.buffer byte_offset plc.write_data plc.write_data_len >>= λ written.
    some (record plc { write_data = written; write_data_len = plc.write_data_len + size })

unfoldable pub put_write : Plc → ModbusTag → ℕ → ℕ → ℕ → ℕ → Option Plc
put_write plc tag code per_request count payload =
    let offset = tag.request_num * per_request in
    let base = tag.reg_base + offset in
    write_bytes plc (
      code
      ∷ high_byte (pos base)
      ∷ low_byte (pos base)
      ∷ high_byte (pos count)
      ∷ low_byte (pos count)
      ∷ (payload % 256)
      ∷ [])
    >>= λ plc'. put_data plc' tag ((offset * tag.elem_size) / 8) payload

unfoldable pub write_request_of : Plc → ModbusTag → ℤ → Option (Plc × (ModbusTag × ℤ))
write_request_of plc tag (negsuc n) = none
write_request_of plc tag (pos count) =
    let seq = next_seq_id plc.seq_id in
    let payload = (count * tag.elem_size + 7) / 8 in
    put_header plc seq (payload + 7) >>= λ headed. elim (write_command tag.reg_type) [
      | none ↦ some (headed, (tag, err_unsupported))
      | some code ↦
          put_write headed tag code (registers_per_request max_modbus_request_payload tag) count
            payload
          >>= λ built. some (queued built tag seq)
    ]

-- A request number past the end of the tag, for which the count is negative, is left out.
unfoldable pub create_write_request : Plc → ModbusTag → Option (Plc × (ModbusTag × ℤ))
create_write_request plc tag =
    let per_request = registers_per_request max_modbus_request_payload tag in
    if tag.elem_size == 0 then none else write_request_of plc tag (register_count per_request tag)
