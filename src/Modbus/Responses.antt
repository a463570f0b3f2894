-- ===== src/Modbus/Responses.antt =====
-- `check_read_response`, `check_write_response` and `translate_modbus_error` of
-- libplctag/src/libplctag/protocols/mb/modbus.c, on the response in `read_data`.
use junk.Prelude.{
  ℕ, ◌+◌, ◌-◌, ◌*◌, ◌/◌, ◌%◌, ◌^◌, true, false, Bool, Option, none, some, if◌then◌else◌, ◌==◌, not,
  ltb, min, ◌>>=◌, ◌&&◌, ℤ, bit_and,
}
use junk.Memory.{Bytes, load}
use junk.Status.{
  status_ok, status_pending, err_unsupported, err_not_found, err_bad_param, err_remote_err,
  err_partial, err_busy, err_no_match,
}
use junk.Operation.{int8}
use junk.Tag.Raw.{copy_bytes}
use junk.Modbus.{Plc, ModbusTag, max_modbus_response_payload, set_status}
use junk.Modbus.Requests.{registers_per_request}

unfoldable pub translate_modbus_error : ℕ → ℤ
translate_modbus_error code =
    if code == 0x01
    then err_unsupported
    else if code == 0x02
    then err_not_found
    else if code == 0x03
    then err_bad_param
    else if code == 0x04
    then err_remote_err
    else if code == 0x05
    then err_partial
    else if code == 0x06
    then err_busy
    else if code == 0x07
    then err_unsupported
    else if code == 0x08
    then err_remote_err
    else err_unsupported

-- `(uint16_t)plc->read_data[1] + (uint16_t)(plc->read_data[0] << 8)`
abbrev pub response_seq_id : Plc → Option ℕ
response_seq_id plc = do
  low ← load plc.read_data 1
  high ← load plc.read_data 0
  some ((low + high * 256) % 2 ^ 16)

-- `plc->read_data[7] & (uint8_t)0x80`
abbrev pub has_error : Plc → Option Bool
has_error plc = do code ← load plc.read_data 7; some (not (bit_and code 0x80 == 0))

-- The status that the error code stands for.
abbrev pub response_error : Plc → Option ℤ
response_error plc = do code ← load plc.read_data 8; some (translate_modbus_error code)

-- `plc->read_data_len = 0; plc->flags.response_ready = 0;`
abbrev pub take_response : Plc → Plc
take_response plc = record plc { read_data_len = 0; response_ready = false }

-- More requests are needed.
abbrev pub to_go_on : ModbusTag → ModbusTag
to_go_on tag =
    set_status status_pending (record tag { request_num = (tag.request_num + 1) % 2 ^ 16 })

unfoldable pub read_is_over : ℤ → ModbusTag → ModbusTag
read_is_over rc tag = record tag {
  seq_id = 0;
  request_num = 0;
  live = record tag.live { read_complete = true; read_in_flight = false; status = int8 rc };
}

unfoldable pub write_is_over : ℤ → ModbusTag → ModbusTag
write_is_over rc tag = record tag {
  seq_id = 0;
  request_num = 0;
  live = record tag.live { write_complete = true; write_in_flight = false; status = int8 rc };
}

-- `(register_offset * tag->elem_size) / 8`, where the data of a request starts.
abbrev pub byte_offset : ℕ → ModbusTag → ℕ
byte_offset request tag =
    ((request * registers_per_request max_modbus_response_payload tag) * tag.elem_size) / 8

-- The payload goes into the tag's data; a negative size copies nothing. Is there more to read?
unfoldable pub copy_payload : Plc → ModbusTag → Option (Bytes × Bool)
copy_payload plc tag = do
  payload ← load plc.read_data 8
  let from = byte_offset tag.request_num tag
  let size = min (tag.size - from) payload
  copied ← copy_bytes size 0 plc.read_data 9 tag.buffer from
  some (copied, ltb (from + size) tag.size)

unfoldable pub read_response_of : Plc → ModbusTag → Bool → Option (Plc × (ModbusTag × ℤ))
read_response_of plc tag true =
    response_error plc >>= λ rc. some (take_response plc, (read_is_over rc tag, rc))
read_response_of plc tag false = copy_payload plc tag >>= λ (copied, partial).
    let tag' = record tag { buffer = copied } in
    some (
      take_response plc,
      if partial then (to_go_on tag', err_partial) else (read_is_over status_ok tag', status_ok),
    )

unfoldable pub check_read_response : Plc → ModbusTag → Option (Plc × (ModbusTag × ℤ))
check_read_response plc tag = response_seq_id plc >>= λ seq.
    if seq == tag.seq_id
    then (has_error plc >>= λ error.
        if tag.elem_size == 0 && not error then none else read_response_of plc tag error)
    else some (plc, (tag, err_no_match))

unfoldable pub write_response_of : Plc → ModbusTag → Bool → Option (Plc × (ModbusTag × ℤ))
write_response_of plc tag true =
    response_error plc >>= λ rc. some (take_response plc, (write_is_over rc tag, rc))
write_response_of plc tag false = some (
  take_response plc,
  if ltb (byte_offset (tag.request_num + 1) tag) tag.size
      then (to_go_on tag, err_partial)
      else (write_is_over status_ok tag, status_ok),
)

unfoldable pub check_write_response : Plc → ModbusTag → Option (Plc × (ModbusTag × ℤ))
check_write_response plc tag = response_seq_id plc >>= λ seq.
    if seq == tag.seq_id
    then (has_error plc >>= λ error.
        if tag.elem_size == 0 && not error then none else write_response_of plc tag error)
    else some (plc, (tag, status_pending))
