-- ===== src/Modbus/Exchange.antt =====
-- One request and its response: what the thread of a PLC does for a tag before and after the
-- connection sends the request and receives the response, by `tickle_tag` in
-- libplctag/src/libplctag/protocols/mb/modbus.c.
use junk.Prelude.{
  ℕ, zero, suc, ◌+◌, ◌-◌, ◌*◌, ◌/◌, ◌≤◌, ◌<◌, ◌≡◌, true, false, Option, some, length, get_or, ◌>>=◌,
}
use junk.Memory.{Bytes}
use junk.Status.{status_ok}
use junk.Modbus.{Plc, ModbusTag}
use junk.Modbus.Operations.{Ticked, ticked, tickle_op}

-- The connection sends the whole request, of which the server sees the bytes of `write_data`, and
-- receives the whole response, of which `read_data` has the bytes.
unfoldable pub exchange : (Bytes → Bytes) → Plc → Plc
exchange server plc = record plc {
  request_ready = false;
  write_data_len = 0;
  write_data_offset = 0;
  response_tag_id = plc.request_tag_id;
  request_tag_id = 0;
  read_data = server plc.write_data;
  read_data_len = 9 + get_or (server plc.write_data) 8 0;
  response_ready = true;
}

unfoldable pub tickle_round : (Bytes → Bytes) → Plc → ModbusTag → Option Ticked
tickle_round server plc tag =
    tickle_op plc tag >>= λ sent. tickle_op (exchange server sent.plc) sent.tag

unfoldable pub tickle_rounds : (Bytes → Bytes) → ℕ → Plc → ModbusTag → Option Ticked
tickle_rounds server zero plc tag = some (ticked plc tag status_ok)
tickle_rounds server (suc n) plc tag =
    tickle_round server plc tag >>= λ r. tickle_rounds server n r.plc r.tag

-- The number in two bytes of a frame, the high byte first.
abbrev pub word_at : Bytes → ℕ → ℕ
word_at w i = get_or w i 0 * 256 + get_or w (i + 1) 0

-- The bytes that `count` registers of `es` bits fill.
abbrev pub payload_of : ℕ → ℕ → ℕ
payload_of es count = (count * es + 7) / 8

-- A server whose registers from number `base` on, of `es` bits each, hold the bytes of `image`: it
-- repeats the sequence number and the command, and gives the registers that the request names.
pub record Serves (server : Bytes → Bytes) (image : Bytes) (base es : ℕ) : Type 0 where
  pub full : (w : Bytes) → length w ≡ 300 → length (server w) ≡ 300
  pub echoes_high : (w : Bytes) → get_or (server w) 0 0 ≡ get_or w 0 0
  pub echoes_low : (w : Bytes) → get_or (server w) 1 0 ≡ get_or w 1 0
  pub echoes_command : (w : Bytes) → get_or (server w) 7 0 ≡ get_or w 7 0
  pub says_length :
      (w : Bytes) → word_at w 10 * es ≤ 2000 → get_or (server w) 8 0 ≡ payload_of es (word_at w 10)
  pub gives :
      (w : Bytes) (i : ℕ)
      → word_at w 10 * es ≤ 2000
      → base ≤ word_at w 8
      → i < payload_of es (word_at w 10)
      → get_or (server w) (9 + i) 0 ≡ get_or image (((word_at w 8 - base) * es) / 8 + i) 0
