-- ===== src/Modbus.antt =====
-- The Modbus protocol of libplctag/src/libplctag/protocols/mb/modbus.c: the state of a PLC and of
-- a tag, and the slots for the requests in flight. A buffer access outside a buffer is undefined
-- behaviour, `none`. The mutexes make a call one step, waking a thread changes no state, and the
-- pointers to a PLC and a tag are not null.
pub mod Requests
pub mod Responses
pub mod Operations
pub mod Slots
pub mod Frames
pub mod ReadFrame
pub mod ReadPayload
pub mod Exchange
pub mod ReadSteps
pub mod ReadRound
pub mod Reading
pub mod Stuck
pub mod WriteFrame
pub mod Writing
pub mod Connection
pub mod Pieces
pub mod Assembly
mod Tests
use junk.Prelude.{
  ℕ, suc, ◌+◌, ◌*◌, ◌/◌, ◌%◌, ◌^◌, Bool, true, false, List, [], ◌∷◌, Option, none, some, map,
  if◌then◌else◌, ◌==◌, ◌||◌, ℤ, pos, negsuc, to_unsigned,
}
use junk.Memory.{Bytes}
use junk.Status.{status_ok, err_busy, err_no_resources}
use junk.Operation.{Live, int8}

pub data RegType : Type 0 where
  unknown coil discrete_input holding_register input_register : RegType

pub data TagOp : Type 0 where
  idle read_request read_response write_request write_response : TagOp

pub data PlcState : Type 0 where
  connect_start connect_wait ready build_request send_request receive_response err_wait : PlcState

-- `struct modbus_plc_t`. Of `tags_with_requests` it has the first `max_requests_in_flight`
-- entries, the only ones that the code uses; 0 is a free one. The socket is there or not, and the
-- time of the inactivity timeout is left out.
pub record Plc : Type 0 where
  pub has_sock : Bool
  pub server_id : ℕ
  pub response_ready : Bool
  pub request_ready : Bool
  pub seq_id : ℕ
  pub state : PlcState
  pub tags_with_requests : List ℕ
  pub read_data_len : ℕ
  pub read_data : Bytes
  pub response_tag_id : ℕ
  pub write_data_len : ℕ
  pub write_data_offset : ℕ
  pub write_data : Bytes
  pub request_tag_id : ℕ

-- `struct modbus_tag_t`; `live` and the next three are parts of `TAG_BASE_STRUCT`. The size of an
-- element is in bits.
pub record ModbusTag : Type 0 where
  pub live : Live
  pub tag_id : ℕ
  pub size : ℕ
  pub buffer : Bytes
  pub reg_type : RegType
  pub reg_base : ℕ
  pub op : TagOp
  pub request_num : ℕ
  pub seq_id : ℕ
  pub request_slot : ℤ
  pub elem_count : ℕ
  pub elem_size : ℕ

abbrev pub max_modbus_request_payload : ℕ
max_modbus_request_payload = 246

abbrev pub max_modbus_response_payload : ℕ
max_modbus_response_payload = 250

-- `(++(plc->seq_id) ? plc->seq_id : ++(plc->seq_id))`, of 16 bits.
unfoldable pub next_seq_id : ℕ → ℕ
next_seq_id n = let next = (n + 1) % 2 ^ 16 in if next == 0 then (next + 1) % 2 ^ 16 else next

-- `(uint8_t)((n >> 8) & 0xFF)` and `(uint8_t)((n >> 0) & 0xFF)`
abbrev pub high_byte : ℤ → ℕ
high_byte n = to_unsigned (2 ^ 16) n / 256

abbrev pub low_byte : ℤ → ℕ
low_byte n = to_unsigned (2 ^ 16) n % 256

abbrev pub set_status : ℤ → ModbusTag → ModbusTag
set_status rc tag = record tag { live = record tag.live { status = int8 rc } }

-- The free slot that the loop finds, and the slots with the tag in it.
unfoldable pub search_slots : ℕ → List ℕ → Option (ℕ × List ℕ)
search_slots id [] = none
search_slots id (s ∷ ss) =
    let later = search_slots id ss in
    if s == 0
    then some (0, id ∷ ss)
    else elim later [ none ↦ none | some (i, ss') ↦ some (suc i, s ∷ ss') ]

abbrev pub is_ready : PlcState → Bool
is_ready ready = true
is_ready _ = false

unfoldable pub find_request_slot : Plc → ModbusTag → Plc × (ModbusTag × ℤ)
find_request_slot plc tag =
    if plc.request_ready
    then (plc, (tag, err_busy))
    else if is_ready plc.state
    then (if tag.tag_id == 0
        then (plc, (tag, err_busy))
        else elim (search_slots tag.tag_id plc.tags_with_requests) [
          | none ↦ (plc, (tag, err_no_resources))
          | some (i, slots) ↦ (
            record plc { tags_with_requests = slots },
            (record tag { request_slot = pos i }, status_ok),
          )
        ])
    else (plc, (tag, err_busy))

unfoldable pub has_slot : ℕ → List ℕ → Bool
has_slot id [] = false
has_slot id (s ∷ ss) = s == id || has_slot id ss

unfoldable pub clear_slots : ℕ → List ℕ → List ℕ
clear_slots id [] = []
clear_slots id (s ∷ ss) = (if s == id then 0 else s) ∷ clear_slots id ss

unfoldable pub clear_request_slot : Plc → ModbusTag → Plc × ModbusTag
clear_request_slot plc tag = (
  record plc { tags_with_requests = clear_slots tag.tag_id plc.tags_with_requests },
  record tag {
    request_slot =
        if has_slot tag.tag_id plc.tags_with_requests then negsuc 0 else tag.request_slot;
  },
)
