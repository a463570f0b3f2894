-- ===== src/Modbus/Operations.antt =====
-- What the thread of a PLC does for one tag, and the functions of the tag's table, in
-- libplctag/src/libplctag/protocols/mb/modbus.c.
use junk.Prelude.{true, false, Bool, [], Option, some, if◌then◌else◌, ◌>>=◌, ℤ, ◌==ℤ◌, not}
use junk.Status.{status_ok, status_pending, err_partial, err_no_match, err_busy}
use junk.Event.{Event, read_completed, write_completed, Calls}
use junk.Operation.{Live, int8, raise_on, handle_on}
use junk.Modbus.{
  TagOp, idle, read_request, read_response, write_request, write_response, PlcState, connect_start,
  connect_wait, ready, build_request, send_request, receive_response, err_wait, Plc, ModbusTag,
  set_status, find_request_slot, clear_request_slot,
}
use junk.Modbus.Requests.{create_read_request, create_write_request}
use junk.Modbus.Responses.{check_read_response, check_write_response}

-- The states afterwards, the result, and the calls of the client's callback.
pub record Ticked : Type 0 where
  pub plc : Plc
  pub tag : ModbusTag
  pub rc : ℤ
  pub calls : Calls

abbrev pub ticked : Plc → ModbusTag → ℤ → Ticked
ticked plc tag rc = record { plc = plc; tag = tag; rc = rc; calls = [] }

abbrev pub read_over : Live → Live
read_over t = record t { read_complete = true; read_in_flight = false }

abbrev pub write_over : Live → Live
write_over t = record t { write_complete = true; write_in_flight = false }

-- The operation is over: `ending` sets the flags, then come the status, the event, its callbacks.
unfoldable pub complete : (Live → Live) → Event → ℤ → Plc → ModbusTag → Ticked
complete ending event rc plc tag =
    let (plc', tag') = clear_request_slot plc tag in
    let (live, calls) =
      handle_on (raise_on event (int8 rc) (record (ending tag'.live) { status = int8 rc })) in
    record {
      plc = plc';
      tag = record tag' { op = idle; live = live };
      rc = status_ok;
      calls = calls;
    }

abbrev pub response_taken : Plc → Plc
response_taken plc = record plc { response_ready = false }

-- The request is built, or not, and the tag waits for the response `next`.
unfoldable pub requested : TagOp → (Live → Live) → Event → Plc × (ModbusTag × ℤ) → Ticked
requested next ending event (plc, (tag, rc)) =
    if rc ==ℤ status_ok
    then ticked (record plc { request_ready = true }) (record tag { op = next }) status_pending
    else complete ending event rc plc tag

unfoldable pub tag_op_read_request : Plc → ModbusTag → Option Ticked
tag_op_read_request plc tag =
    let (plc', (tag', found)) = find_request_slot plc tag in
    if found ==ℤ status_ok
    then (create_read_request plc' tag' >>= λ made.
        some (requested read_response read_over read_completed made))
    else some (ticked plc' tag' status_pending)

unfoldable pub tag_op_write_request : Plc → ModbusTag → Option Ticked
tag_op_write_request plc tag =
    let (plc', (tag', found)) = find_request_slot plc tag in
    if found ==ℤ status_ok
    then (create_write_request plc' tag' >>= λ made.
        some (requested write_response write_over write_completed made))
    else some (ticked plc' tag' status_pending)

-- `PLC_CONNECT_START`, `PLC_CONNECT_WAIT` and `PLC_ERR_WAIT`
abbrev pub is_lost : PlcState → Bool
is_lost connect_start = true
is_lost connect_wait = true
is_lost ready = false
is_lost build_request = false
is_lost send_request = false
is_lost receive_response = false
is_lost err_wait = true

-- An error is overwritten by OK before it comes to the status and the event.
unfoldable pub read_responded : Plc × (ModbusTag × ℤ) → Ticked
read_responded (plc, (tag, rc)) =
    if rc ==ℤ err_partial
    then (let (plc', tag') = clear_request_slot plc tag in
        ticked (response_taken plc') (record tag' { op = read_request }) status_ok)
    else if rc ==ℤ err_no_match
    then ticked plc tag status_pending
    else complete read_over read_completed status_ok (response_taken plc) (set_status rc tag)

unfoldable pub tag_op_read_response : Plc → ModbusTag → Option Ticked
tag_op_read_response plc tag =
    if is_lost plc.state
    then some (ticked plc (record tag { op = read_request }) status_ok)
    else if plc.response_ready
    then (check_read_response plc tag >>= λ checked. some (read_responded checked))
    else some (ticked plc tag status_pending)

unfoldable pub write_responded : Plc × (ModbusTag × ℤ) → Ticked
write_responded (plc, (tag, rc)) =
    if rc ==ℤ status_ok
    then complete write_over write_completed rc (response_taken plc) tag
    else if rc ==ℤ err_partial
    then ticked (response_taken plc) (record tag { op = write_request }) status_ok
    else if rc ==ℤ err_no_match
    then ticked plc tag status_pending
    else complete write_over write_completed rc (response_taken plc) tag

unfoldable pub tag_op_write_response : Plc → ModbusTag → Option Ticked
tag_op_write_response plc tag =
    if is_lost plc.state
    then some (ticked plc (record tag { op = write_request }) status_ok)
    else if plc.response_ready
    then (check_write_response plc tag >>= λ checked. some (write_responded checked))
    else some (ticked plc tag status_pending)

-- `switch(op)`; the fifth operation is the last.
unfoldable pub run_op : TagOp → Plc → ModbusTag → Option Ticked
run_op idle plc tag = some (ticked plc tag status_ok)
run_op read_request plc tag = tag_op_read_request plc tag
run_op read_response plc tag = tag_op_read_response plc tag
run_op write_request plc tag = tag_op_write_request plc tag
run_op write_response plc tag = tag_op_write_response plc tag

-- `tickle_tag`, up to its call of `plc_tag_generic_tickler`. A request to abort changes the local
-- `op` and not the tag's.
unfoldable pub tickle_op : Plc → ModbusTag → Option Ticked
tickle_op plc tag =
    if tag.live.abort_requested
    then (let (plc', tag') =
          clear_request_slot plc
            (record tag { live = record tag.live { abort_requested = false } }) in
        run_op idle plc' tag')
    else run_op tag.op plc tag

unfoldable pub mb_abort : Plc → ModbusTag → (Plc × ModbusTag) × ℤ
mb_abort plc tag = (
  clear_request_slot plc
      (set_status status_ok (record tag { seq_id = 0; request_num = 0; op = idle })),
  status_ok,
)

abbrev pub is_idle : TagOp → Bool
is_idle idle = true
is_idle _ = false

unfoldable pub mb_read_start : ModbusTag → ModbusTag × ℤ
mb_read_start tag =
    if is_idle tag.op then (record tag { op = read_request }, status_pending) else (tag, err_busy)

unfoldable pub mb_write_start : ModbusTag → ModbusTag × ℤ
mb_write_start tag =
    if is_idle tag.op then (record tag { op = write_request }, status_pending) else (tag, err_busy)

unfoldable pub mb_tag_status : ModbusTag → ℤ
mb_tag_status tag =
    if not (tag.live.status ==ℤ status_ok)
    then tag.live.status
    else if is_idle tag.op
    then status_ok
    else status_pending
