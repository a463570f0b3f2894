-- ===== src/Modbus/Connection.antt =====
-- The connection of a PLC in libplctag/src/libplctag/protocols/mb/modbus.c: `send_request`,
-- `receive_response`, and what `modbus_plc_handler` does in each state after it has ticked the
-- tags. What the socket does is a value: the results of its functions, one by one.
use junk.Prelude.{
  ℕ, ◌+◌, ◌-◌, ◌*◌, Bool, true, false, List, [], ◌∷◌, Option, none, some, if◌then◌else◌, ◌>>=◌, ℤ,
  pos, pos_part, ltb, leb, leb_ℤ, ◌==◌, ◌==ℤ◌, ◌&&◌, ◌||◌, not, length,
}
use junk.Memory.{Bytes, load}
use junk.Status.{
  status_ok, status_pending, err_too_large, err_timeout, err_bad_connection, err_no_data,
}
use junk.Tag.Raw.{copy_bytes}
use junk.Modbus.{
  PlcState, connect_start, connect_wait, ready, build_request, send_request, receive_response,
  err_wait, Plc,
}

abbrev pub modbus_mbap_size : ℕ
modbus_mbap_size = 6

abbrev pub plc_read_data_len : ℕ
plc_read_data_len = 300

-- What `socket_read` does: it gives bytes, or a negative result.
pub data SocketRead : Type 0 where
  got : Bytes → SocketRead
  failed : ℤ → SocketRead

-- A state with a result, and the reads that are left.
pub record Received : Type 0 where
  pub plc : Plc
  pub rc : ℤ
  pub rest : List SocketRead

abbrev pub received : Plc → ℤ → List SocketRead → Received
received plc rc rest = record { plc = plc; rc = rc; rest = rest }

-- How many bytes are needed, or none if the packet is too large or has been passed.
abbrev pub packet_needed : Plc → ℕ → Option ℕ
packet_needed plc packet_size =
    if ltb (modbus_mbap_size + packet_size) plc.read_data_len
    then none
    else if ltb plc_read_data_len (modbus_mbap_size + packet_size - plc.read_data_len)
    then none
    else some (modbus_mbap_size + packet_size - plc.read_data_len)

unfoldable pub data_needed : Plc → Option (Option ℕ)
data_needed plc =
    if leb modbus_mbap_size plc.read_data_len
    then (do
      low ← load plc.read_data 5
      high ← load plc.read_data 4
      some (packet_needed plc (low + high * 256)))
    else some (some (modbus_mbap_size - plc.read_data_len))

-- The bytes that the socket gives, behind those that are there.
unfoldable pub take_bytes : Bytes → Plc → Option Plc
take_bytes bs plc = copy_bytes (length bs) 0 bs 0 plc.read_data plc.read_data_len >>= λ read.
    some (record plc { read_data = read; read_data_len = plc.read_data_len + length bs })

-- The loop, with the results of its reads; the read after the last of them times out.
unfoldable pub receive_loop : List SocketRead → Plc → Option Received
receive_loop [] plc = data_needed plc >>= λ answer. elim answer [
  | none ↦ some (received plc err_too_large [])
  | some needed ↦
      if needed == 0
      then some (received (record plc { response_ready = true }) status_ok [])
      else some (received plc status_pending [])
]
receive_loop (failed rc ∷ reads) plc = data_needed plc >>= λ answer. elim answer [
  | none ↦ some (received plc err_too_large (failed rc ∷ reads))
  | some needed ↦
      if needed == 0
      then some (received (record plc { response_ready = true }) status_ok (failed rc ∷ reads))
      else some (received plc (if rc ==ℤ err_timeout then status_pending else rc) reads)
]
receive_loop (got bs ∷ reads) plc = data_needed plc >>= λ answer. elim answer [
  | none ↦ some (received plc err_too_large (got bs ∷ reads))
  | some needed ↦
      if needed == 0
      then some (received (record plc { response_ready = true }) status_ok (got bs ∷ reads))
      else (take_bytes bs plc >>= λ plc'.
          let later = receive_loop reads plc' in
          if length bs == 0 then some (received plc' status_pending reads) else later)
]

unfoldable pub receive_response_with : List SocketRead → Plc → Option Received
receive_response_with reads plc =
    if plc.has_sock then receive_loop reads plc else some (received plc status_ok reads)

-- `written` is the result of `socket_write`.
unfoldable pub send_request_with : ℤ → Plc → Plc × ℤ
send_request_with written plc =
    if not plc.has_sock
    then (plc, err_bad_connection)
    else if not plc.request_ready
    then (plc, err_no_data)
    else if leb_ℤ (pos 0) written || written ==ℤ err_timeout
    then (let sent = record plc { write_data_offset = plc.write_data_offset + pos_part written } in
        if sent.write_data_len == sent.write_data_offset
        then (
          record sent {
            write_data_len = 0;
            write_data_offset = 0;
            response_tag_id = sent.request_tag_id;
            request_tag_id = 0;
          },
          status_ok,
        )
        else (sent, status_pending))
    else (plc, written)

-- The results of the socket's functions and of `connect_plc`, and whether the wait after an error
-- is over.
pub record World : Type 0 where
  pub connected : ℤ
  pub checked : ℤ
  pub has_failed : Bool
  pub can_write : Bool
  pub can_read : Bool
  pub written : ℤ
  pub reads : List SocketRead
  pub wait_is_over : Bool

-- `connect_plc` clears the buffers when it has opened the socket.
abbrev pub opened : Plc → Plc
opened plc = record plc {
  has_sock = true;
  request_ready = false;
  response_ready = false;
  read_data_len = 0;
  write_data_len = 0;
  write_data_offset = 0;
}

abbrev pub closed : Plc → PlcState → Plc
closed plc next = record plc { has_sock = false; state = next }

abbrev pub reset : Plc → Plc
reset plc = record (closed plc connect_start) {
  response_ready = false;
  request_ready = false;
  read_data_len = 0;
  write_data_len = 0;
  write_data_offset = 0;
}

-- A response that no tag has taken.
unfoldable pub drop_orphan : Plc → Plc
drop_orphan plc =
    if plc.response_ready then record plc { response_ready = false; read_data_len = 0 } else plc

unfoldable pub start_connection : ℤ → Plc → Plc
start_connection rc plc =
    if rc ==ℤ status_pending
    then record (opened plc) { state = connect_wait }
    else if rc ==ℤ status_ok
    then record (opened plc) { state = ready }
    else closed plc err_wait

unfoldable pub check_connection : ℤ → Plc → Plc
check_connection rc plc =
    if rc ==ℤ status_ok
    then record plc { state = ready }
    else if rc ==ℤ err_timeout
    then plc
    else closed plc err_wait

unfoldable pub await_events : World → Plc → Plc
await_events w plc =
    if w.has_failed
    then closed plc connect_start
    else if w.can_write && plc.request_ready
    then record plc { state = send_request }
    else (let cleared =
          if w.can_write then record plc { write_data_len = 0; write_data_offset = 0 } else plc in
        if w.can_read then record cleared { state = receive_response } else cleared)

unfoldable pub sent_request : Plc × ℤ → Plc
sent_request (plc, rc) =
    if rc ==ℤ status_ok
    then record plc {
      request_ready = false;
      write_data_len = 0;
      write_data_offset = 0;
      state = ready;
    }
    else if rc ==ℤ status_pending
    then plc
    else reset plc

unfoldable pub got_response : Received → Plc
got_response r =
    if r.rc ==ℤ status_ok
    then record r.plc { response_ready = true; state = ready }
    else if r.rc ==ℤ status_pending
    then r.plc
    else reset r.plc

-- The `switch(plc->state)`.
unfoldable pub step_state : PlcState → World → Plc → Option Plc
step_state connect_start w plc = some (start_connection w.connected plc)
step_state connect_wait w plc = some (check_connection w.checked plc)
step_state ready w plc = some (await_events w plc)
step_state build_request w plc = some (record plc { state = connect_start })
step_state send_request w plc = some (sent_request (send_request_with w.written plc))
step_state receive_response w plc = receive_response_with w.reads plc >>= λ r. some (got_response r)
step_state err_wait w plc =
    let quiet = record plc { has_sock = false } in
    some (if w.wait_is_over then record quiet { state = connect_start } else quiet)

-- One round of `modbus_plc_handler`, after `tickle_all_tags`.
unfoldable pub step_plc : World → Plc → Option Plc
step_plc w plc = let plc' = drop_orphan plc in step_state plc'.state w plc'
