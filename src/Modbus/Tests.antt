-- ===== src/Modbus/Tests.antt =====
-- Runs of the Modbus protocol, and the theorems at some of them.
use junk.Prelude.{
  ℕ, zero, suc, ◌+◌, ◌-◌, ◌*◌, ◌/◌, ◌≡◌, refl, ◌∙◌, true, false, List, [], ◌∷◌, ◌++◌, some, pos,
  negsuc, inl, inr, arith, get_or, take, drop, replicate, length-take, length-append,
  length-replicate, get_or-take, get_or-drop, get_or-append_right,
}
use junk.Memory.{Bytes}
use junk.Status.{status_ok, status_pending, err_timeout}
use junk.Event.Traces.{new_events}
use junk.Operation.{Live}
use junk.Modbus.{
  holding_register, idle, read_response, ready, connect_start, has_slot, Plc, ModbusTag,
}
use junk.Modbus.Operations.{Ticked, ticked, tickle_op, mb_read_start, mb_write_start, mb_abort}
use junk.Modbus.Slots.{has_free}
use junk.Modbus.ReadSteps.{IsReadable, IsAvailable}
use junk.Modbus.Exchange.{word_at, payload_of, Serves, tickle_rounds}
use junk.Modbus.Writing.{Accepts, IsWritten, writing-IsWritten}
use junk.Modbus.Connection.{SocketRead, got, failed, Received}
use junk.Modbus.Pieces.{Delivers, all_there, later, piece}
use junk.Modbus.Assembly.{IsReceived, receive_calls, receive_calls-IsReceived}
use junk.Modbus.Stuck.{restart-IsStuck}
use junk.Modbus.Reading.{IsRead, reading-IsRead}

zeros_after : (xs : Bytes) (n i : ℕ) → get_or (xs ++ replicate n 0) i 0 ≡ get_or xs i 0
zeros_after [] zero i = refl
zeros_after [] (suc n) zero = refl
zeros_after [] (suc n) (suc i) = zeros_after [] n i
zeros_after (x ∷ xs) n zero = refl
zeros_after (x ∷ xs) n (suc i) = zeros_after xs n i

-- A server of registers with the bytes of `image`.
abbrev head_of : ℕ → Bytes → Bytes
head_of es w =
    get_or w 0 0
    ∷ get_or w 1 0
    ∷ 0
    ∷ 0
    ∷ 0
    ∷ 0
    ∷ get_or w 6 0
    ∷ get_or w 7 0
    ∷ payload_of es (word_at w 10)
    ∷ []

abbrev registers_of : Bytes → ℕ → ℕ → Bytes → Bytes
registers_of image base es w = drop (((word_at w 8 - base) * es) / 8) image

abbrev registers : Bytes → ℕ → ℕ → Bytes → Bytes
registers image base es w =
    take 300 (head_of es w ++ (registers_of image base es w ++ replicate 300 0))

registers-Serves : (image : Bytes) (base es : ℕ) → Serves (registers image base es) image base es
registers-Serves image base es = record {
  full = λ w h.
      length-take 300 (head_of es w ++ (registers_of image base es w ++ replicate 300 0))
      ∙ omega (
        arith,
        length-append (registers_of image base es w) (replicate 300 0),
        length-replicate {A = ℕ} 300 0,
      );
  echoes_high = λ w. refl;
  echoes_low = λ w. refl;
  echoes_command = λ w. refl;
  says_length = λ w h. refl;
  gives = λ w i fits le lt.
      get_or-take 300 (head_of es w ++ (registers_of image base es w ++ replicate 300 0)) (9 + i) 0
        (omega arith)
      ∙ (get_or-append_right (head_of es w) (registers_of image base es w ++ replicate 300 0) i 0
          ∙ (zeros_after (registers_of image base es w) 300 i
              ∙ get_or-drop (((word_at w 8 - base) * es) / 8) image i 0));
}

abbrev idle_live : Live
idle_live = record {
  auto_sync_next_read = 0;
  auto_sync_next_write = 0;
  read_cache_expire = 0;
  read_cache_ms = 0;
  auto_sync_read_ms = 0;
  auto_sync_write_ms = 0;
  abort_requested = false;
  status = status_ok;
  read_complete = false;
  read_in_flight = true;
  tag_is_dirty = false;
  write_complete = false;
  write_in_flight = false;
  events = new_events true;
}

-- 126 holding registers, which need two requests.
abbrev registers_tag : ModbusTag
registers_tag = record {
  live = idle_live;
  tag_id = 5;
  size = 252;
  buffer = replicate 252 0;
  reg_type = holding_register;
  reg_base = 40;
  op = idle;
  request_num = 0;
  seq_id = 0;
  request_slot = negsuc 0;
  elem_count = 126;
  elem_size = 16;
}

abbrev connected_plc : Plc
connected_plc = record {
  has_sock = true;
  server_id = 1;
  response_ready = false;
  request_ready = false;
  seq_id = 7;
  state = ready;
  tags_with_requests = 0 ∷ [];
  read_data_len = 0;
  read_data = replicate 300 0;
  response_tag_id = 0;
  write_data_len = 0;
  write_data_offset = 0;
  write_data = replicate 300 0;
  request_tag_id = 0;
}

abbrev sevens : Bytes
sevens = replicate 252 7

registers_tag-IsReadable : IsReadable registers_tag
registers_tag-IsReadable = record {
  element = inr refl;
  sized = refl;
  full = length-replicate {A = ℕ} 252 0;
  first = omega arith;
  last = omega arith;
  code = 3;
  can = refl;
  has_id = refl;
  running = refl;
}

connected_plc-IsAvailable : IsAvailable connected_plc 5
unfolding has_free has_slot
connected_plc-IsAvailable = record {
  connected = refl;
  nothing_queued = refl;
  room = length-replicate {A = ℕ} 300 0;
  free = refl;
  absent = refl;
}

registers-Accepts : Accepts (registers sevens 40 16)
registers-Accepts = record {
  full = (registers-Serves sevens 40 16).full;
  echoes_high = λ w. refl;
  echoes_low = λ w. refl;
  echoes_command = λ w. refl;
}

-- 125 holding registers, of which one request carries 123.
abbrev short_tag : ModbusTag
short_tag = record registers_tag { size = 250; buffer = replicate 250 1; elem_count = 125 }

short_tag-IsReadable : IsReadable short_tag
short_tag-IsReadable = record {
  element = inr refl;
  sized = refl;
  full = length-replicate {A = ℕ} 250 1;
  first = omega arith;
  last = omega arith;
  code = 3;
  can = refl;
  has_id = refl;
  running = refl;
}

-- The tag waits for its response in the one slot when the connection is lost, and comes back.
abbrev waiting_tag : ModbusTag
waiting_tag = record registers_tag { op = read_response; seq_id = 8; request_slot = pos 0 }

abbrev lost_plc : Plc
lost_plc = record connected_plc { state = connect_start; tags_with_requests = 5 ∷ [] }

abbrev again_plc : Plc
again_plc = record lost_plc { state = ready; has_sock = true }

reading-IsRead_example :
    (t : Ticked) × (tickle_rounds
        (registers sevens 40 16)
        2
        connected_plc
        (mb_read_start registers_tag).0
      ≡ some t)
    × IsRead sevens connected_plc t.plc t.tag
reading-IsRead_example =
    reading-IsRead (registers sevens 40 16) sevens 1 connected_plc registers_tag
      (length-replicate {A = ℕ} 252 7) (registers-Serves sevens 40 16) registers_tag-IsReadable
      connected_plc-IsAvailable refl refl (inl (omega arith)) (omega arith)

writing-IsWritten_example :
    (s : Ticked) × (t : Ticked) × IsWritten
      (registers sevens 40 16)
      connected_plc
      (mb_write_start short_tag).0
      s
      t
writing-IsWritten_example =
    writing-IsWritten (registers sevens 40 16) connected_plc short_tag 0x10 registers-Accepts
      short_tag-IsReadable refl connected_plc-IsAvailable refl refl (omega arith)

restart-IsStuck_example :
    (tag' : ModbusTag) × (tickle_op lost_plc waiting_tag ≡ some (ticked lost_plc tag' status_ok))
    × (tickle_op again_plc tag' ≡ some (ticked again_plc tag' status_pending))
    × (has_free (mb_abort again_plc tag').0.0.tags_with_requests ≡ true)
unfolding has_free has_slot
restart-IsStuck_example =
    restart-IsStuck lost_plc again_plc waiting_tag refl refl refl refl (inl refl) refl

-- A response with an error, in three pieces with a timeout.
abbrev refusal : Bytes
refusal = 0 ∷ 8 ∷ 0 ∷ 0 ∷ 0 ∷ 3 ∷ 1 ∷ 0x83 ∷ 2 ∷ []

abbrev pieces : List SocketRead
pieces =
    got (0 ∷ 8 ∷ 0 ∷ 0 ∷ []) ∷ failed err_timeout ∷ got (0 ∷ 3 ∷ []) ∷ got (1 ∷ 0x83 ∷ 2 ∷ []) ∷ []

pieces-Delivers : Delivers refusal 0 pieces
pieces-Delivers =
    piece 4 (omega arith) (omega arith)
      (later (piece 2 (omega arith) (omega arith) (piece 3 (omega arith) (omega arith) all_there)))

receive_calls-IsReceived_example :
    (r : Received) × (receive_calls 5 pieces connected_plc ≡ some r) × IsReceived refusal r
receive_calls-IsReceived_example =
    receive_calls-IsReceived refusal pieces connected_plc
      (record { tells = refl; small = omega arith }) pieces-Delivers
      (record {
        room = length-replicate {A = ℕ} 300 0;
        len = refl;
        bytes = λ i lt. absurd (omega arith);
        sock = refl;
      })
