-- ===== src/Modbus/Writing.antt =====
-- The write of a Modbus tag by one request, in libplctag/src/libplctag/protocols/mb/modbus.c.
use mathlib.Core.Path.{subst}
use junk.Prelude.{
  ℕ, ◌+◌, ◌-◌, ◌*◌, ◌%◌, ◌^◌, ◌≤◌, ◌<◌, ◌≡◌, refl, sym, ap, ◌∙◌, ◌⊎◌, inl, inr, List, some, arith,
  length, get_or, true, false, ltb, ◌==◌, ℤ, pos, if_first, if_second, min, get_elem?-get_or,
  ==_iff, bit_and,
}
use junk.Memory.{Bytes}
use junk.Status.{status_ok, status_pending}
use junk.Modbus.{
  RegType, unknown, coil, discrete_input, holding_register, input_register, idle, ready,
  write_request, write_response, Plc, ModbusTag, max_modbus_request_payload, next_seq_id,
  find_request_slot, clear_request_slot, high_byte, low_byte,
}
use junk.Modbus.Requests.{registers_per_request, write_command, create_write_request}
use junk.Modbus.Responses.{
  byte_offset, check_write_response, write_response_of, write_is_over, take_response,
}
use junk.Modbus.Operations.{
  Ticked, ticked, tickle_op, run_op, tag_op_write_request, tag_op_write_response, requested,
  write_responded, complete, is_lost, is_idle, mb_write_start,
}
use junk.Modbus.Slots.{Taken, search_slots-Taken}
use junk.Modbus.WriteFrame.{IsPart, IsPart-of, write_queued, create_write_request-WriteMade}
use junk.Modbus.Exchange.{exchange}
use junk.Modbus.ReadSteps.{
  IsReadable, IsAvailable, next_seq_id-bound, slotted_plc, slotted_tag, find_request_slot-takes,
  not_zero, plain_at, some_injective,
}

-- A server that accepts each write.
pub record Accepts (server : Bytes → Bytes) : Type 0 where
  pub full : (w : Bytes) → length w ≡ 300 → length (server w) ≡ 300
  pub echoes_high : (w : Bytes) → get_or (server w) 0 0 ≡ get_or w 0 0
  pub echoes_low : (w : Bytes) → get_or (server w) 1 0 ≡ get_or w 1 0
  pub echoes_command : (w : Bytes) → get_or (server w) 7 0 ≡ get_or w 7 0

plain_write :
    (ty : RegType) (code : ℕ) → write_command ty ≡ some code → (bit_and code 0x80 == 0) ≡ true
plain_write unknown code h = absurd (ground arith)
plain_write coil code h = plain_at 0x0F code refl (some_injective h)
plain_write discrete_input code h = absurd (ground arith)
plain_write holding_register code h = plain_at 0x10 code refl (some_injective h)
plain_write input_register code h = absurd (ground arith)

-- The first half of the write.
abbrev pub write_sent : Plc → ModbusTag → (slots : List ℕ) (slot : ℕ) → Bytes → ℕ → Ticked
write_sent plc tag slots slot d p =
    let queued = write_queued (slotted_plc plc slots) (slotted_tag tag slot) d p in
    ticked queued.0 (record queued.1.0 { op = write_response }) status_pending

tickle_op-writes :
    (plc : Plc) (tag : ModbusTag) (t : Taken tag.tag_id plc.tags_with_requests) (d : Bytes) (p : ℕ)
    → find_request_slot plc tag ≡ (slotted_plc plc t.slots, (slotted_tag tag t.slot, status_ok))
    → create_write_request (slotted_plc plc t.slots) (slotted_tag tag t.slot)
      ≡ some (write_queued (slotted_plc plc t.slots) (slotted_tag tag t.slot) d p)
    → tag.live.abort_requested ≡ false
    → tag.op ≡ write_request
    → tickle_op plc tag ≡ some (write_sent plc tag t.slots t.slot d p)
unfolding tickle_op run_op tag_op_write_request requested
tickle_op-writes plc tag t d p finds builds running op =
    if_second _ _ running ∙ (ap (λ o. run_op o plc tag) op ∙ (rw (finds, builds) refl))

check_write_response-ends :
    (plc : Plc) (tag : ModbusTag) (low high code : ℕ)
    → length plc.read_data ≡ 300
    → get_or plc.read_data 1 0 ≡ low
    → get_or plc.read_data 0 0 ≡ high
    → get_or plc.read_data 7 0 ≡ code
    → (low + high * 256) % 2 ^ 16 ≡ tag.seq_id
    → (bit_and code 0x80 == 0) ≡ true
    → (tag.elem_size == 0) ≡ false
    → ltb (byte_offset (tag.request_num + 1) tag) tag.size ≡ false
    → check_write_response plc tag
      ≡ some (take_response plc, (write_is_over status_ok tag, status_ok))
unfolding check_write_response write_response_of
check_write_response-ends plc tag low high code full is_low is_high is_code seq plain sized ends =
    rw
      (
        check_write_response,
        get_elem?-get_or plc.read_data 1 0 (omega arith),
        get_elem?-get_or plc.read_data 0 0 (omega arith),
        get_elem?-get_or plc.read_data 7 0 (omega arith),
        is_low,
        is_high,
        is_code,
        plain,
        sized,
        (==_iff _ _).1 seq,
        ends,
      )
      refl

tickle_op-written :
    (plc : Plc) (tag : ModbusTag) (checked : Plc × (ModbusTag × ℤ))
    → plc.state ≡ ready
    → plc.response_ready ≡ true
    → tag.live.abort_requested ≡ false
    → tag.op ≡ write_response
    → check_write_response plc tag ≡ some checked
    → tickle_op plc tag ≡ some (write_responded checked)
unfolding tickle_op run_op tag_op_write_response
tickle_op-written plc tag checked connected there running op checks =
    if_second _ _ running
    ∙ (ap (λ o. run_op o plc tag) op
        ∙ (if_second _ _ (ap is_lost connected) ∙ (if_first _ _ there ∙ (rw checks refl))))

-- Two hundred and fifty bytes are over after the first request, whatever it carried.
ends_at_once :
    (tag : ModbusTag)
    → (tag.elem_size ≡ 1) ⊎ (tag.elem_size ≡ 16)
    → tag.request_num ≡ 0
    → tag.size ≤ 250
    → ltb (byte_offset (tag.request_num + 1) tag) tag.size ≡ false
ends_at_once tag h start le =
    let at : byte_offset (tag.request_num + 1) tag ≡ 250 = elim h [
      | inl e ↦ rw (e, start) refl
      | inr e ↦ rw (e, start) refl
    ] in
    ground (arith, at)

-- What is sent, and how the write ends.
pub record IsWritten (server : Bytes → Bytes) (plc : Plc) (begun : ModbusTag) (s t : Ticked)
    : Type 0 where
  pub sends : tickle_op plc begun ≡ some s
  pub is_queued : s.plc.request_ready ≡ true
  pub frame_length : s.plc.write_data_len ≡ 13 + min 246 begun.size
  pub says_length :
      get_or s.plc.write_data 5 0 + 256 * get_or s.plc.write_data 4 0 ≡ min 246 begun.size + 7
  pub payload :
      (i : ℕ)
      → i < min 246 begun.size
      → get_or s.plc.write_data (13 + i) 0 ≡ get_or begun.buffer i 0
  pub receives : tickle_op (exchange server s.plc) s.tag ≡ some t
  pub ended : t.tag.op ≡ idle
  pub is_ok : t.tag.live.status ≡ status_ok
  pub is_over : t.tag.live.write_in_flight ≡ false
  pub slots : t.plc.tags_with_requests ≡ plc.tags_with_requests

writes :
    (server : Bytes → Bytes) (plc : Plc) (tag : ModbusTag) (code : ℕ)
    → Accepts server
    → IsReadable tag
    → write_command tag.reg_type ≡ some code
    → IsAvailable plc tag.tag_id
    → tag.op ≡ write_request
    → tag.request_num ≡ 0
    → tag.size ≤ 250
    → (s : Ticked) × (t : Ticked) × IsWritten server plc tag s t
unfolding exchange write_responded complete clear_request_slot write_is_over
writes server plc tag code a r can v op start le =
    let p = min 246 (tag.size - 246 * tag.request_num) in
    let t = search_slots-Taken tag.tag_id plc.tags_with_requests v.free in
    let plc1 = slotted_plc plc t.slots in
    let tag1 = slotted_tag tag t.slot in
    let sized = not_zero tag.elem_size r.element in
    let part = IsPart-of tag.elem_size tag.elem_count tag.request_num r.element (inr start) in
    let (d, q) =
      create_write_request-WriteMade plc1 tag1 code p sized can v.room
        (subst
          (λ z.
            IsPart tag.elem_size (registers_per_request max_modbus_request_payload tag)
              tag.elem_count tag.request_num z)
          (sym r.sized) part)
        refl (omega (arith, r.full)) in
    let s = write_sent plc tag t.slots t.slot d p in
    let plc2 = exchange server s.plc in
    let room = q.same_length ∙ v.room in
    let f = q.frame in
    let bound = next_seq_id-bound plc.seq_id in
    let seq = next_seq_id plc.seq_id in
    let checks =
      check_write_response-ends plc2 s.tag (low_byte (pos seq)) (high_byte (pos seq)) code
        (a.full d room) (a.echoes_low d ∙ f.seq_low) (a.echoes_high d ∙ f.seq_high)
        (a.echoes_command d ∙ f.command) (omega arith) (plain_write tag.reg_type code can) sized
        (ends_at_once tag r.element start le) in
    (
      s,
      write_responded (take_response plc2, (write_is_over status_ok s.tag, status_ok)),
      record {
        sends =
            tickle_op-writes plc tag t d p
              (find_request_slot-takes plc tag t v.connected v.nothing_queued r.has_id) q.runs
              r.running op;
        is_queued = refl;
        frame_length = omega arith;
        says_length = omega (arith, f.length_high, f.length_low);
        payload = λ i lt. f.payload i (omega arith) ∙ ap (λ j. get_or tag.buffer j 0) (omega arith);
        receives = tickle_op-written plc2 s.tag _ v.connected refl r.running refl checks;
        ended = refl;
        is_ok = refl;
        is_over = refl;
        slots = t.cleared v.absent;
      },
    )

-- A tag as `create_tag_object` makes it, of a type that can be written and of 250 bytes at most,
-- with no request pending and no abort requested, and a connected PLC that has no request to send,
-- a free slot, and no slot of the tag: a write that `mb_write_start` begins puts one request in the
-- buffer, whose payload is the first 246 bytes of the tag's data, or all of them if there are
-- fewer, with a length field that agrees. If the server accepts it, the tag is then idle with
-- status OK, with no write in flight, and the slots are as before. So of a tag of 247 to 250 bytes
-- the bytes from the 247th on are reported as written, and never sent.
pub writing-IsWritten :
    (server : Bytes → Bytes) (plc : Plc) (tag : ModbusTag) (code : ℕ)
    → Accepts server
    → IsReadable tag
    → write_command tag.reg_type ≡ some code
    → IsAvailable plc tag.tag_id
    → tag.op ≡ idle
    → tag.request_num ≡ 0
    → tag.size ≤ 250
    → (s : Ticked) × (t : Ticked) × IsWritten server plc (mb_write_start tag).0 s t
unfolding mb_write_start
writing-IsWritten server plc tag code a r can v op start le =
    let begun = record tag { op = write_request } in
    let starts : (mb_write_start tag).0 ≡ begun =
      ap (λ (u : ModbusTag × ℤ). u.0) (if_first _ _ (ap is_idle op)) in
    let still : IsReadable begun = record {
      element = r.element;
      sized = r.sized;
      full = r.full;
      first = r.first;
      last = r.last;
      code = r.code;
      can = r.can;
      has_id = r.has_id;
      running = r.running;
    } in
    let (s, t, w) = writes server plc begun code a still can v refl start le in
    (s, t, subst (λ u. IsWritten server plc u s t) (sym starts) w)
