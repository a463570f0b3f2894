-- ===== src/Modbus/ReadSteps.antt =====
-- The steps of one request of a read and its response, in
-- libplctag/src/libplctag/protocols/mb/modbus.c.
use mathlib.Core.Path.{subst}
use junk.Prelude.{
  ℕ, ◌+◌, ◌*◌, ◌/◌, ◌%◌, ◌^◌, ◌≤◌, ◌<◌, ◌≡◌, refl, ap, ◌∙◌, ◌⊎◌, List, some, arith, length, get_or,
  true, false, Bool, ◌==◌, ℤ, pos, if_first, if_second, get_elem?-get_or, ==_iff, if◌then◌else◌,
  bit_and,
}
use junk.Memory.{Bytes}
use junk.Status.{status_ok, status_pending, err_partial}
use junk.Modbus.{
  RegType, unknown, coil, discrete_input, holding_register, input_register, read_request,
  read_response, ready, Plc, ModbusTag, next_seq_id, find_request_slot, has_slot, is_ready,
}
use junk.Modbus.Requests.{read_command, create_read_request}
use junk.Modbus.Responses.{
  check_read_response, read_response_of, to_go_on, read_is_over, take_response, copy_payload,
}
use junk.Modbus.Operations.{
  Ticked, ticked, tickle_op, run_op, tag_op_read_request, tag_op_read_response, requested,
  read_responded, is_lost,
}
use junk.Modbus.Slots.{has_free, Taken}
use junk.Modbus.ReadFrame.{read_queued}

-- A tag as `create_tag_object` makes it, of a type that can be read.
pub record IsReadable (tag : ModbusTag) : Type 0 where
  pub element : (tag.elem_size ≡ 1) ⊎ (tag.elem_size ≡ 16)
  pub sized : tag.size ≡ (tag.elem_count * tag.elem_size + 7) / 8
  pub full : length tag.buffer ≡ tag.size
  pub first : tag.reg_base < 2 ^ 16
  pub last : tag.reg_base + tag.elem_count ≤ 2 ^ 16
  pub code : ℕ
  pub can : read_command tag.reg_type ≡ some code
  pub has_id : (tag.tag_id == 0) ≡ false
  pub running : tag.live.abort_requested ≡ false

-- A PLC that can take a request of the tag.
pub record IsAvailable (plc : Plc) (id : ℕ) : Type 0 where
  pub connected : plc.state ≡ ready
  pub nothing_queued : plc.request_ready ≡ false
  pub room : length plc.write_data ≡ 300
  pub free : has_free plc.tags_with_requests ≡ true
  pub absent : has_slot id plc.tags_with_requests ≡ false

pub next_seq_id-bound : (n : ℕ) → next_seq_id n < 2 ^ 16
unfolding next_seq_id
next_seq_id-bound n = ground arith

-- The state between the two ticks of a round, before the exchange.
abbrev pub slotted_plc : Plc → List ℕ → Plc
slotted_plc plc slots = record plc { tags_with_requests = slots }

abbrev pub slotted_tag : ModbusTag → ℕ → ModbusTag
slotted_tag tag slot = record tag { request_slot = pos slot }

pub find_request_slot-takes :
    (plc : Plc) (tag : ModbusTag) (t : Taken tag.tag_id plc.tags_with_requests)
    → plc.state ≡ ready
    → plc.request_ready ≡ false
    → (tag.tag_id == 0) ≡ false
    → find_request_slot plc tag ≡ (slotted_plc plc t.slots, (slotted_tag tag t.slot, status_ok))
unfolding find_request_slot
find_request_slot-takes plc tag t connected nothing_queued has_id =
    if_second _ _ nothing_queued
    ∙ (if_first _ _ (ap is_ready connected) ∙ (if_second _ _ has_id ∙ (rw t.found refl)))

pub not_zero : (e : ℕ) → (e ≡ 1) ⊎ (e ≡ 16) → (e == 0) ≡ false
not_zero e h = ground arith

pub some_injective : {a b : ℕ} → some a ≡ some b → a ≡ b
some_injective h = cc

pub plain_at :
    (c code : ℕ) → (bit_and c 0x80 == 0) ≡ true → c ≡ code → (bit_and code 0x80 == 0) ≡ true
plain_at c code h e = subst (λ b. (bit_and b 0x80 == 0) ≡ true) e h

pub plain_command :
    (ty : RegType) (code : ℕ) → read_command ty ≡ some code → (bit_and code 0x80 == 0) ≡ true
plain_command unknown code h = absurd (ground arith)
plain_command coil code h = plain_at 1 code refl (some_injective h)
plain_command discrete_input code h = plain_at 2 code refl (some_injective h)
plain_command holding_register code h = plain_at 3 code refl (some_injective h)
plain_command input_register code h = plain_at 4 code refl (some_injective h)

-- The first half of a round.
abbrev pub sent : Plc → ModbusTag → (slots : List ℕ) (slot : ℕ) → Bytes → Ticked
sent plc tag slots slot d =
    let queued = read_queued (slotted_plc plc slots) (slotted_tag tag slot) d in
    ticked queued.0 (record queued.1.0 { op = read_response }) status_pending

pub tickle_op-sends :
    (plc : Plc) (tag : ModbusTag) (t : Taken tag.tag_id plc.tags_with_requests) (d : Bytes)
    → find_request_slot plc tag ≡ (slotted_plc plc t.slots, (slotted_tag tag t.slot, status_ok))
    → create_read_request (slotted_plc plc t.slots) (slotted_tag tag t.slot)
      ≡ some (read_queued (slotted_plc plc t.slots) (slotted_tag tag t.slot) d)
    → tag.live.abort_requested ≡ false
    → tag.op ≡ read_request
    → tickle_op plc tag ≡ some (sent plc tag t.slots t.slot d)
unfolding tickle_op run_op tag_op_read_request requested
tickle_op-sends plc tag t d finds builds running op =
    if_second _ _ running ∙ (ap (λ o. run_op o plc tag) op ∙ (rw (finds, builds) refl))

-- What `check_read_response` does with its own response that has no error.
pub check_read_response-takes :
    (plc : Plc) (tag : ModbusTag) (after : Bytes) (partial : Bool) (low high code : ℕ)
    → length plc.read_data ≡ 300
    → get_or plc.read_data 1 0 ≡ low
    → get_or plc.read_data 0 0 ≡ high
    → get_or plc.read_data 7 0 ≡ code
    → (low + high * 256) % 2 ^ 16 ≡ tag.seq_id
    → (bit_and code 0x80 == 0) ≡ true
    → (tag.elem_size == 0) ≡ false
    → copy_payload plc tag ≡ some (after, partial)
    → check_read_response plc tag
      ≡ some (
        take_response plc,
        if partial
            then (to_go_on (record tag { buffer = after }), err_partial)
            else (read_is_over status_ok (record tag { buffer = after }), status_ok),
      )
unfolding check_read_response read_response_of
check_read_response-takes plc tag after partial low high code full is_low is_high is_code seq plain
      sized copied =
    rw
      (
        check_read_response,
        get_elem?-get_or plc.read_data 1 0 (omega arith),
        get_elem?-get_or plc.read_data 0 0 (omega arith),
        get_elem?-get_or plc.read_data 7 0 (omega arith),
        is_low,
        is_high,
        is_code,
        plain,
        sized,
        (==_iff _ _).1 seq,
        copied,
      )
      refl

pub tickle_op-receives :
    (plc : Plc) (tag : ModbusTag) (checked : Plc × (ModbusTag × ℤ))
    → plc.state ≡ ready
    → plc.response_ready ≡ true
    → tag.live.abort_requested ≡ false
    → tag.op ≡ read_response
    → check_read_response plc tag ≡ some checked
    → tickle_op plc tag ≡ some (read_responded checked)
unfolding tickle_op run_op tag_op_read_response
tickle_op-receives plc tag checked connected there running op checks =
    if_second _ _ running
    ∙ (ap (λ o. run_op o plc tag) op
        ∙ (if_second _ _ (ap is_lost connected) ∙ (if_first _ _ there ∙ (rw checks refl))))
