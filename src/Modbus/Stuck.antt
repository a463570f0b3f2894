-- ===== src/Modbus/Stuck.antt =====
-- What happens to a tag that waits for a response when the connection is lost, in
-- libplctag/src/libplctag/protocols/mb/modbus.c.
use junk.Prelude.{
  ℕ, ◌≡◌, refl, ◌∙◌, ap, ◌⊎◌, inl, inr, true, false, List, [], ◌∷◌, none, some, arith, if_first,
  if_second, Bool-cases, ◌==◌, ℤ, ◌==ℤ◌,
}
use junk.Status.{status_ok, status_pending, err_busy, err_no_resources}
use junk.Modbus.{
  TagOp, read_request, read_response, write_request, write_response, Plc, ModbusTag, search_slots,
  find_request_slot, has_slot, clear_slots, clear_request_slot, is_ready,
}
use junk.Modbus.Operations.{
  ticked, is_lost, run_op, tickle_op, tag_op_read_request, tag_op_read_response,
  tag_op_write_request, tag_op_write_response, mb_abort,
}
use junk.Modbus.Slots.{has_free}

search_slots_full : (id : ℕ) (ss : List ℕ) → has_free ss ≡ false → search_slots id ss ≡ none
unfolding search_slots has_free
search_slots_full id [] h = refl
search_slots_full id (s ∷ ss) h =
    ground (arith, λ (k : has_free ss ≡ false). search_slots_full id ss k)

clear_slots_frees :
    (id : ℕ) (ss : List ℕ) → has_slot id ss ≡ true → has_free (clear_slots id ss) ≡ true
unfolding has_slot has_free clear_slots
clear_slots_frees id [] h = absurd (ground arith)
clear_slots_frees id (s ∷ ss) h =
    ground (arith, λ (k : has_slot id ss ≡ true). clear_slots_frees id ss k)

-- The search gives no slot, whatever else the PLC does.
record NoSlot (plc : Plc) (tag : ModbusTag) : Type 0 where
  rc : ℤ
  runs : find_request_slot plc tag ≡ (plc, (tag, rc))
  refused : (rc ==ℤ status_ok) ≡ false

find_request_slot-NoSlot :
    (plc : Plc) (tag : ModbusTag) → has_free plc.tags_with_requests ≡ false → NoSlot plc tag
unfolding find_request_slot
find_request_slot-NoSlot plc tag full =
    let none_left = search_slots_full tag.tag_id plc.tags_with_requests full in
    elim (Bool-cases plc.request_ready) [
      | inl b ↦ record { rc = err_busy; runs = if_first _ _ b; refused = refl }
      | inr b ↦ elim (Bool-cases (is_ready plc.state)) [
        | inl c ↦ elim (Bool-cases (tag.tag_id == 0)) [
          | inl d ↦ record {
            rc = err_busy;
            runs = if_second _ _ b ∙ (if_first _ _ c ∙ if_first _ _ d);
            refused = refl;
          }
          | inr d ↦ record {
            rc = err_no_resources;
            runs = if_second _ _ b ∙ (if_first _ _ c ∙ (if_second _ _ d ∙ (rw none_left refl)));
            refused = refl;
          }
        ]
        | inr c ↦ record { rc = err_busy; runs = if_second _ _ b ∙ if_second _ _ c; refused = refl }
      ]
    ]

run_op-waits :
    (op : TagOp) (plc : Plc) (tag : ModbusTag)
    → (op ≡ read_request) ⊎ (op ≡ write_request)
    → NoSlot plc tag
    → run_op op plc tag ≡ some (ticked plc tag status_pending)
unfolding run_op tag_op_read_request tag_op_write_request
run_op-waits op plc tag (inl e) n = ap (λ o. run_op o plc tag) e ∙ (rw (n.runs, n.refused) refl)
run_op-waits op plc tag (inr e) n = ap (λ o. run_op o plc tag) e ∙ (rw (n.runs, n.refused) refl)

-- The tag gives up its response and is to send its request again.
record Restarted (plc : Plc) (tag : ModbusTag) : Type 0 where
  op : TagOp
  runs : tickle_op plc tag ≡ some (ticked plc (record tag { op = op }) status_ok)
  request : (op ≡ read_request) ⊎ (op ≡ write_request)

tickle_op-Restarted :
    (plc : Plc) (tag : ModbusTag)
    → is_lost plc.state ≡ true
    → tag.live.abort_requested ≡ false
    → (tag.op ≡ read_response) ⊎ (tag.op ≡ write_response)
    → Restarted plc tag
unfolding tickle_op run_op tag_op_read_response tag_op_write_response
tickle_op-Restarted plc tag lost running (inl e) = record {
  op = read_request;
  runs = if_second _ _ running ∙ (ap (λ o. run_op o plc tag) e ∙ if_first _ _ lost);
  request = inl refl;
}
tickle_op-Restarted plc tag lost running (inr e) = record {
  op = write_request;
  runs = if_second _ _ running ∙ (ap (λ o. run_op o plc tag) e ∙ if_first _ _ lost);
  request = inr refl;
}

-- When the connection is lost while a tag waits for a response and no slot is free, such as the
-- one slot of the default configuration that the tag itself holds, the tag is set back to send its
-- request again, but keeps its slot: each later tick, in whatever state the connection then is,
-- changes nothing and is pending, as long as the slots stay so. An abort of the tag gives back its
-- slot.
pub restart-IsStuck :
    (plc plc' : Plc) (tag : ModbusTag)
    → is_lost plc.state ≡ true
    → has_free plc.tags_with_requests ≡ false
    → has_slot tag.tag_id plc.tags_with_requests ≡ true
    → tag.live.abort_requested ≡ false
    → (tag.op ≡ read_response) ⊎ (tag.op ≡ write_response)
    → plc'.tags_with_requests ≡ plc.tags_with_requests
    → (tag' : ModbusTag) × (tickle_op plc tag ≡ some (ticked plc tag' status_ok))
      × (tickle_op plc' tag' ≡ some (ticked plc' tag' status_pending))
      × (has_free (mb_abort plc' tag').0.0.tags_with_requests ≡ true)
unfolding tickle_op mb_abort clear_request_slot
restart-IsStuck plc plc' tag lost full own running waiting same =
    let r = tickle_op-Restarted plc tag lost running waiting in
    let tag' = record tag { op = r.op } in
    let n = find_request_slot-NoSlot plc' tag' (rw same full) in
    (
      tag',
      r.runs,
      if_second _ _ running ∙ run_op-waits r.op plc' tag' r.request n,
      clear_slots_frees tag.tag_id plc'.tags_with_requests (rw same own),
    )
