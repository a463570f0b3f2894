-- ===== src/Modbus/ReadRound.antt =====
-- One round of a read of a Modbus tag in libplctag/src/libplctag/protocols/mb/modbus.c: a request,
-- its response, and what they do to the tag and the PLC.
use mathlib.Core.Path.{subst}
use junk.Prelude.{
  ℕ, ◌+◌, ◌-◌, ◌*◌, ◌/◌, ◌^◌, ◌≤◌, ◌<◌, ◌≡◌, refl, sym, ap, ◌∙◌, ◌⊎◌, inl, inr, List, some, arith,
  length, get_or, ltb, ◌>>=◌, pos, min, if◌then◌else◌,
}
use junk.Memory.{Bytes}
use junk.Status.{status_ok, err_partial}
use junk.Modbus.{
  read_request, Plc, ModbusTag, max_modbus_response_payload, next_seq_id, clear_slots, high_byte,
  low_byte,
}
use junk.Modbus.Requests.{registers_per_request}
use junk.Modbus.Responses.{to_go_on, read_is_over, take_response}
use junk.Modbus.Operations.{tickle_op, read_responded}
use junk.Modbus.Slots.{search_slots-Taken}
use junk.Modbus.ReadFrame.{create_read_request-ReadMade}
use junk.Modbus.ReadPayload.{Agree, IsChunk-of, register_count_lem, copy_payload-Filled}
use junk.Modbus.Exchange.{exchange, tickle_round, word_at, payload_of, Serves}
use junk.Modbus.ReadSteps.{
  IsReadable, IsAvailable, next_seq_id-bound, slotted_plc, slotted_tag, find_request_slot-takes,
  not_zero, plain_command, sent, tickle_op-sends, check_read_response-takes, tickle_op-receives,
}

-- The word that two bytes of the frame hold.
word_of :
    (w : Bytes) (i : ℕ) (n : ℕ)
    → get_or w i 0 ≡ high_byte (pos n)
    → get_or w (i + 1) 0 ≡ low_byte (pos n)
    → n < 2 ^ 16
    → word_at w i ≡ n
word_of w i n h l lt = omega arith

base_at : (base k per : ℕ) → base < 2 ^ 16 → k ≡ 0 → base + k * per < 2 ^ 16
base_at base k per lt e = subst (λ j. base + j * per < 2 ^ 16) (sym e) (omega arith)

difference : (a b m : ℕ) → a ≡ b + m → a - b ≡ m
difference a b m h = omega arith

-- One round for the part `k` of the tag.
pub record OneRound (server : Bytes → Bytes) (image : Bytes) (plc : Plc) (tag : ModbusTag)
    : Type 0 where
  pub slots : List ℕ
  pub slot : ℕ
  pub cleared : clear_slots tag.tag_id slots ≡ plc.tags_with_requests
  pub frame : Bytes
  pub room : length frame ≡ 300
  pub after : Bytes
  pub full : length after ≡ tag.size
  pub agrees :
      Agree (250 * tag.request_num + min 250 (tag.size - 250 * tag.request_num)) after image
  pub runs :
      let s = sent plc tag slots slot frame in
      let tag' = record s.tag { buffer = after } in
      tickle_round server plc tag
      ≡ some (
          read_responded (
            take_response (exchange server s.plc),
            if ltb (250 * tag.request_num + min 250 (tag.size - 250 * tag.request_num)) tag.size
                then (to_go_on tag', err_partial)
                else (read_is_over status_ok tag', status_ok),
          ))

module _ (server : Bytes → Bytes) (image : Bytes) where
  pub round :
      (plc : Plc) (tag : ModbusTag)
      → Serves server image tag.reg_base tag.elem_size
      → (r : IsReadable tag) → IsAvailable plc tag.tag_id
      → tag.op ≡ read_request
      → (250 * tag.request_num < tag.size) ⊎ (tag.request_num ≡ 0)
      → Agree (250 * tag.request_num) tag.buffer image
      → OneRound server image plc tag
  unfolding tickle_round exchange
  round plc tag s r v op left before =
      let es = tag.elem_size in
      let k = tag.request_num in
      let per = registers_per_request max_modbus_response_payload tag in
      let n = min per (tag.elem_count - k * per) in
      let p = min 250 (tag.size - 250 * k) in
      let there : (250 * k < (tag.elem_count * es + 7) / 8) ⊎ (k ≡ 0) =
        subst (λ z. (250 * k < z) ⊎ (k ≡ 0)) r.sized left in
      let c = IsChunk-of es tag.elem_count k r.element there in
      let t = search_slots-Taken tag.tag_id plc.tags_with_requests v.free in
      let plc1 = slotted_plc plc t.slots in
      let tag1 = slotted_tag tag t.slot in
      let sized = not_zero es r.element in
      let (d, q) =
        create_read_request-ReadMade plc1 tag1 r.code sized r.can (omega (arith, v.room)) in
      let first =
        tickle_op-sends plc tag t d
          (find_request_slot-takes plc tag t v.connected v.nothing_queued r.has_id) q.runs r.running
          op in
      let f = q.frame in
      let seq = next_seq_id plc.seq_id in
      let base = tag.reg_base + k * per in
      let low_base : base < 2 ^ 16 = elim c.inside [
        | inl lt ↦ omega (arith, r.first, r.last)
        | inr e ↦ base_at tag.reg_base k per r.first e
      ] in
      let count = register_count_lem per tag1 c.below in
      let w8 = word_of d 8 base f.base_high f.base_low low_base in
      let w10 =
        word_of d 10 n (f.count_high ∙ ap high_byte count) (f.count_low ∙ ap low_byte count)
          (omega (arith, c.few)) in
      let fits : word_at d 10 * es ≤ 2000 = subst (λ m. m * es ≤ 2000) (sym w10) c.fits in
      let filled : payload_of es n ≡ p =
        subst (λ z. payload_of es n ≡ min 250 (z - 250 * k)) (sym r.sized) c.bytes in
      let bytes : payload_of es (word_at d 10) ≡ p = ap (payload_of es) w10 ∙ filled in
      let plc2 = exchange server (sent plc tag t.slots t.slot d).plc in
      let tag2 = (sent plc tag t.slots t.slot d).tag in
      let offset : ((word_at d 8 - tag.reg_base) * es) / 8 ≡ 250 * k =
        ap (λ m. (m * es) / 8) (difference (word_at d 8) tag.reg_base (k * per) w8) ∙ c.offset in
      let room = q.same_length ∙ v.room in
      let (after, g) =
        copy_payload-Filled plc2 tag2 image (250 * k) p (s.full d room)
          (s.says_length d fits ∙ bytes) c.offset (omega arith) (omega arith)
          (omega (arith, r.full)) before
          (λ i lt.
            s.gives d i fits (omega (arith, w8)) (omega (arith, bytes))
            ∙ ap (λ m. get_or image (m + i) 0) offset) in
      let bound = next_seq_id-bound plc.seq_id in
      let checks =
        check_read_response-takes plc2 tag2 after (ltb (250 * k + p) tag.size) (low_byte (pos seq))
          (high_byte (pos seq)) r.code (s.full d room) (s.echoes_low d ∙ f.seq_low)
          (s.echoes_high d ∙ f.seq_high) (s.echoes_command d ∙ f.command) (omega arith)
          (plain_command tag.reg_type r.code r.can) sized g.runs in
      record {
        slots = t.slots;
        slot = t.slot;
        cleared = t.cleared v.absent;
        frame = d;
        room = room;
        after = after;
        full = g.same_length ∙ r.full;
        agrees = g.agrees;
        runs =
            ap (λ o. o >>= λ x. tickle_op (exchange server x.plc) x.tag) first
            ∙ tickle_op-receives plc2 tag2 _ v.connected refl r.running refl checks;
      }
