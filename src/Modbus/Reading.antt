-- ===== src/Modbus/Reading.antt =====
-- A whole read of a Modbus tag, by as many requests as it needs, in
-- libplctag/src/libplctag/protocols/mb/modbus.c.
use mathlib.Core.Path.{subst}
use junk.Prelude.{
  ℕ, zero, suc, ◌+◌, ◌-◌, ◌*◌, ◌/◌, ◌^◌, ◌≤◌, ◌<◌, ◌≡◌, refl, sym, ap, ◌∙◌, ◌⊎◌, inl, inr, [], ◌∷◌,
  some, arith, lt→ltb, length, true, false, ltb, ℤ, if_first, min,
}
use junk.Memory.{Bytes}
use junk.Status.{status_ok, err_partial}
use junk.Modbus.{idle, read_request, Plc, ModbusTag, clear_request_slot, has_slot}
use junk.Modbus.Responses.{to_go_on, read_is_over, take_response}
use junk.Modbus.Operations.{
  Ticked, ticked, read_responded, complete, mb_tag_status, mb_read_start, is_idle,
}
use junk.Modbus.Slots.{has_free}
use junk.Modbus.ReadPayload.{Agree}
use junk.Modbus.Exchange.{exchange, tickle_round, tickle_rounds, Serves}
use junk.Modbus.ReadSteps.{IsReadable, IsAvailable, sent}
use junk.Modbus.ReadRound.{OneRound, round}

same_bytes : (xs ys : Bytes) → length xs ≡ length ys → Agree (length xs) xs ys → xs ≡ ys
same_bytes [] [] e h = refl
same_bytes [] (y ∷ ys) e h = absurd (omega (arith, e))
same_bytes (x ∷ xs) [] e h = absurd (omega (arith, e))
same_bytes (x ∷ xs) (y ∷ ys) e h =
    let heads : x ≡ y = h 0 (omega arith) in
    let tails = same_bytes xs ys (omega (arith, e)) (λ i lt. h (suc i) (omega arith)) in
    rw (heads, tails) refl

-- The end of a read: the tag holds the bytes of the server, is idle with status OK, and its slot
-- is free again.
pub record IsRead (image : Bytes) (plc plc' : Plc) (tag : ModbusTag) : Type 0 where
  pub holds : tag.buffer ≡ image
  pub ended : tag.op ≡ idle
  pub is_ok : tag.live.status ≡ status_ok
  pub is_over : tag.live.read_in_flight ≡ false
  pub status : mb_tag_status tag ≡ status_ok
  pub slots : plc'.tags_with_requests ≡ plc.tags_with_requests
  pub request_num : tag.request_num ≡ 0
  pub seq_id : tag.seq_id ≡ 0

IsRead-earlier :
    {image : Bytes} {plc1 plc2 plc3 : Plc} {tag : ModbusTag}
    → plc2.tags_with_requests ≡ plc1.tags_with_requests
    → IsRead image plc2 plc3 tag
    → IsRead image plc1 plc3 tag
IsRead-earlier e is = record {
  holds = is.holds;
  ended = is.ended;
  is_ok = is.is_ok;
  is_over = is.is_over;
  status = is.status;
  slots = is.slots ∙ e;
  request_num = is.request_num;
  seq_id = is.seq_id;
}

module _ (server : Bytes → Bytes) (image : Bytes) where
  -- After a round with more to come.
  record Goes (plc : Plc) (tag : ModbusTag) : Type 0 where
    to : Ticked
    runs : tickle_round server plc tag ≡ some to
    readable : IsReadable to.tag
    available : IsAvailable to.plc to.tag.tag_id
    op : to.tag.op ≡ read_request
    request_num : to.tag.request_num ≡ tag.request_num + 1
    reg_base : to.tag.reg_base ≡ tag.reg_base
    elem_size : to.tag.elem_size ≡ tag.elem_size
    size : to.tag.size ≡ tag.size
    slots : to.plc.tags_with_requests ≡ plc.tags_with_requests
    agrees : Agree (250 * (tag.request_num + 1)) to.tag.buffer image

  round-Goes :
      (plc : Plc) (tag : ModbusTag)
      → IsReadable tag
      → IsAvailable plc tag.tag_id
      → OneRound server image plc tag
      → 250 * (tag.request_num + 1) < tag.size
      → tag.request_num + 1 < 2 ^ 16
      → Goes plc tag
  unfolding read_responded clear_request_slot exchange
  round-Goes plc tag r v o lt small =
      let k = tag.request_num in
      let m : 250 * k + min 250 (tag.size - 250 * k) ≡ 250 * (k + 1) = omega arith in
      let goes : ltb (250 * k + min 250 (tag.size - 250 * k)) tag.size ≡ true =
        lt→ltb _ _ (omega arith) in
      let s = sent plc tag o.slots o.slot o.frame in
      let tag' = record s.tag { buffer = o.after } in
      record {
        to = read_responded (take_response (exchange server s.plc), (to_go_on tag', err_partial));
        runs = o.runs ∙ (rw goes refl);
        readable = record {
          element = r.element;
          sized = r.sized;
          full = o.full;
          first = r.first;
          last = r.last;
          code = r.code;
          can = r.can;
          has_id = r.has_id;
          running = r.running;
        };
        available = record {
          connected = v.connected;
          nothing_queued = refl;
          room = o.room;
          free = subst (λ ss. has_free ss ≡ true) (sym o.cleared) v.free;
          absent = subst (λ ss. has_slot tag.tag_id ss ≡ false) (sym o.cleared) v.absent;
        };
        op = refl;
        request_num = omega arith;
        reg_base = refl;
        elem_size = refl;
        size = refl;
        slots = o.cleared;
        agrees = subst (λ j. Agree j o.after image) m o.agrees;
      }

  round-IsRead :
      (plc : Plc) (tag : ModbusTag)
      → length image ≡ tag.size
      → OneRound server image plc tag
      → tag.size ≤ 250 * (tag.request_num + 1)
      → (250 * tag.request_num < tag.size) ⊎ (tag.request_num ≡ 0)
      → (t : Ticked) × (tickle_round server plc tag ≡ some t) × IsRead image plc t.plc t.tag
  unfolding read_responded clear_request_slot exchange complete read_is_over mb_tag_status
  round-IsRead plc tag long o le left =
      let k = tag.request_num in
      let m : 250 * k + min 250 (tag.size - 250 * k) ≡ length o.after = omega (arith, o.full) in
      let ends : ltb (250 * k + min 250 (tag.size - 250 * k)) tag.size ≡ false =
        ground (arith, m, o.full) in
      let s = sent plc tag o.slots o.slot o.frame in
      let tag' = record s.tag { buffer = o.after } in
      let same =
        same_bytes o.after image (o.full ∙ sym long)
          (subst (λ j. Agree j o.after image) m o.agrees) in
      (
        read_responded
            (take_response (exchange server s.plc), (read_is_over status_ok tag', status_ok)),
        o.runs ∙ (rw ends refl),
        record {
          holds = same;
          ended = refl;
          is_ok = refl;
          is_over = refl;
          status = refl;
          slots = o.cleared;
          request_num = refl;
          seq_id = refl;
        },
      )

  small_request : (tag : ModbusTag) (k : ℕ) → IsReadable tag → 250 * k < tag.size → k < 2 ^ 16
  small_request tag k r lt = elim r.element [
    | inl e ↦ omega (arith, r.last, r.sized ∙ ap (λ s. (tag.elem_count * s + 7) / 8) e)
    | inr e ↦ omega (arith, r.last, r.sized ∙ ap (λ s. (tag.elem_count * s + 7) / 8) e)
  ]

  rounds-IsRead :
      (n : ℕ) (plc : Plc) (tag : ModbusTag)
      → length image ≡ tag.size
      → Serves server image tag.reg_base tag.elem_size
      → IsReadable tag
      → IsAvailable plc tag.tag_id
      → tag.op ≡ read_request
      → (250 * (tag.request_num + n) < tag.size) ⊎ (tag.request_num + n ≡ 0)
      → tag.size ≤ 250 * (tag.request_num + n + 1)
      → Agree (250 * tag.request_num) tag.buffer image
      → (t : Ticked) × (tickle_rounds server (suc n) plc tag ≡ some t)
        × IsRead image plc t.plc t.tag
  unfolding tickle_rounds
  rounds-IsRead zero plc tag long s r v op more le before =
      let left : (250 * tag.request_num < tag.size) ⊎ (tag.request_num ≡ 0) = elim more [
        | inl lt ↦ inl (omega arith)
        | inr e ↦ inr (omega arith)
      ] in
      let (t, runs, is) =
        round-IsRead plc tag long (round server image plc tag s r v op left before) (omega arith)
          left in
      (ticked t.plc t.tag status_ok, rw runs refl, is)
  rounds-IsRead (suc n) plc tag long s r v op more le before =
      let k = tag.request_num in
      let lt : 250 * (k + suc n) < tag.size = elim more [
        | inl lt ↦ lt
        | inr e ↦ absurd (omega arith)
      ] in
      let lower : 250 * (k + 1) < tag.size = omega arith in
      let o = round server image plc tag s r v op (inl (omega arith)) before in
      let g = round-Goes plc tag r v o lower (small_request tag (k + 1) r lower) in
      let served =
        subst (λ e. Serves server image g.to.tag.reg_base e) (sym g.elem_size)
          (subst (λ b. Serves server image b tag.elem_size) (sym g.reg_base) s) in
      let (t, runs, is) =
        rounds-IsRead n g.to.plc g.to.tag (long ∙ sym g.size) served g.readable g.available g.op
          (inl (omega (arith, g.request_num, g.size))) (omega (arith, g.request_num, g.size))
          (subst (λ j. Agree (250 * j) g.to.tag.buffer image) (sym g.request_num) g.agrees) in
      (t, rw g.runs runs, IsRead-earlier g.slots is)

  -- A tag as `create_tag_object` makes it, of a type that can be read, with no request pending and
  -- no abort requested, and a connected PLC that has no request to send, a free slot, and no slot
  -- of the tag: if the server answers each request with the registers that it names, and the
  -- connection carries each request and response between two ticks of the tag, then a read that
  -- `mb_read_start` begins needs exactly as many requests as there are parts of 250 bytes, at
  -- least one, and after them the tag is idle with status OK, its data is the bytes of the
  -- server's registers, and the slots are as before.
  pub reading-IsRead :
      (n : ℕ) (plc : Plc) (tag : ModbusTag)
      → length image ≡ tag.size
      → Serves server image tag.reg_base tag.elem_size
      → IsReadable tag
      → IsAvailable plc tag.tag_id
      → tag.op ≡ idle
      → tag.request_num ≡ 0
      → (250 * n < tag.size) ⊎ (n ≡ 0)
      → tag.size ≤ 250 * (n + 1)
      → (t : Ticked) × (tickle_rounds server (suc n) plc (mb_read_start tag).0 ≡ some t)
        × IsRead image plc t.plc t.tag
  unfolding mb_read_start
  reading-IsRead n plc tag long s r v op start more le =
      let begun = record tag { op = read_request } in
      let starts : (mb_read_start tag).0 ≡ begun =
        ap (λ (u : ModbusTag × ℤ). u.0) (if_first _ _ (ap is_idle op)) in
      let still : IsReadable begun = record {
        element = r.element;
        sized = r.sized;
        full = r.full;
        first = r.first;
        last = r.last;
        code = r.code;
        can = r.can;
        has_id = r.has_id;
        running = r.running;
      } in
      let (t, runs, is) =
        rounds-IsRead n plc begun long s still v refl
          (elim more [ inl lt ↦ inl (omega arith) | inr e ↦ inr (omega arith) ]) (omega arith)
          (λ i lt. absurd (omega arith)) in
      (t, ap (λ u. tickle_rounds server (suc n) plc u) starts ∙ runs, is)
