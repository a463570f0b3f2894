-- ===== src/Operation/Schedule.antt =====
-- When the tickler starts the automatic reads and writes of a tag.
use junk.Prelude.{
  if_second, ℕ, ◌+◌, ◌-◌, ◌*◌, ◌/◌, ◌≤◌, ◌<◌, ◌≡◌, refl, ap, ◌∙◌, ℤ, true, false, none, some, arith,
}
use native.Mathlib.Nat.{div-add-mod, mod-lt, mul_comm}
use junk.Event.{write_started}
use junk.Operation.{Live, VtableFunc, Vtable, int8, raise_on}
use junk.Operation.Tickler.{
  start, tick_start_write, tick_write, tick_start_read, tick_read, tick_dirty,
  plc_tag_generic_tickler, next_read,
}

whole_periods :
    (late ms : ℕ)
    → 0 < ms
    → (late ≤ (late + (ms - 1)) / ms * ms) × ((late + (ms - 1)) / ms * ms < late + ms)
whole_periods late ms h =
    let total = late + (ms - 1) in
    let quotient = div-add-mod total ms in
    let remainder = mod-lt total h in omega (arith, quotient, remainder, mul_comm ms (total / ms))

-- A function of a protocol leaves the plan of the automatic reads alone.
abbrev pub KeepsPlan : VtableFunc → Type 0
KeepsPlan none = Unit
KeepsPlan (some f) =
    (t : Live)
    → ((f t).0.auto_sync_next_read ≡ t.auto_sync_next_read)
      × ((f t).0.auto_sync_read_ms ≡ t.auto_sync_read_ms)

start-KeepsPlan :
    (f : VtableFunc) (t : Live)
    → KeepsPlan f
    → ((start f t).auto_sync_next_read ≡ t.auto_sync_next_read)
      × ((start f t).auto_sync_read_ms ≡ t.auto_sync_read_ms)
start-KeepsPlan none t k = (refl, refl)
start-KeepsPlan (some f) t k = k t

-- A tag without an automatic write, or with nothing to write, is left alone by that part.
tick_write-clean :
    (vt : Vtable) (now : ℕ) (t : Live) → t.tag_is_dirty ≡ false → tick_write vt now t ≡ t
unfolding tick_write
tick_write-clean vt now t h = ground arith

tick_read-due :
    (vt : Vtable) (current_time : ℕ) (t : Live)
    → t.tag_is_dirty ≡ false
    → t.read_in_flight ≡ false
    → t.write_in_flight ≡ false
    → 0 < t.auto_sync_read_ms
    → t.auto_sync_next_read < current_time
    → tick_read vt current_time t ≡ tick_start_read vt current_time t
unfolding tick_read
tick_read-due vt current_time t clean no_read no_write h due = ground arith

tick_idle :
    (vt : Vtable) (now current_time : ℕ) (t : Live)
    → t.abort_requested ≡ false
    → t.tag_is_dirty ≡ false
    → plc_tag_generic_tickler vt now current_time t ≡ tick_read vt current_time t
unfolding plc_tag_generic_tickler
tick_idle vt now current_time t calm clean =
    if_second _ _ calm ∙ ap (tick_read vt current_time) (tick_write-clean vt now t clean)

-- On a tag with an automatic read that is due, with nothing in flight, nothing to write and no
-- request to abort, a tick plans the next read for the current time or later, by less than a
-- period, if the protocol's `read` does not change the plan.
pub next_read-bounds :
    (vt : Vtable) (now current_time : ℕ) (t : Live)
    → KeepsPlan vt.read
    → t.abort_requested ≡ false
    → t.tag_is_dirty ≡ false
    → t.read_in_flight ≡ false
    → t.write_in_flight ≡ false
    → 0 < t.auto_sync_read_ms
    → t.auto_sync_next_read < current_time
    → let next = (plc_tag_generic_tickler vt now current_time t).auto_sync_next_read in
      (current_time ≤ next) × (next < current_time + t.auto_sync_read_ms)
unfolding tick_start_read
next_read-bounds vt now current_time t keeps calm clean no_read no_write h due =
    let (same_next, same_ms) = start-KeepsPlan vt.read (record t { read_in_flight = true }) keeps in
    let (least, most) =
      whole_periods (current_time - t.auto_sync_next_read) t.auto_sync_read_ms h in
    let ticked =
      tick_idle vt now current_time t calm clean
      ∙ tick_read-due vt current_time t clean no_read no_write h due in
    let plan : (tick_start_read vt current_time t).auto_sync_next_read ≡ next_read current_time t =
      rw (same_next, same_ms) in
    rw (ap (λ u. u.auto_sync_next_read) ticked ∙ plan)
      (omega (arith, least, due), omega (arith, most, due))

planned :
    (vt : Vtable) (now current_time : ℕ) (t : Live)
    → t.abort_requested ≡ false
    → t.tag_is_dirty ≡ true
    → t.read_in_flight ≡ false
    → t.auto_sync_next_write ≡ 0
    → 0 < t.auto_sync_write_ms
    → plc_tag_generic_tickler vt now current_time t
      ≡ record t { auto_sync_next_write = now + t.auto_sync_write_ms }
unfolding plc_tag_generic_tickler tick_write tick_read tick_dirty
planned vt now current_time t calm dirty no_read unplanned h = ground arith

written :
    (vt : Vtable) (now current_time : ℕ) (t : Live)
    → t.abort_requested ≡ false
    → t.tag_is_dirty ≡ true
    → t.read_in_flight ≡ false
    → t.write_in_flight ≡ false
    → 0 < t.auto_sync_next_write
    → t.auto_sync_next_write ≤ now
    → 0 < t.auto_sync_write_ms
    → plc_tag_generic_tickler vt now current_time t
      ≡ tick_read vt current_time (tick_start_write vt t)
unfolding plc_tag_generic_tickler tick_write tick_dirty
written vt now current_time t calm dirty no_read no_write planned due h = ground arith

-- A function of a protocol leaves the marks of the automatic write alone.
abbrev pub KeepsMarks : (Live → Live × ℤ) → Type 0
KeepsMarks f =
    (t : Live)
    → ((f t).0.tag_is_dirty ≡ t.tag_is_dirty) × ((f t).0.write_in_flight ≡ t.write_in_flight)

tick_read-waits :
    (vt : Vtable) (current_time : ℕ) (t : Live)
    → t.write_in_flight ≡ true
    → tick_read vt current_time t ≡ t
unfolding tick_read
tick_read-waits vt current_time t h = ground arith

-- The tag that the protocol's `write` gets: with nothing left to write, and a write in flight.
abbrev pub to_write : Live → Live
to_write t = record t { tag_is_dirty = false; write_in_flight = true; auto_sync_next_write = 0 }

-- The tag after it: its result, and the event.
abbrev pub after_write : (Live → Live × ℤ) → Live → Live
after_write write t =
    let (t', rc) = write (to_write t) in
    raise_on write_started (int8 rc) (record t' { status = int8 rc })

tick_start_write-idle :
    (vt : Vtable) (write : Live → Live × ℤ) (t : Live)
    → vt.write ≡ some write
    → t.read_in_flight ≡ false
    → tick_start_write vt t ≡ after_write write t
unfolding tick_start_write
tick_start_write-idle vt write t has no_read = rw (no_read, has) refl

-- On a tag with an automatic write, with data to write, nothing in flight, no request to abort and
-- no write planned, whose protocol's `write` leaves the marks of the automatic write alone: the
-- first tick plans the write, and a second tick that comes after the write's delay calls `write`,
-- once, with a tag that is marked as being written and no more as having data to write. Its result
-- becomes the status, the start of the write is raised with it, and the tag stays marked so.
pub dirty_written :
    (vt : Vtable) (write : Live → Live × ℤ) (now current_time later current_time' : ℕ) (t : Live)
    → vt.write ≡ some write
    → KeepsMarks write
    → t.abort_requested ≡ false
    → t.tag_is_dirty ≡ true
    → t.read_in_flight ≡ false
    → t.write_in_flight ≡ false
    → t.auto_sync_next_write ≡ 0
    → 0 < t.auto_sync_write_ms
    → now + t.auto_sync_write_ms ≤ later
    → let ticked =
        plc_tag_generic_tickler vt later current_time'
          (plc_tag_generic_tickler vt now current_time t) in
      (ticked ≡ after_write write t)
      × (ticked.tag_is_dirty ≡ false)
      × (ticked.write_in_flight ≡ true)
dirty_written vt write now current_time later current_time' t has keeps calm dirty no_read no_write
      unplanned h late =
    let plan = record t { auto_sync_next_write = now + t.auto_sync_write_ms } in
    let (same_dirty, same_flight) = keeps (to_write t) in
    let started = tick_start_write-idle vt write plan has no_read in
    let ticked =
      ap (plc_tag_generic_tickler vt later current_time')
        (planned vt now current_time t calm dirty no_read unplanned h)
      ∙ written vt later current_time' plan calm dirty no_read no_write (omega (arith, h)) late h
      ∙ ap (tick_read vt current_time') started
      ∙ tick_read-waits vt current_time' (after_write write t) same_flight in
    (
      ticked,
      ap (λ u. u.tag_is_dirty) ticked ∙ same_dirty,
      ap (λ u. u.write_in_flight) ticked ∙ same_flight,
    )
