-- ===== src/Operation/Tests.antt =====
-- Runs of the operations on a tag, and the theorems at some of them.
use junk.Prelude.{
  ◌≡◌, ◌≤◌, ◌<◌, ◌+◌, refl, true, false, List, [], ◌∷◌, none, some, pos, negsuc, inl, inr, arith,
}
use junk.Status.{status_ok, status_pending}
use junk.Event.Traces.{new_events}
use junk.Operation.{
  Live, Vtable, plc_tag_abort_impl, abort_in_flight, plc_tag_abort, plc_tag_status,
}
use junk.Operation.Tickler.{plc_tag_generic_tickler, tick_read, tick_write, tick_start_read}
use junk.Operation.Transfer.{Wait, plc_tag_read, plc_tag_write}
use junk.Operation.Steps.{IsQuiet, IsExclusive, here, next, tick, data_set}
use junk.Operation.Exclusive.{Reach-IsExclusive}
use junk.Operation.Schedule.{next_read-bounds, after_write, dirty_written}
use junk.Operation.Outcome.{Returns, transfer-Returns}
use junk.Operation.Abort.{answer, plc_tag_status-plc_tag_abort}
use junk.Operation.Refusal.{IsRefused, transfer-Refused, Answers, start_error}

-- A protocol whose operations all go on until its tickler ends them.
abbrev pending_protocol : Vtable
pending_protocol = record {
  abort = some (λ t. (t, status_ok));
  read = some (λ t. (t, status_pending));
  get_status = some (λ t. (t, t.status));
  tickler = some (λ t. (record t { read_complete = t.read_in_flight }, status_ok));
  write = some (λ t. (t, status_pending));
  wake_plc = none;
}

-- A protocol that cannot start anything.
abbrev failing_protocol : Vtable
failing_protocol = record pending_protocol {
  read = some (λ t. (t, negsuc 4));
  write = some (λ t. (t, negsuc 4));
}

abbrev idle_tag : Live
idle_tag = record {
  auto_sync_next_read = 100;
  auto_sync_next_write = 0;
  read_cache_expire = 0;
  read_cache_ms = 5;
  auto_sync_read_ms = 30;
  auto_sync_write_ms = 20;
  abort_requested = false;
  status = status_ok;
  read_complete = false;
  read_in_flight = false;
  tag_is_dirty = false;
  write_complete = false;
  write_in_flight = false;
  events = new_events true;
}

abbrev dirty_tag : Live
dirty_tag = record idle_tag { tag_is_dirty = true }

abbrev reading_tag : Live
reading_tag = record idle_tag { read_in_flight = true }

-- A read that is late by more than three periods.
late_read : (plc_tag_generic_tickler pending_protocol 195 195 idle_tag).auto_sync_next_read ≡ 220
unfolding plc_tag_generic_tickler tick_read tick_write tick_start_read
late_read = refl

pending_protocol-IsQuiet : IsQuiet pending_protocol
pending_protocol-IsQuiet = record {
  abort = λ t. record { no_read = λ h. h; no_write = λ h. h };
  read = λ t. record { no_read = λ h. h; no_write = λ h. h };
  get_status = λ t. record { no_read = λ h. h; no_write = λ h. h };
  tickler = λ t. record { no_read = λ h. h; no_write = λ h. h };
  write = λ t. record { no_read = λ h. h; no_write = λ h. h };
  wake_plc = tt;
}

Reach-IsExclusive_example : IsExclusive (
    plc_tag_generic_tickler pending_protocol 150 150
      (record (plc_tag_generic_tickler pending_protocol 110 110 idle_tag) { tag_is_dirty = true }))
Reach-IsExclusive_example =
    Reach-IsExclusive pending_protocol pending_protocol-IsQuiet
      (next (next (next here (tick 110 110)) data_set) (tick 150 150)) refl

next_read-bounds_example :
    let next = (plc_tag_generic_tickler pending_protocol 195 195 idle_tag).auto_sync_next_read in
    (195 ≤ next) × (next < 195 + 30)
next_read-bounds_example =
    next_read-bounds pending_protocol 195 195 idle_tag (λ t. (refl, refl)) refl refl refl refl
      (omega arith) (omega arith)

dirty_written_example :
    let ticked =
      plc_tag_generic_tickler pending_protocol 40 40
        (plc_tag_generic_tickler pending_protocol 10 10 dirty_tag) in
    (ticked ≡ after_write (λ t. (t, status_pending)) dirty_tag)
    × (ticked.tag_is_dirty ≡ false)
    × (ticked.write_in_flight ≡ true)
dirty_written_example =
    dirty_written pending_protocol (λ t. (t, status_pending)) 10 10 40 40 dirty_tag refl
      (λ t. (refl, refl)) refl refl refl refl refl (omega arith) (omega arith)

abbrev waits : List Wait
waits =
    record { rc = status_ok; others = λ t. t; before_abort = λ t. t; time = 20 }
    ∷ record { rc = negsuc 31; others = λ t. t; before_abort = λ t. t; time = 60 }
    ∷ []

transfer-Returns_example :
    Returns (plc_tag_read pending_protocol 10 10 60 waits (pos 50) (some idle_tag))
    × Returns (plc_tag_write pending_protocol 10 waits (pos 50) (some idle_tag))
transfer-Returns_example =
    transfer-Returns pending_protocol 10 10 60 waits (pos 50) (some idle_tag)
      (inr (inl (inl (omega arith))))

transfer-Refused_example :
    IsRefused reading_tag (plc_tag_read pending_protocol 10 10 60 waits (pos 50) (some reading_tag))
    × IsRefused reading_tag (plc_tag_write pending_protocol 10 waits (pos 50) (some reading_tag))
transfer-Refused_example =
    transfer-Refused pending_protocol 10 10 60 waits 50 reading_tag refl (omega arith)

-- The read that could not start is reported as OK.
start_error_example :
    Answers status_ok (plc_tag_read failing_protocol 10 10 60 waits (pos 50) (some idle_tag))
    × Answers (negsuc 4) (plc_tag_write failing_protocol 10 waits (pos 50) (some idle_tag))
unfolding plc_tag_abort_impl abort_in_flight
start_error_example =
    start_error failing_protocol 10 10 60 waits 50 idle_tag _ _ (negsuc 4) refl refl (omega arith)
      refl refl refl refl

plc_tag_status-plc_tag_abort_example :
    (plc_tag_status pending_protocol
      (pos 7)
      (plc_tag_abort pending_protocol (λ t. t) (some reading_tag)).0).1
    ≡ answer pending_protocol (plc_tag_abort_impl pending_protocol (λ t. t) reading_tag).0
plc_tag_status-plc_tag_abort_example =
    plc_tag_status-plc_tag_abort pending_protocol (λ t. t) (pos 7) reading_tag
      pending_protocol-IsQuiet
