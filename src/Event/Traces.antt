-- ===== src/Event/Traces.antt =====
-- Any sequence of raised events and runs of the handler, on a new tag.
use junk.Prelude.{
  ℕ, ◌+◌, ◌≤◌, ◌≡◌, refl, ap, Option, some, ◌>>=◌, Bool, false, List, [], ◌∷◌, ◌++◌, ℤ, pos, arith,
  Bool-cases, inl, inr, ◌==◌,
}
use junk.Event.{
  Event, created, read_completed, read_started, write_completed, write_started, Events, Calls,
  Callback, LeavesEvents, handle_event_callbacks, handle_events, tag_raise_event,
}
use junk.Event.Noted.{noted, silent, handle_event_callbacks-events}
use junk.Event.Delivery.{handle_events_lem}
use junk.Event.Counting.{event_number, one_if, told, told-append, handled}

pub data Action : Type 0 where
  raise : Event → ℤ → Action
  handle : Action

abbrev pub act : Callback → Action → Events → Option (Events × Calls)
act callback (raise v s) e = some (tag_raise_event v s e, [])
act callback handle e = handle_event_callbacks callback e

unfoldable pub run : Callback → List Action → Events → Option (Events × Calls)
run callback [] e = some (e, [])
run callback (a ∷ more) e =
    act callback a e >>= λ r. run callback more r.0 >>= λ r'. some (r'.0, r.1 ++ r'.1)

-- The same with a callback that leaves the fields alone.
idle_act : Action → Events → Events × Calls
idle_act (raise v s) e = (tag_raise_event v s e, [])
idle_act handle e = handle_events e

idle_run : List Action → Events → Events × Calls
idle_run [] e = (e, [])
idle_run (a ∷ more) e =
    let (e', first) = idle_act a e in let (e'', rest) = idle_run more e' in (e'', first ++ rest)

act-idle_act :
    (callback : Callback) (a : Action) (e : Events)
    → LeavesEvents callback
    → act callback a e ≡ some (idle_act a e)
unfolding idle_act
act-idle_act callback (raise v s) e leaves = refl
act-idle_act callback handle e leaves = handle_event_callbacks-events callback e leaves

run-idle_run :
    (callback : Callback) (acts : List Action) (e : Events)
    → LeavesEvents callback
    → run callback acts e ≡ some (idle_run acts e)
unfolding run idle_run
run-idle_run callback [] e leaves = refl
run-idle_run callback (a ∷ more) e leaves =
    rw (act-idle_act callback a e leaves, run-idle_run callback more (idle_act a e).0 leaves) refl

-- The fields of a tag that was just allocated.
abbrev pub new_events : Bool → Events
new_events has_callback = record {
  has_callback = has_callback;
  creation_complete = false;
  deletion_started = false;
  operation_aborted = false;
  read_complete = false;
  read_complete_enable = false;
  started_read = false;
  write_complete = false;
  write_complete_enable = false;
  started_write = false;
  had_created_event = false;
  creation_complete_status = pos 0;
  deletion_started_status = pos 0;
  operation_aborted_status = pos 0;
  read_complete_status = pos 0;
  read_started_status = pos 0;
  write_complete_status = pos 0;
  write_started_status = pos 0;
}

-- What the handler does not touch.
handled_others :
    (e : Events)
    → ((handle_events e).0.had_created_event ≡ e.had_created_event)
      × ((handle_events e).0.read_complete_enable ≡ e.read_complete_enable)
      × ((handle_events e).0.write_complete_enable ≡ e.write_complete_enable)
handled_others e = elim (Bool-cases e.has_callback) [
  | inl h ↦ let (_, _, made, read, write) = handle_events_lem e h in (made, read, write)
  | inr h ↦ rw (silent e h) (refl, refl, refl)
]

raise-created :
    (v : Event) (s : ℤ) (e : Events)
    → one_if (noted created (tag_raise_event v s e)) + one_if e.had_created_event
      ≤ one_if (noted created e) + one_if (tag_raise_event v s e).had_created_event
unfolding tag_raise_event
raise-created v s e = ground arith

created-run :
    (acts : List Action) (e : Events)
    → told created (idle_run acts e).1
        + one_if (noted created (idle_run acts e).0)
        + one_if e.had_created_event
      ≤ one_if (noted created e) + one_if (idle_run acts e).0.had_created_event
unfolding idle_run idle_act told
created-run [] e = omega arith
created-run (raise v s ∷ more) e =
    omega (arith, created-run more (tag_raise_event v s e), raise-created v s e)
created-run (handle ∷ more) e =
    let (made, _, _) = handled_others e in
    omega (
      arith,
      created-run more (handle_events e).0,
      handled created e,
      ap one_if made,
      told-append created (handle_events e).1 (idle_run more (handle_events e).0).1,
    )

-- A read or a write: the events of its start and its end.
pub data Op : Type 0 where
  read write : Op

abbrev pub start : Op → Event
start read = read_started
start write = write_started

abbrev pub completion : Op → Event
completion read = read_completed
completion write = write_completed

abbrev enabled : Op → Events → Bool
enabled read e = e.read_complete_enable
enabled write e = e.write_complete_enable

-- How often an event is raised.
pub raised : Event → List Action → ℕ
raised v [] = 0
raised v (raise w s ∷ more) = one_if (event_number w == event_number v) + raised v more
raised v (handle ∷ more) = raised v more

raise-completion :
    (o : Op) (v : Event) (s : ℤ) (e : Events)
    → one_if (noted (completion o) (tag_raise_event v s e))
        + one_if (enabled o (tag_raise_event v s e))
      ≤ one_if (noted (completion o) e)
        + one_if (enabled o e)
        + one_if (event_number v == event_number (start o))
unfolding tag_raise_event
raise-completion o v s e = ground arith

completion-run :
    (o : Op) (acts : List Action) (e : Events)
    → told (completion o) (idle_run acts e).1
      ≤ one_if (noted (completion o) e) + one_if (enabled o e) + raised (start o) acts
unfolding idle_run idle_act told raised
completion-run o [] e = omega arith
completion-run o (raise v s ∷ more) e =
    omega (arith, completion-run o more (tag_raise_event v s e), raise-completion o v s e)
completion-run o (handle ∷ more) e = omega (
  arith,
  completion-run o more (handle_events e).0,
  handled (completion o) e,
  still_enabled o e,
  told-append (completion o) (handle_events e).1 (idle_run more (handle_events e).0).1,
)
  where
    still_enabled :
        (o : Op) (e : Events) → one_if (enabled o (handle_events e).0) ≡ one_if (enabled o e)
    still_enabled read e = let (_, h, _) = handled_others e in ap one_if h
    still_enabled write e = let (_, _, h) = handled_others e in ap one_if h

-- A run is defined, and calls the callback with an event at most `n` times.
abbrev pub TellsAtMost : ℕ → Event → Callback → List Action → Events → Type 0
TellsAtMost n v callback acts e =
    (e' : Events) × (calls : Calls) × (run callback acts e ≡ some (e', calls)) × (told v calls ≤ n)

idle_run-TellsAtMost :
    (n : ℕ) (v : Event) (callback : Callback) (acts : List Action) (e : Events)
    → LeavesEvents callback
    → told v (idle_run acts e).1 ≤ n
    → TellsAtMost n v callback acts e
idle_run-TellsAtMost n v callback acts e leaves h =
    ((idle_run acts e).0, (idle_run acts e).1, run-idle_run callback acts e leaves, h)

-- Whatever events are raised on a new tag, and whenever the handler runs, the callback is called
-- for the creation at most once, if it leaves the fields of the events alone: it starts and
-- aborts nothing.
pub created_once :
    (callback : Callback) (has_callback : Bool) (acts : List Action)
    → LeavesEvents callback
    → TellsAtMost 1 created callback acts (new_events has_callback)
created_once callback has_callback acts leaves =
    idle_run-TellsAtMost 1 created callback acts (new_events has_callback) leaves
      (ground (arith, created-run acts (new_events has_callback)))

-- Whatever events are raised on a new tag, and whenever the handler runs, the callback is called
-- for the completion of a read, or of a write, at most as often as the start of one was raised,
-- if it leaves the fields of the events alone: it starts and aborts nothing.
pub completion-le-start :
    (o : Op) (callback : Callback) (has_callback : Bool) (acts : List Action)
    → LeavesEvents callback
    → TellsAtMost (raised (start o) acts) (completion o) callback acts (new_events has_callback)
completion-le-start o callback has_callback acts leaves =
    idle_run-TellsAtMost (raised (start o) acts) (completion o) callback acts
      (new_events has_callback) leaves
      (ground (arith, completion-run o acts (new_events has_callback)))
