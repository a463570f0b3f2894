-- ===== src/Event/Prompt.antt =====
-- A raised event is told by the next run of the handler.
use junk.Prelude.{◌≡◌, some, Bool, true, false, [], ◌∷◌, ℤ, arith}
use junk.Event.{
  Event, aborted, destroyed, read_started, write_started, Events, Calls, Callback, LeavesEvents,
  handle_event_callbacks, handle_events, tag_raise_event,
}
use junk.Event.Noted.{noted, delivery_order, handle_event_callbacks-events}
use junk.Event.Delivery.{handle_events_lem}
use junk.Event.Counting.{told, times, told-noted_calls}

-- The events that are noted whenever they are raised.
abbrev pub always_noted : Event → Bool
always_noted aborted = true
always_noted destroyed = true
always_noted read_started = true
always_noted write_started = true
always_noted _ = false

abbrev pub raise_all : Calls → Events → Events
raise_all [] e = e
raise_all ((v, s) ∷ cs) e = raise_all cs (tag_raise_event v s e)

raise-noted :
    (v : Event) (s : ℤ) (e : Events)
    → e.has_callback ≡ true
    → always_noted v ≡ true
    → noted v (tag_raise_event v s e) ≡ true
unfolding tag_raise_event
raise-noted v s e h a = ground arith

raise-keeps :
    (v w : Event) (s : ℤ) (e : Events)
    → noted v e ≡ true
    → e.has_callback ≡ true
    → (noted v (tag_raise_event w s e) ≡ true) × ((tag_raise_event w s e).has_callback ≡ true)
unfolding tag_raise_event
raise-keeps v w s e n h = ground arith

raise_all-keeps :
    (v : Event) (cs : Calls) (e : Events)
    → noted v e ≡ true
    → e.has_callback ≡ true
    → (noted v (raise_all cs e) ≡ true) × ((raise_all cs e).has_callback ≡ true)
raise_all-keeps v [] e n h = (n, h)
raise_all-keeps v ((w, s) ∷ cs) e n h =
    let (n', h') = raise-keeps v w s e n h in raise_all-keeps v cs (tag_raise_event w s e) n' h'

times_always : (v : Event) → always_noted v ≡ true → times v delivery_order ≡ 1
unfolding times
times_always v h = ground arith

raise-callback :
    (v : Event) (s : ℤ) (e : Events)
    → e.has_callback ≡ true
    → (tag_raise_event v s e).has_callback ≡ true
unfolding tag_raise_event
raise-callback v s e h = ground arith

-- The handler is defined, and calls the callback with an event once.
abbrev pub TellsOnce : Event → Callback → Events → Type 0
TellsOnce v callback e =
    (e' : Events) × (calls : Calls) × (handle_event_callbacks callback e ≡ some (e', calls))
    × (told v calls ≡ 1)

-- If an abort, a deletion, or the start of a read or a write is raised on a tag with a callback
-- that leaves the fields of the events alone, which starts and aborts nothing, the next run of the
-- handler calls the callback for it exactly once, whatever other events are raised in between.
pub raised_told :
    (callback : Callback) (v : Event) (s : ℤ) (cs : Calls) (e : Events)
    → LeavesEvents callback
    → e.has_callback ≡ true
    → always_noted v ≡ true
    → TellsOnce v callback (raise_all cs (tag_raise_event v s e))
raised_told callback v s cs e leaves h a =
    let (n, h') =
      raise_all-keeps v cs (tag_raise_event v s e) (raise-noted v s e h a)
        (raise-callback v s e h) in
    let later = raise_all cs (tag_raise_event v s e) in
    let (calls, _, _, _, _) = handle_events_lem later h' in
    (
      (handle_events later).0,
      (handle_events later).1,
      handle_event_callbacks-events callback later leaves,
      rw (calls, told-noted_calls v delivery_order later, n) (times_always v a),
    )
