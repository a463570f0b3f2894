-- ===== src/Event/Noted.antt =====
-- The handler with a callback that leaves the fields of the events alone, as one function over a
-- list of events.
use junk.Prelude.{
  ◌≡◌, refl, sym, ap, ◌∙◌, Option, none, some, ◌>>=◌, if_first, apply-if, Bool, true, false, List,
  [], ◌∷◌, ◌++◌, if◌then◌else◌, ℤ, arith, Bool-cases, inl, inr,
}
use junk.Status.{status_ok}
use junk.Event.{
  Event, aborted, created, destroyed, read_completed, read_started, write_completed, write_started,
  Events, Calls, Callback, call_callback, tell_created, tell_read_started, tell_write_started,
  tell_aborted, tell_read_completed, tell_write_completed, tell_destroyed, tell_end, ◌>=>◌,
  handle_event_callbacks, LeavesEvents, idle_callback, handle_events,
}

-- Whether an event is noted, and with which status.
abbrev pub noted : Event → Events → Bool
noted aborted e = e.operation_aborted
noted created e = e.creation_complete
noted destroyed e = e.deletion_started
noted read_completed e = e.read_complete
noted read_started e = e.started_read
noted write_completed e = e.write_complete
noted write_started e = e.started_write
noted _ e = false

abbrev pub noted_status : Event → Events → ℤ
noted_status aborted e = e.operation_aborted_status
noted_status created e = e.creation_complete_status
noted_status destroyed e = e.deletion_started_status
noted_status read_completed e = e.read_complete_status
noted_status read_started e = e.read_started_status
noted_status write_completed e = e.write_complete_status
noted_status write_started e = e.write_started_status
noted_status _ e = status_ok

abbrev pub delivery_order : List Event
delivery_order =
    created ∷ read_started ∷ write_started ∷ aborted ∷ read_completed ∷ write_completed ∷ destroyed
    ∷ []

-- The noted ones of some events, with their statuses.
abbrev pub noted_calls : List Event → Events → Calls
noted_calls [] e = []
noted_calls (v ∷ vs) e =
    let rest = noted_calls vs e in if noted v e then (v, noted_status v e) ∷ rest else rest

unfoldable pub clear : Event → Events → Events
clear aborted e = record e { operation_aborted = false; operation_aborted_status = status_ok }
clear created e = record e { creation_complete = false; creation_complete_status = status_ok }
clear destroyed e = record e { deletion_started = false; deletion_started_status = status_ok }
clear read_completed e = record e { read_complete = false; read_complete_status = status_ok }
clear read_started e = record e { started_read = false; read_started_status = status_ok }
clear write_completed e = record e { write_complete = false; write_complete_status = status_ok }
clear write_started e = record e { started_write = false; write_started_status = status_ok }
clear _ e = e

-- The seven tests of the handler as one, over a list of events.
unfoldable pub tell : Event → Events → Events × Calls
tell v e = if noted v e then (clear v e, (v, noted_status v e) ∷ []) else (e, [])

unfoldable pub tell_all : List Event → Events → Events × Calls
tell_all [] e = (e, [])
tell_all (v ∷ vs) e =
    let (e', first) = tell v e in let (e'', rest) = tell_all vs e' in (e'', first ++ rest)

-- One test of the handler is `tell` of its event, and the tests from there on are `tell_all`.
Tells : (Events → Option (Events × Calls)) → Event → Type 0
Tells f v = (e : Events) → e.has_callback ≡ true → f e ≡ some (tell v e)

TellsAll : (Events → Option (Events × Calls)) → List Event → Type 0
TellsAll f vs = (e : Events) → e.has_callback ≡ true → f e ≡ some (tell_all vs e)

tell-callback : (v : Event) (e : Events) → e.has_callback ≡ true → (tell v e).0.has_callback ≡ true
unfolding tell clear
tell-callback v e h = ground arith

chain :
    (f g : Events → Option (Events × Calls)) (v : Event) (vs : List Event)
    → Tells f v
    → TellsAll g vs
    → TellsAll (f >=> g) (v ∷ vs)
unfolding ◌>=>◌ tell_all Tells TellsAll
chain f g v vs first rest e h = rw (first e h, rest (tell v e).0 (tell-callback v e h)) refl

call_callback-idle :
    (callback : Callback) (v : Event) (s : ℤ) (e : Events)
    → LeavesEvents callback
    → e.has_callback ≡ true
    → call_callback callback v s e ≡ some (e, (v, s) ∷ [])
unfolding call_callback
call_callback-idle callback v s e leaves h =
    if_first _ _ h ∙ ap (λ r. some (r.0, (v, s) ∷ r.1)) (leaves v s e)

-- The test of an event in the handler, for any event.
test : Callback → Event → Events → Option (Events × Calls)
test callback v e =
    if noted v e
    then (call_callback callback v (noted_status v e) e >>= λ r. some (clear v r.0, r.1))
    else some (e, [])

test-tell : (callback : Callback) (v : Event) → LeavesEvents callback → Tells (test callback v) v
unfolding test Tells tell
test-tell callback v leaves e h =
    ap (λ o. if noted v e then (o >>= λ r. some (clear v r.0, r.1)) else some (e, []))
      (call_callback-idle callback v (noted_status v e) e leaves h)
    ∙ apply-if some (noted v e) (clear v e, (v, noted_status v e) ∷ []) (e, [])

tell_end-TellsAll : TellsAll tell_end []
unfolding TellsAll tell_all
tell_end-TellsAll e h = refl

handler-TellsAll :
    (callback : Callback)
    → LeavesEvents callback
    → TellsAll
        (tell_created callback
          >=> tell_read_started callback
          >=> tell_write_started callback
          >=> tell_aborted callback
          >=> tell_read_completed callback
          >=> tell_write_completed callback
          >=> tell_destroyed callback
          >=> tell_end)
        delivery_order
unfolding test clear
handler-TellsAll callback leaves = chain _ _ _ _ (test-tell callback created leaves) (
    chain _ _ _ _ (test-tell callback read_started leaves) (
      chain _ _ _ _ (test-tell callback write_started leaves) (
        chain _ _ _ _ (test-tell callback aborted leaves) (
          chain _ _ _ _ (test-tell callback read_completed leaves) (
            chain _ _ _ _ (test-tell callback write_completed leaves)
              (chain _ _ _ _ (test-tell callback destroyed leaves) tell_end-TellsAll))))))

handler-tell_all :
    (callback : Callback) (e : Events)
    → LeavesEvents callback
    → e.has_callback ≡ true
    → handle_event_callbacks callback e ≡ some (tell_all delivery_order e)
unfolding handle_event_callbacks TellsAll
handler-tell_all callback e leaves h = if_first _ _ h ∙ handler-TellsAll callback leaves e h

pub silent : (e : Events) → e.has_callback ≡ false → handle_events e ≡ (e, [])
unfolding handle_events handle_event_callbacks
silent e h = ground arith

pub handle_events-tell_all :
    (e : Events) → e.has_callback ≡ true → handle_events e ≡ tell_all delivery_order e
unfolding handle_events
handle_events-tell_all e h =
    ap (λ o. elim o as (λ _. Events × Calls) [ none ↦ (e, []) | some r ↦ r ])
      (handler-tell_all idle_callback e (λ v s e'. refl) h)

handler-silent :
    (callback : Callback) (e : Events)
    → e.has_callback ≡ false
    → handle_event_callbacks callback e ≡ some (e, [])
unfolding handle_event_callbacks
handler-silent callback e h = rw h refl

-- With any callback that leaves the fields alone the handler does the same.
pub handle_event_callbacks-events :
    (callback : Callback) (e : Events)
    → LeavesEvents callback
    → handle_event_callbacks callback e ≡ some (handle_events e)
handle_event_callbacks-events callback e leaves = elim (Bool-cases e.has_callback) [
  | inl h ↦ handler-tell_all callback e leaves h ∙ ap some (sym (handle_events-tell_all e h))
  | inr h ↦ handler-silent callback e h ∙ ap some (sym (silent e h))
]
