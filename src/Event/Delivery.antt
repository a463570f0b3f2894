-- ===== src/Event/Delivery.antt =====
-- What the handler tells the client, and what it leaves.
use junk.Prelude.{
  ◌≡◌, ◌≢◌, refl, ap, ◌∙◌, some, All, true, false, List, [], ◌∷◌, if◌then◌else◌, arith, Bool-cases,
  inl, inr,
}
use mathlib.Core.List.{Memᴰ}
use junk.Event.Noted.{
  noted, noted_status, delivery_order, noted_calls, clear, tell, tell_all, handle_events-tell_all,
  handle_event_callbacks-events,
}
use junk.Event.{
  Event, aborted, created, destroyed, read_completed, read_started, write_completed, write_started,
  unsupported, Events, Callback, handle_event_callbacks, LeavesEvents, handle_events,
}

noted-clear : (v : Event) (e : Events) → noted v (clear v e) ≡ false
unfolding clear
noted-clear v e = ground arith

noted-clear_ne :
    (v w : Event) (e : Events)
    → v ≢ w
    → (noted w (clear v e) ≡ noted w e) × (noted_status w (clear v e) ≡ noted_status w e)
unfolding clear
noted-clear_ne v w e h = ground arith

tell-calls :
    (v : Event) (e : Events) → (tell v e).1 ≡ (if noted v e then (v, noted_status v e) ∷ [] else [])
unfolding tell
tell-calls v e = ground arith

tell-noted : (v : Event) (e : Events) → noted v (tell v e).0 ≡ false
unfolding tell
tell-noted v e = elim (Bool-cases (noted v e)) [ inl h ↦ rw h (noted-clear v e) | inr h ↦ rw h h ]

tell-noted_ne :
    (v w : Event) (e : Events)
    → v ≢ w
    → (noted w (tell v e).0 ≡ noted w e) × (noted_status w (tell v e).0 ≡ noted_status w e)
unfolding tell
tell-noted_ne v w e h = elim (Bool-cases (noted v e)) [
  | inl n ↦ rw n (noted-clear_ne v w e h)
  | inr n ↦ rw n (refl, refl)
]

tell-others :
    (v : Event) (e : Events)
    → ((tell v e).0.had_created_event ≡ e.had_created_event)
      × ((tell v e).0.read_complete_enable ≡ e.read_complete_enable)
      × ((tell v e).0.write_complete_enable ≡ e.write_complete_enable)
unfolding tell clear
tell-others v e = ground arith

noted_calls-tell :
    (v : Event) (vs : List Event) (e : Events)
    → All (λ w. v ≢ w) vs
    → noted_calls vs (tell v e).0 ≡ noted_calls vs e
noted_calls-tell v [] e h = refl
noted_calls-tell v (w ∷ vs) e h =
    let (flag, status) = tell-noted_ne v w e h.0 in rw (flag, status, noted_calls-tell v vs e h.1)

abbrev Apart : List Event → Type 0
Apart [] = Unit
Apart (v ∷ vs) = All (λ w. v ≢ w) vs × Apart vs

tell_all-calls : (vs : List Event) (e : Events) → Apart vs → (tell_all vs e).1 ≡ noted_calls vs e
unfolding tell_all
tell_all-calls [] e h = refl
tell_all-calls (v ∷ vs) e h =
    let rest = tell_all-calls vs (tell v e).0 h.1 ∙ noted_calls-tell v vs e h.0 in
    elim (Bool-cases (noted v e)) [
      | inl n ↦ rw (tell-calls v e, rest, n)
      | inr n ↦ rw (tell-calls v e, rest, n)
    ]

quiet-clear : (v w : Event) (e : Events) → noted w e ≡ false → noted w (clear v e) ≡ false
unfolding clear
quiet-clear v w e h = ground arith

tell-quiet : (v w : Event) (e : Events) → noted w e ≡ false → noted w (tell v e).0 ≡ false
unfolding tell
tell-quiet v w e h = elim (Bool-cases (noted v e)) [
  | inl n ↦ rw n (quiet-clear v w e h)
  | inr n ↦ rw n h
]

stays_quiet :
    (vs : List Event) (w : Event) (e : Events)
    → noted w e ≡ false
    → noted w (tell_all vs e).0 ≡ false
unfolding tell_all
stays_quiet [] w e h = h
stays_quiet (v ∷ vs) w e h = stays_quiet vs w (tell v e).0 (tell-quiet v w e h)

tell_all-quiet :
    (vs : List Event) (w : Event) (e : Events) → Memᴰ w vs → noted w (tell_all vs e).0 ≡ false
unfolding tell_all
tell_all-quiet [] w e m = elim m [ ]
tell_all-quiet (v ∷ vs) w e (Memᴰ.head h) = stays_quiet vs w (tell v e).0 (rw h (tell-noted v e))
tell_all-quiet (v ∷ vs) w e (Memᴰ.tail m) = tell_all-quiet vs w (tell v e).0 m

tell_all-others :
    (vs : List Event) (e : Events)
    → ((tell_all vs e).0.had_created_event ≡ e.had_created_event)
      × ((tell_all vs e).0.read_complete_enable ≡ e.read_complete_enable)
      × ((tell_all vs e).0.write_complete_enable ≡ e.write_complete_enable)
unfolding tell_all
tell_all-others [] e = (refl, refl, refl)
tell_all-others (v ∷ vs) e =
    let (a, b, c) = tell_all-others vs (tell v e).0 in
    let (a', b', c') = tell-others v e in (a ∙ a', b ∙ b', c ∙ c')

delivery_order-Apart : Apart delivery_order
delivery_order-Apart = ground arith

delivery_order-all : (v : Event) (e : Events) → noted v (tell_all delivery_order e).0 ≡ false
delivery_order-all unsupported e = stays_quiet delivery_order unsupported e refl
delivery_order-all created e =
    tell_all-quiet delivery_order created e (search (Memᴰ.head, Memᴰ.tail) depth 8)
delivery_order-all read_started e =
    tell_all-quiet delivery_order read_started e (search (Memᴰ.head, Memᴰ.tail) depth 8)
delivery_order-all write_started e =
    tell_all-quiet delivery_order write_started e (search (Memᴰ.head, Memᴰ.tail) depth 8)
delivery_order-all aborted e =
    tell_all-quiet delivery_order aborted e (search (Memᴰ.head, Memᴰ.tail) depth 8)
delivery_order-all read_completed e =
    tell_all-quiet delivery_order read_completed e (search (Memᴰ.head, Memᴰ.tail) depth 8)
delivery_order-all write_completed e =
    tell_all-quiet delivery_order write_completed e (search (Memᴰ.head, Memᴰ.tail) depth 8)
delivery_order-all destroyed e =
    tell_all-quiet delivery_order destroyed e (search (Memᴰ.head, Memᴰ.tail) depth 8)

pub handle_events_lem :
    (e : Events)
    → e.has_callback ≡ true
    → ((handle_events e).1 ≡ noted_calls delivery_order e)
      × ((v : Event) → noted v (handle_events e).0 ≡ false)
      × ((handle_events e).0.had_created_event ≡ e.had_created_event)
      × ((handle_events e).0.read_complete_enable ≡ e.read_complete_enable)
      × ((handle_events e).0.write_complete_enable ≡ e.write_complete_enable)
handle_events_lem e h =
    let (made, read, write) = tell_all-others delivery_order e in
    rw (handle_events-tell_all e h) (
      tell_all-calls delivery_order e delivery_order-Apart,
      λ v. delivery_order-all v e,
      made,
      read,
      write,
    )

-- The handler is defined, and calls the callback for the noted events.
abbrev pub Delivers : Callback → Events → Type 0
Delivers callback e =
    (e' : Events) × (handle_event_callbacks callback e ≡ some (e', noted_calls delivery_order e))
    × ((v : Event) → noted v e' ≡ false)
    × (e'.had_created_event ≡ e.had_created_event)
    × (e'.read_complete_enable ≡ e.read_complete_enable)
    × (e'.write_complete_enable ≡ e.write_complete_enable)

-- With a callback that leaves the fields of the events alone, which starts and aborts nothing, the
-- handler calls it once for each noted event, with the status that was noted, in a fixed order
-- that starts with the creation and ends with the deletion. No event is noted afterwards. Whether
-- there was a creation, and whether completions are enabled, does not change.
pub handle_event_callbacks_lem :
    (callback : Callback) (e : Events)
    → LeavesEvents callback
    → e.has_callback ≡ true
    → Delivers callback e
handle_event_callbacks_lem callback e leaves h =
    let (calls, quiet, made, read, write) = handle_events_lem e h in
    (
      (handle_events e).0,
      handle_event_callbacks-events callback e leaves
          ∙ ap (λ c. some ((handle_events e).0, c)) calls,
      quiet,
      made,
      read,
      write,
    )
