-- ===== src/Event/Counting.antt =====
-- How often the handler calls the callback with an event.
use junk.Prelude.{
  ℕ, ◌+◌, ◌≤◌, ◌≡◌, ap, Bool, true, List, [], ◌∷◌, ◌++◌, if◌then◌else◌, arith, Bool-cases, inl, inr,
  ◌==◌,
}
use junk.Event.{
  Event, aborted, created, destroyed, read_completed, read_started, write_completed, write_started,
  unsupported, Events, Calls, handle_events,
}
use junk.Event.Noted.{noted, noted_calls, delivery_order, silent}
use junk.Event.Delivery.{handle_events_lem}

-- The numbers of the events in the code.
abbrev pub event_number : Event → ℕ
event_number read_started = 1
event_number read_completed = 2
event_number write_started = 3
event_number write_completed = 4
event_number aborted = 5
event_number destroyed = 6
event_number created = 7
event_number unsupported = 0

abbrev pub one_if : Bool → ℕ
one_if b = if b then 1 else 0

-- How often the callback is called with an event.
unfoldable pub told : Event → Calls → ℕ
told v [] = 0
told v ((w, s) ∷ cs) = one_if (event_number w == event_number v) + told v cs

pub told-append : (v : Event) (cs ds : Calls) → told v (cs ++ ds) ≡ told v cs + told v ds
unfolding told
told-append v [] ds = omega arith
told-append v ((w, s) ∷ cs) ds = omega (arith, told-append v cs ds)

unfoldable pub times : Event → List Event → ℕ
times v [] = 0
times v (w ∷ ws) = one_if (event_number w == event_number v) + times v ws

same_event : (v w : Event) → (event_number w == event_number v) ≡ true → w ≡ v
same_event v w h = ground arith

pub told-noted_calls :
    (v : Event) (ws : List Event) (e : Events)
    → told v (noted_calls ws e) ≡ (if noted v e then times v ws else 0)
unfolding told times
told-noted_calls v [] e = ground arith
told-noted_calls v (w ∷ ws) e =
    let rest = told-noted_calls v ws e in
    elim (Bool-cases (event_number w == event_number v)) [
      | inl same ↦
          let link = ap (λ u. noted u e) (same_event v w same) in
          elim (Bool-cases (noted v e)) [
            | inl n ↦ rw (link, n, same, rest, n)
            | inr n ↦ rw (link, n, rest, n)
          ]
      | inr other ↦ elim (Bool-cases (noted w e)) [
        | inl n ↦ rw (n, other, rest) (ground arith)
        | inr n ↦ rw (n, other, rest) (ground arith)
      ]
    ]

pub times_once : (v : Event) → times v delivery_order ≤ 1
unfolding times
times_once v = ground arith

pub handled :
    (v : Event) (e : Events)
    → told v (handle_events e).1 + one_if (noted v (handle_events e).0) ≤ one_if (noted v e)
unfolding told
handled v e = elim (Bool-cases e.has_callback) [
  | inl h ↦
      let (calls, quiet, _, _, _) = handle_events_lem e h in
      rw (calls, quiet v, told-noted_calls v delivery_order e) (ground (arith, times_once v))
  | inr h ↦ rw (silent e h) (omega arith)
]
