-- ===== src/Event/Tests.antt =====
-- Runs of the events of a tag, and the theorems at some of them.
use junk.Prelude.{◌≡◌, Option, none, some, refl, true, List, [], ◌∷◌, pos, negsuc}
use junk.Event.{
  aborted, created, read_completed, read_started, Events, Calls, Callback, call_callback, ◌>=>◌,
  handle_event_callbacks, idle_callback, handle_events, tag_raise_event,
}
use junk.Event.Delivery.{Delivers, handle_event_callbacks_lem}
use junk.Event.Counting.{told}
use junk.Event.Prompt.{raise_all, TellsOnce, raised_told}
use junk.Event.Traces.{
  Action, raise, handle, run, new_events, read, start, completion, raised, TellsAtMost,
  created_once, completion-le-start,
}

abbrev acts : List Action
acts =
    raise read_started (pos 0)
    ∷ handle
    ∷ raise read_completed (pos 0)
    ∷ raise read_completed (negsuc 0)
    ∷ handle
    ∷ raise aborted (negsuc 0)
    ∷ handle
    ∷ []

-- The second completion is dropped, and the first brings the creation with it.
calls_of : Option (Events × Calls) → Calls
calls_of none = []
calls_of (some r) = r.1

told_in_order :
    calls_of (run idle_callback acts (new_events true))
    ≡ (read_started, pos 0) ∷ (created, pos 0) ∷ (read_completed, pos 0) ∷ (aborted, negsuc 0) ∷ []
unfolding calls_of run tag_raise_event handle_event_callbacks ◌>=>◌ call_callback
told_in_order = refl

-- Two starts that are told together, and then two completions.
merged :
    told read_started (
      calls_of (
        run idle_callback
          (raise read_started (pos 0)
            ∷ raise read_completed (pos 0)
            ∷ raise read_started (pos 0)
            ∷ handle
            ∷ raise read_completed (pos 0)
            ∷ handle
            ∷ [])
          (new_events true)))
    ≡ 1
unfolding calls_of run tag_raise_event handle_event_callbacks ◌>=>◌ call_callback told
merged = refl

created_once_example : TellsAtMost 1 created idle_callback acts (new_events true)
created_once_example = created_once idle_callback true acts (λ v s e. refl)

completion-le-start_example :
    TellsAtMost (raised (start read) acts) (completion read) idle_callback acts (new_events true)
completion-le-start_example = completion-le-start read idle_callback true acts (λ v s e. refl)

-- A callback that reads the tag when it is told of the creation: the handler runs inside it, with
-- the creation still noted, and tells it again.
abbrev reads_at_creation : Callback
reads_at_creation created s e = handle_events (tag_raise_event read_started (pos 0) e)
reads_at_creation _ s e = (e, [])

told_again :
    told created
      (calls_of (run reads_at_creation (raise created (pos 0) ∷ handle ∷ []) (new_events true)))
    ≡ 2
unfolding calls_of run tag_raise_event handle_event_callbacks ◌>=>◌ call_callback handle_events told
told_again = refl

abbrev noted_events : Events
noted_events = record (new_events true) {
  started_read = true;
  read_started_status = pos 0;
  operation_aborted = true;
  operation_aborted_status = negsuc 0;
  had_created_event = true;
}

handle_event_callbacks_lem_example : Delivers idle_callback noted_events
handle_event_callbacks_lem_example =
    handle_event_callbacks_lem idle_callback noted_events (λ v s e. refl) refl

raised_told_example : TellsOnce aborted idle_callback (
    raise_all ((read_completed, pos 0) ∷ []) (tag_raise_event aborted (negsuc 0) (new_events true)))
raised_told_example =
    raised_told idle_callback aborted (negsuc 0) ((read_completed, pos 0) ∷ []) (new_events true)
      (λ v s e. refl) refl refl
