-- ===== src/Event.antt =====
-- The events of a tag: `tag_raise_event` of libplctag/src/libplctag/lib/tag.h, which notes an
-- event, and `plc_tag_generic_handle_event_callbacks` of libplctag/src/libplctag/lib/lib.c, which
-- tells the client of the noted ones. The client's callback is not part of the repository: it is
-- any function on the fields of the events. The calls of it are a list of events with statuses.
-- A callback may unregister itself; the next call of it is then undefined.
pub mod Noted
pub mod Delivery
pub mod Counting
pub mod Traces
pub mod Prompt
mod Tests
use junk.Prelude.{
  Bool, true, false, List, [], ◌∷◌, ◌++◌, Option, none, some, ◌>>=◌, ◌≡◌, if◌then◌else◌, ℤ, ◌||◌,
}
use junk.Status.{status_ok}

-- `PLCTAG_EVENT_…`; any other number is `unsupported`.
pub data Event : Type 0 where
  aborted created destroyed read_completed read_started write_completed write_started unsupported :
      Event

-- The fields of `TAG_BASE_STRUCT` whose names start with `event_`, and `had_created_event`.
pub record Events : Type 0 where
  pub has_callback : Bool
  pub creation_complete : Bool
  pub deletion_started : Bool
  pub operation_aborted : Bool
  pub read_complete : Bool
  pub read_complete_enable : Bool
  pub started_read : Bool
  pub write_complete : Bool
  pub write_complete_enable : Bool
  pub started_write : Bool
  pub had_created_event : Bool
  pub creation_complete_status : ℤ
  pub deletion_started_status : ℤ
  pub operation_aborted_status : ℤ
  pub read_complete_status : ℤ
  pub read_started_status : ℤ
  pub write_complete_status : ℤ
  pub write_started_status : ℤ

-- `if(!tag->had_created_event) { … }`: the first event of a tag is its creation.
abbrev pub raise_created : ℤ → Events → Events
raise_created s e = if e.had_created_event then e else record e {
  had_created_event = true;
  creation_complete = true;
  creation_complete_status = s;
}

abbrev pub raise_read_completed : ℤ → Events → Events
raise_read_completed s e =
    if e.read_complete_enable
    then record e { read_complete = true; read_complete_status = s; read_complete_enable = false }
    else e

abbrev pub raise_write_completed : ℤ → Events → Events
raise_write_completed s e =
    if e.write_complete_enable
    then record e {
      write_complete = true;
      write_complete_status = s;
      write_complete_enable = false;
    }
    else e

-- The `switch` of `tag_raise_event`.
unfoldable pub raise_switch : Event → ℤ → Events → Events
raise_switch aborted s e =
    raise_created s (record e { operation_aborted = true; operation_aborted_status = s })
raise_switch created s e = raise_created s e
raise_switch destroyed s e = record e { deletion_started = true; deletion_started_status = s }
raise_switch read_completed s e = raise_read_completed s (raise_created s e)
raise_switch read_started s e = record e {
  started_read = true;
  read_started_status = s;
  read_complete_enable = true;
}
raise_switch write_completed s e = raise_write_completed s (raise_created s e)
raise_switch write_started s e = record e {
  started_write = true;
  write_started_status = s;
  write_complete_enable = true;
}
raise_switch unsupported s e = e

unfoldable pub tag_raise_event : Event → ℤ → Events → Events
unfolding raise_switch
tag_raise_event event s e = if e.has_callback then raise_switch event s e else e

abbrev pub Calls : Type 0
Calls = List (Event × ℤ)

-- What one call of the client's callback does to the fields of the events, and the calls of the
-- callback that are made inside it: `api_mutex` is recursive, so that the callback may start and
-- abort operations of the tag, which raise events and run the handler.
abbrev pub Callback : Type 0
Callback = Event → ℤ → Events → Events × Calls

-- `tag->callback(tag->tag_id, event, status, tag->userdata)`: a call through a null pointer is
-- undefined.
unfoldable pub call_callback : Callback → Event → ℤ → Events → Option (Events × Calls)
call_callback callback v s e =
    if e.has_callback then (let (e', inner) = callback v s e in some (e', (v, s) ∷ inner)) else none

-- The seven tests of the handler. Each flag is cleared when the callback has returned.
abbrev pub tell_created : Callback → Events → Option (Events × Calls)
tell_created callback e =
    if e.creation_complete
    then (call_callback callback created e.creation_complete_status e >>= λ r.
        some (record r.0 { creation_complete = false; creation_complete_status = status_ok }, r.1))
    else some (e, [])

abbrev pub tell_read_started : Callback → Events → Option (Events × Calls)
tell_read_started callback e =
    if e.started_read
    then (call_callback callback read_started e.read_started_status e >>= λ r.
        some (record r.0 { started_read = false; read_started_status = status_ok }, r.1))
    else some (e, [])

abbrev pub tell_write_started : Callback → Events → Option (Events × Calls)
tell_write_started callback e =
    if e.started_write
    then (call_callback callback write_started e.write_started_status e >>= λ r.
        some (record r.0 { started_write = false; write_started_status = status_ok }, r.1))
    else some (e, [])

abbrev pub tell_aborted : Callback → Events → Option (Events × Calls)
tell_aborted callback e =
    if e.operation_aborted
    then (call_callback callback aborted e.operation_aborted_status e >>= λ r.
        some (record r.0 { operation_aborted = false; operation_aborted_status = status_ok }, r.1))
    else some (e, [])

abbrev pub tell_read_completed : Callback → Events → Option (Events × Calls)
tell_read_completed callback e =
    if e.read_complete
    then (call_callback callback read_completed e.read_complete_status e >>= λ r.
        some (record r.0 { read_complete = false; read_complete_status = status_ok }, r.1))
    else some (e, [])

abbrev pub tell_write_completed : Callback → Events → Option (Events × Calls)
tell_write_completed callback e =
    if e.write_complete
    then (call_callback callback write_completed e.write_complete_status e >>= λ r.
        some (record r.0 { write_complete = false; write_complete_status = status_ok }, r.1))
    else some (e, [])

abbrev pub tell_destroyed : Callback → Events → Option (Events × Calls)
tell_destroyed callback e =
    if e.deletion_started
    then (call_callback callback destroyed e.deletion_started_status e >>= λ r.
        some (record r.0 { deletion_started = false; deletion_started_status = status_ok }, r.1))
    else some (e, [])

abbrev pub tell_end : Events → Option (Events × Calls)
tell_end e = some (e, [])

-- One test, and then the later ones.
infixr 5 ◌>=>◌
unfoldable pub ◌>=>◌ :
    (Events → Option (Events × Calls))
    → (Events → Option (Events × Calls))
    → Events
    → Option (Events × Calls)
(f >=> g) e = f e >>= λ r. g r.0 >>= λ r'. some (r'.0, r.1 ++ r'.1)

-- The fields afterwards, and the calls of the callback in their order.
unfoldable pub handle_event_callbacks : Callback → Events → Option (Events × Calls)
handle_event_callbacks callback e =
    if e.has_callback
    then (tell_created callback
          >=> tell_read_started callback
          >=> tell_write_started callback
          >=> tell_aborted callback
          >=> tell_read_completed callback
          >=> tell_write_completed callback
          >=> tell_destroyed callback
          >=> tell_end)
        e
    else some (e, [])

-- A callback that leaves the fields of the events alone: it may get and set the tag's data, but
-- it starts and aborts nothing.
abbrev pub LeavesEvents : Callback → Type 0
LeavesEvents callback = (v : Event) (s : ℤ) (e : Events) → callback v s e ≡ (e, [])

abbrev pub idle_callback : Callback
idle_callback v s e = (e, [])

-- The handler with such a callback, which is always defined.
unfoldable pub handle_events : Events → Events × Calls
handle_events e = elim (handle_event_callbacks idle_callback e) [ none ↦ (e, []) | some r ↦ r ]
