-- ===== src/Operation.antt =====
-- The operations on a tag in libplctag/src/libplctag/lib/lib.c that work with a protocol: what
-- they share, `plc_tag_abort_impl` and `plc_tag_status_impl`. The functions of a protocol are
-- those of `struct tag_vtable_t` in libplctag/src/libplctag/lib/tag.h; here they are any
-- functions on the tag. A time of the clock `time_ms` is an argument, and so is what other
-- threads do to the tag while a function waits.
pub mod Tickler
pub mod Transfer
pub mod Steps
pub mod Exclusive
pub mod Schedule
pub mod Outcome
pub mod Refusal
pub mod Abort
mod Tests
use junk.Prelude.{
  ℕ, Bool, true, false, List, [], ◌∷◌, ◌++◌, Option, none, some, if◌then◌else◌, ℤ, pos, ◌==ℤ◌, ◌||◌,
  ltb_ℤ, to_unsigned, to_signed,
}
use junk.Status.{status_ok, status_pending, err_abort, err_not_implemented, err_not_found}
use junk.Event.{Event, aborted, Events, Calls, tag_raise_event, handle_events}

-- The fields of `TAG_BASE_STRUCT` that these operations use. The times are in milliseconds;
-- `plc_tag_create_ex` and `plc_tag_set_int_attribute` let no negative one in.
pub record Live : Type 0 where
  pub auto_sync_next_read : ℕ
  pub auto_sync_next_write : ℕ
  pub read_cache_expire : ℕ
  pub read_cache_ms : ℕ
  pub auto_sync_read_ms : ℕ
  pub auto_sync_write_ms : ℕ
  pub abort_requested : Bool
  pub status : ℤ
  pub read_complete : Bool
  pub read_in_flight : Bool
  pub tag_is_dirty : Bool
  pub write_complete : Bool
  pub write_in_flight : Bool
  pub events : Events

-- `tag_vtable_func`, or none for a null pointer; no table at all is one without functions.
abbrev pub VtableFunc : Type 0
VtableFunc = Option (Live → Live × ℤ)

pub record Vtable : Type 0 where
  pub abort : VtableFunc
  pub read : VtableFunc
  pub get_status : VtableFunc
  pub tickler : VtableFunc
  pub write : VtableFunc
  pub wake_plc : VtableFunc

-- `if(tag->vtable && tag->vtable->f) { tag->vtable->f(tag); }`
abbrev pub call : VtableFunc → Live → Live
call none t = t
call (some f) t = (f t).0

-- The result of a function, or that it is not implemented.
abbrev pub call_or : VtableFunc → Live → Live × ℤ
call_or none t = (t, err_not_implemented)
call_or (some f) t = f t

-- The conversion of a result to the `int8_t` of the field `status`.
abbrev pub int8 : ℤ → ℤ
int8 s = to_signed 256 (to_unsigned 256 s)

abbrev pub raise_on : Event → ℤ → Live → Live
raise_on v s t = record t { events = tag_raise_event v s t.events }

-- The handler, with a callback of the client that leaves the fields of the events alone.
abbrev pub handle_on : Live → Live × Calls
handle_on t = let (events, calls) = handle_events t.events in (record t { events = events }, calls)

abbrev pub nothing_in_flight : Live → Live
nothing_in_flight t = record t {
  read_in_flight = false;
  read_complete = false;
  write_in_flight = false;
  write_complete = false;
}

-- In the critical block of `plc_tag_abort_impl`. The request stands unless another thread has
-- served it.
unfoldable pub abort_in_flight : Vtable → Live → Live × ℤ
abort_in_flight vt t = if t.abort_requested then call_or vt.abort t else (t, err_not_implemented)

-- `others` is what happens to the tag before the mutex is there.
unfoldable pub plc_tag_abort_impl : Vtable → (Live → Live) → Live → Live × (ℤ × Calls)
plc_tag_abort_impl vt others t =
    let requested = others (call vt.wake_plc (record t { abort_requested = true })) in
    let (t', rc) = abort_in_flight vt (record requested { read_cache_expire = 0 }) in
    let (t'', calls) = handle_on (raise_on aborted err_abort (nothing_in_flight t')) in
    (t'', (rc, calls))

unfoldable pub plc_tag_status_impl : Vtable → Live → Live × ℤ
plc_tag_status_impl vt t =
    let (t', rc) = call_or vt.get_status (call vt.tickler t) in
    (
      t',
      if rc ==ℤ status_ok
          then (if t'.read_in_flight || t'.write_in_flight then status_pending else status_ok)
          else rc,
    )

-- On the tag of the handle `id`, if there is one; a negative `id` is a status.
unfoldable pub plc_tag_status : Vtable → ℤ → Option Live → Option Live × ℤ
plc_tag_status vt id none = (none, if ltb_ℤ id (pos 0) then id else err_not_found)
plc_tag_status vt id (some t) = let (t', rc) = plc_tag_status_impl vt t in (some t', rc)

unfoldable pub plc_tag_abort : Vtable → (Live → Live) → Option Live → Option Live × (ℤ × Calls)
plc_tag_abort vt others none = (none, (err_not_found, []))
plc_tag_abort vt others (some t) = let (t', r) = plc_tag_abort_impl vt others t in (some t', r)
