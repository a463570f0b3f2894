-- ===== src/Operation/Tickler.antt =====
-- `plc_tag_generic_tickler` in libplctag/src/libplctag/lib/lib.c, which starts the automatic reads
-- and writes of a tag, and what `tag_tickler_func` does with one tag, whose mutex it holds. The
-- clock is read once for the writes and once for the reads.
use junk.Prelude.{
  ℕ, ◌+◌, ◌-◌, ◌*◌, ◌/◌, true, false, none, some, if◌then◌else◌, ltb, leb, ◌==◌, ◌&&◌, not,
}
use junk.Status.{err_abort}
use junk.Event.{aborted, read_started, write_started, read_completed, write_completed, Calls}
use junk.Operation.{Live, VtableFunc, Vtable, call, int8, raise_on, handle_on, nothing_in_flight}

-- `if(tag->vtable && tag->vtable->write) { tag->status = (int8_t)tag->vtable->write(tag); }`
abbrev pub start : VtableFunc → Live → Live
start none t = t
start (some f) t = let (t', rc) = f t in record t' { status = int8 rc }

-- The answer to a request to abort.
unfoldable pub tick_abort : Vtable → Live → Live
tick_abort vt t =
    raise_on aborted err_abort
      (record (nothing_in_flight (call vt.abort t)) { abort_requested = false })

-- A read that is in flight while the tag is dirty is aborted.
unfoldable pub tick_dirty : Vtable → Live → Live
tick_dirty vt t =
    if t.read_in_flight
    then raise_on aborted err_abort
        (record (call vt.abort t) { read_complete = false; read_in_flight = false })
    else t

unfoldable pub tick_start_write : Vtable → Live → Live
tick_start_write vt t =
    let idle =
      if t.read_in_flight then record (call vt.abort t) { read_in_flight = false } else t in
    let t' =
      start vt.write
        (record idle { tag_is_dirty = false; write_in_flight = true; auto_sync_next_write = 0 }) in
    raise_on write_started t'.status t'

unfoldable pub tick_write : Vtable → ℕ → Live → Live
tick_write vt now t =
    if ltb 0 t.auto_sync_write_ms && t.tag_is_dirty
    then (let t' = tick_dirty vt t in
        if t'.auto_sync_next_write == 0
        then record t' { auto_sync_next_write = now + t'.auto_sync_write_ms }
        else if not t'.write_in_flight && leb t'.auto_sync_next_write now
        then tick_start_write vt t'
        else t')
    else t

-- The time of the next read: the last planned one and a whole number of periods.
abbrev pub next_read : ℕ → Live → ℕ
next_read current_time t =
    let periods =
      (current_time - t.auto_sync_next_read + (t.auto_sync_read_ms - 1)) / t.auto_sync_read_ms in
    t.auto_sync_next_read + periods * t.auto_sync_read_ms

unfoldable pub tick_start_read : Vtable → ℕ → Live → Live
tick_start_read vt current_time t =
    let t' = start vt.read (record t { read_in_flight = true }) in
    let raised = raise_on read_started t'.status t' in
    record raised { auto_sync_next_read = next_read current_time raised }

unfoldable pub tick_read : Vtable → ℕ → Live → Live
tick_read vt current_time t =
    if ltb 0 t.auto_sync_read_ms && ltb t.auto_sync_next_read current_time
    then (if not t.read_in_flight && (not t.tag_is_dirty && not t.write_in_flight)
        then tick_start_read vt current_time t
        else t)
    else t

unfoldable pub plc_tag_generic_tickler : Vtable → ℕ → ℕ → Live → Live
plc_tag_generic_tickler vt now current_time t =
    if t.abort_requested then tick_abort vt t else tick_read vt current_time (tick_write vt now t)

-- After the protocol's tickler: the end of a read, and of a write.
unfoldable pub finish_read : Live → Live
finish_read t =
    if t.read_complete
    then raise_on read_completed t.status
        (record t { read_complete = false; read_in_flight = false })
    else t

unfoldable pub finish_write : Live → Live
finish_write t =
    if t.write_complete
    then raise_on write_completed t.status
        (record t { write_complete = false; write_in_flight = false; auto_sync_next_write = 0 })
    else t

unfoldable pub tick_protocol : VtableFunc → Live → Live
tick_protocol none t = t
tick_protocol (some f) t = finish_write (finish_read (f t).0)

-- One tag's turn in the loop of `tag_tickler_func`.
unfoldable pub tick_tag : Vtable → ℕ → ℕ → Live → Live × Calls
tick_tag vt now current_time t =
    handle_on (tick_protocol vt.tickler (plc_tag_generic_tickler vt now current_time t))
