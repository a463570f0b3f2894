-- ===== src/Operation/Transfer.antt =====
-- `plc_tag_read` and `plc_tag_write` in libplctag/src/libplctag/lib/lib.c, on the tag that the
-- handle stands for, if there is one. The waits of a call with a timeout are given one by one.
use junk.Prelude.{
  ℕ, ◌+◌, Bool, true, false, List, [], ◌∷◌, ◌++◌, Option, none, some, if◌then◌else◌, ◌>>=◌, ℤ, pos,
  ltb, ltb_ℤ, pos_part, ◌==ℤ◌, ◌&&◌, ◌||◌, not,
}
use junk.Status.{status_ok, status_pending, err_busy, err_not_found, err_bad_param}
use junk.Event.{read_started, read_completed, write_started, write_completed, Calls}
use junk.Operation.{
  Live, Vtable, call, call_or, int8, raise_on, handle_on, plc_tag_abort_impl, plc_tag_status_impl,
}

-- What a critical block leaves: the tag, `rc`, `is_done`, and the calls of the callback.
pub record Begun : Type 0 where
  pub tag : Live
  pub rc : ℤ
  pub is_done : Bool
  pub calls : Calls

abbrev pub done : Live → ℤ → Calls → Begun
done t rc calls = record { tag = t; rc = rc; is_done = true; calls = calls }

-- After the protocol's `read`: anything but PENDING ends the operation, and an error aborts it.
unfoldable pub read_result : Vtable → Calls → Live × ℤ → Begun
read_result vt calls (t, rc) =
    if rc ==ℤ status_pending
    then record { tag = t; rc = rc; is_done = false; calls = calls }
    else if rc ==ℤ status_ok
    then done (record t { read_in_flight = false }) rc calls
    else (let (t', (rc', more)) = plc_tag_abort_impl vt (λ u. u) t in
        done (record t' { read_in_flight = false }) rc' (calls ++ more))

unfoldable pub begin_read : Vtable → ℕ → Live → Begun
begin_read vt now t =
    let (t', calls) = handle_on (raise_on read_started status_ok t) in
    if ltb now t'.read_cache_expire
    then done t' status_ok calls
    else if t'.read_in_flight || t'.write_in_flight
    then done t' err_busy calls
    else if t'.tag_is_dirty
    then done t' err_busy calls
    else read_result vt calls
        (call_or vt.read (record t' { read_in_flight = true; status = status_pending }))

unfoldable pub write_result : Vtable → Calls → Live × ℤ → Begun
write_result vt calls (t, rc) =
    if rc ==ℤ status_pending
    then record { tag = t; rc = rc; is_done = false; calls = calls }
    else if rc ==ℤ status_ok
    then done (record t { write_in_flight = false }) rc calls
    else done (record (call vt.abort t) { write_in_flight = false }) rc calls

unfoldable pub begin_write : Vtable → Live → Begun
begin_write vt t =
    if t.read_in_flight || t.write_in_flight
    then done t err_busy []
    else (let (t', calls) = handle_on (
          raise_on write_started status_ok
            (record t { write_in_flight = true; status = status_ok })) in
        write_result vt calls (call_or vt.write t'))

-- One `cond_wait`: its result, what other threads did to the tag in it, what they do before an
-- abort that follows has the mutex, and the time afterwards.
pub record Wait : Type 0 where
  pub rc : ℤ
  pub others : Live → Live
  pub before_abort : Live → Live
  pub time : ℕ

abbrev pub abort_if : Bool → Vtable → (Live → Live) → Live → Live × Calls
abort_if false vt others t = (t, [])
abort_if true vt others t = let (t', (_, calls)) = plc_tag_abort_impl vt others t in (t', calls)

-- The loop of waits; none if the given waits do not end it.
unfoldable pub wait_loop : Vtable → ℕ → List Wait → Calls → Live → Option (Live × (ℤ × Calls))
wait_loop vt end_time [] calls t = none
wait_loop vt end_time (w ∷ ws) calls t =
    let woken = w.others t in
    let (polled, rc) = plc_tag_status_impl vt woken in
    let (t', more) =
      abort_if (not (rc ==ℤ status_ok) && not (rc ==ℤ status_pending)) vt w.before_abort polled in
    let rest = wait_loop vt end_time ws (calls ++ more) t' in
    if not (w.rc ==ℤ status_ok)
    then (let (t'', aborted) = abort_if true vt w.before_abort woken in
        some (t'', (w.rc, calls ++ aborted)))
    else if rc ==ℤ status_pending && ltb w.time end_time
    then rest
    else some (t', (rc, calls ++ more))

-- The end of `plc_tag_read`: the cache and the last events.
unfoldable pub end_read : ℕ → Live × (ℤ × Calls) → Live × (ℤ × Calls)
end_read now (t, (rc, calls)) =
    let cached =
      if rc ==ℤ status_ok then record t { read_cache_expire = now + t.read_cache_ms } else t in
    let (t', more) = handle_on cached in (t', (rc, calls ++ more))

abbrev pub waited_read : Live × (ℤ × Calls) → Live × (ℤ × Calls)
waited_read (t, (rc, calls)) = (
  raise_on read_completed (int8 rc) (record t { read_in_flight = false; read_complete = false }),
  (rc, calls),
)

-- `start_time` is read before the waits, `now` and `last` for the cache.
unfoldable pub read_tag : Vtable → ℕ → ℕ → ℕ → List Wait → ℕ → Live → Option (Live × (ℤ × Calls))
read_tag vt now start_time last waits timeout t =
    let b = begin_read vt now t in
    if not b.is_done && ltb 0 timeout
    then (wait_loop vt (start_time + timeout) waits b.calls b.tag >>= λ r.
        some (end_read last (waited_read r)))
    else some (end_read last (b.tag, (b.rc, b.calls)))

unfoldable pub plc_tag_read :
    Vtable → ℕ → ℕ → ℕ → List Wait → ℤ → Option Live → Option (Option Live × (ℤ × Calls))
plc_tag_read vt now start_time last waits timeout none = some (none, (err_not_found, []))
plc_tag_read vt now start_time last waits timeout (some t) =
    if ltb_ℤ timeout (pos 0)
    then some (some t, (err_bad_param, []))
    else (read_tag vt now start_time last waits (pos_part timeout) t >>= λ r. some (some r.0, r.1))

abbrev pub waited_write : Live × (ℤ × Calls) → Live × (ℤ × Calls)
waited_write (t, r) = (record t { write_in_flight = false; write_complete = false }, r)

-- The end of `plc_tag_write`: the completion, if the write is over, and the last events.
unfoldable pub end_write : Bool → Live × (ℤ × Calls) → Live × (ℤ × Calls)
end_write is_done (t, (rc, calls)) =
    let raised = if is_done then raise_on write_completed (int8 rc) t else t in
    let (t', more) = handle_on raised in (t', (rc, calls ++ more))

unfoldable pub write_tag : Vtable → ℕ → List Wait → ℕ → Live → Option (Live × (ℤ × Calls))
write_tag vt start_time waits timeout t =
    let b = begin_write vt t in
    if not b.is_done && ltb 0 timeout
    then (wait_loop vt (start_time + timeout) waits b.calls b.tag >>= λ r.
        some (end_write true (waited_write r)))
    else some (end_write b.is_done (b.tag, (b.rc, b.calls)))

unfoldable pub plc_tag_write :
    Vtable → ℕ → List Wait → ℤ → Option Live → Option (Option Live × (ℤ × Calls))
plc_tag_write vt start_time waits timeout none = some (none, (err_not_found, []))
plc_tag_write vt start_time waits timeout (some t) =
    if ltb_ℤ timeout (pos 0)
    then some (some t, (err_bad_param, []))
    else (write_tag vt start_time waits (pos_part timeout) t >>= λ r. some (some r.0, r.1))
