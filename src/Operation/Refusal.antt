-- ===== src/Operation/Refusal.antt =====
-- What `plc_tag_read` and `plc_tag_write` return when an operation cannot start.
use junk.Prelude.{
  if_first, if_second, not_negative, ℕ, ◌≤◌, ◌≡◌, refl, ap, ◌∙◌, true, false, List, [], ◌++◌,
  Option, some, ℤ, pos, arith, ◌||◌, ltb, ◌==ℤ◌, ◌>>=◌,
}
use junk.Status.{status_ok, status_pending, err_busy}
use junk.Event.{Calls, read_started, write_started}
use junk.Operation.{Live, Vtable, call, call_or, raise_on, handle_on, plc_tag_abort_impl}
use junk.Operation.Transfer.{
  Begun, done, begin_read, begin_write, read_result, write_result, Wait, end_read, read_tag,
  plc_tag_read, end_write, write_tag, plc_tag_write,
}

not_before : (n m : ℕ) → m ≤ n → ltb n m ≡ false
not_before n m h = ground arith

begin_read-busy :
    (vt : Vtable) (now : ℕ) (t : Live)
    → (t.read_in_flight || t.write_in_flight) ≡ true
    → t.read_cache_expire ≤ now
    → begin_read vt now t
      ≡ let (t', calls) = handle_on (raise_on read_started status_ok t) in done t' err_busy calls
unfolding begin_read
begin_read-busy vt now t busy expired =
    if_second _ _ (not_before now t.read_cache_expire expired) ∙ if_first _ _ busy

begin_write-busy :
    (vt : Vtable) (t : Live)
    → (t.read_in_flight || t.write_in_flight) ≡ true
    → begin_write vt t ≡ done t err_busy []
unfolding begin_write
begin_write-busy vt t busy = if_first _ _ busy

-- An operation that is refused: nothing is put in flight, taken out or called.
pub record Refused (t t' : Live) (rc : ℤ) : Type 0 where
  pub busy : rc ≡ err_busy
  pub same_read : t'.read_in_flight ≡ t.read_in_flight
  pub same_write : t'.write_in_flight ≡ t.write_in_flight
  pub same_dirty : t'.tag_is_dirty ≡ t.tag_is_dirty
  pub same_cache : t'.read_cache_expire ≡ t.read_cache_expire

-- The result of a read or a write of a tag is a refusal.
abbrev pub IsRefused : Live → Option (Option Live × (ℤ × Calls)) → Type 0
IsRefused t o =
    (t' : Live) × (rc : ℤ) × (calls : Calls) × (o ≡ some (some t', (rc, calls))) × Refused t t' rc

read_tag-done :
    (vt : Vtable) (now start_time last : ℕ) (waits : List Wait) (timeout : ℕ) (t : Live) (b : Begun)
    → begin_read vt now t ≡ b
    → b.is_done ≡ true
    → read_tag vt now start_time last waits timeout t
      ≡ some (end_read last (b.tag, (b.rc, b.calls)))
unfolding read_tag
read_tag-done vt now start_time last waits timeout t b same is_done = rw (same, is_done)

write_tag-done :
    (vt : Vtable) (start_time : ℕ) (waits : List Wait) (timeout : ℕ) (t : Live) (b : Begun)
    → begin_write vt t ≡ b
    → b.is_done ≡ true
    → write_tag vt start_time waits timeout t ≡ some (end_write true (b.tag, (b.rc, b.calls)))
unfolding write_tag
write_tag-done vt start_time waits timeout t b same is_done = rw (same, is_done)

abbrev on_found : Option (Live × (ℤ × Calls)) → Option (Option Live × (ℤ × Calls))
on_found o = o >>= λ r. some (some r.0, r.1)

plc_tag_read-read_tag :
    (vt : Vtable) (now start_time last : ℕ) (waits : List Wait) (timeout : ℕ) (t : Live)
    → plc_tag_read vt now start_time last waits (pos timeout) (some t)
      ≡ on_found (read_tag vt now start_time last waits timeout t)
unfolding plc_tag_read
plc_tag_read-read_tag vt now start_time last waits timeout t = rw (not_negative timeout) refl

plc_tag_write-write_tag :
    (vt : Vtable) (start_time : ℕ) (waits : List Wait) (timeout : ℕ) (t : Live)
    → plc_tag_write vt start_time waits (pos timeout) (some t)
      ≡ on_found (write_tag vt start_time waits timeout t)
unfolding plc_tag_write
plc_tag_write-write_tag vt start_time waits timeout t = rw (not_negative timeout) refl

-- While a read or a write is in flight, a read whose cache has expired and a write are both refused
-- with BUSY at once, whatever the timeout, and leave what is in flight, what is to be written and
-- the cache as they were.
pub transfer-Refused :
    (vt : Vtable) (now start_time last : ℕ) (waits : List Wait) (timeout : ℕ) (t : Live)
    → (t.read_in_flight || t.write_in_flight) ≡ true
    → t.read_cache_expire ≤ now
    → IsRefused t (plc_tag_read vt now start_time last waits (pos timeout) (some t))
      × IsRefused t (plc_tag_write vt start_time waits (pos timeout) (some t))
unfolding end_read end_write
transfer-Refused vt now start_time last waits timeout t busy expired =
    let (t', calls) = handle_on (raise_on read_started status_ok t) in
    let b = done t' err_busy calls in
    let read =
      read_tag-done vt now start_time last waits timeout t b (begin_read-busy vt now t busy expired)
        refl in
    let write =
      write_tag-done vt start_time waits timeout t (done t err_busy []) (begin_write-busy vt t busy)
        refl in
    let (read_end, (rc, told)) = end_read last (t', (err_busy, calls)) in
    let (write_end, (rc', told')) = end_write true (t, (err_busy, [])) in
    (
      (
        read_end,
        rc,
        told,
        plc_tag_read-read_tag vt now start_time last waits timeout t ∙ ap on_found read,
        record {
          busy = refl;
          same_read = refl;
          same_write = refl;
          same_dirty = refl;
          same_cache = refl;
        },
      ),
      (
        write_end,
        rc',
        told',
        plc_tag_write-write_tag vt start_time waits timeout t ∙ ap on_found write,
        record {
          busy = refl;
          same_read = refl;
          same_write = refl;
          same_dirty = refl;
          same_cache = refl;
        },
      ),
    )

read_result-error :
    (vt : Vtable) (calls : Calls) (t : Live) (e : ℤ)
    → (e ==ℤ status_pending) ≡ false
    → (e ==ℤ status_ok) ≡ false
    → read_result vt calls (t, e)
      ≡ let (t', (rc, more)) = plc_tag_abort_impl vt (λ u. u) t in
        done (record t' { read_in_flight = false }) rc (calls ++ more)
unfolding read_result
read_result-error vt calls t e p q = if_second _ _ p ∙ if_second _ _ q

write_result-error :
    (vt : Vtable) (calls : Calls) (t : Live) (e : ℤ)
    → (e ==ℤ status_pending) ≡ false
    → (e ==ℤ status_ok) ≡ false
    → write_result vt calls (t, e)
      ≡ done (record (call vt.abort t) { write_in_flight = false }) e calls
unfolding write_result
write_result-error vt calls t e p q = if_second _ _ p ∙ if_second _ _ q

-- The tag as the protocol's `read` and `write` find it, with the calls before.
abbrev pub reading : Live → Live
reading t = record (handle_on (raise_on read_started status_ok t)).0 {
  read_in_flight = true;
  status = status_pending;
}

abbrev pub writing : Live → Live
writing t =
    (handle_on (
      raise_on write_started status_ok (record t { write_in_flight = true; status = status_ok }))).0

begin_read-idle :
    (vt : Vtable) (now : ℕ) (t : Live)
    → (t.read_in_flight || t.write_in_flight) ≡ false
    → t.tag_is_dirty ≡ false
    → t.read_cache_expire ≤ now
    → begin_read vt now t
      ≡ read_result vt
          (handle_on (raise_on read_started status_ok t)).1
          (call_or vt.read (reading t))
unfolding begin_read
begin_read-idle vt now t idle clean expired =
    if_second _ _ (not_before now t.read_cache_expire expired)
    ∙ if_second _ _ idle
    ∙ if_second _ _ clean

begin_write-idle :
    (vt : Vtable) (t : Live)
    → (t.read_in_flight || t.write_in_flight) ≡ false
    → begin_write vt t
      ≡ write_result vt
          (handle_on (
            raise_on write_started status_ok
              (record t { write_in_flight = true; status = status_ok }))).1
          (call_or vt.write (writing t))
unfolding begin_write
begin_write-idle vt t idle = if_second _ _ idle

-- The result of a call is `rc`.
abbrev pub Answers : ℤ → Option (Option Live × (ℤ × Calls)) → Type 0
Answers rc o = (t : Live) × (calls : Calls) × (o ≡ some (some t, (rc, calls)))

-- On a tag with nothing in flight, a protocol that answers the start of an operation with an error
-- ends it at once, whatever the timeout: `plc_tag_write` returns the error, but `plc_tag_read`, if
-- there is nothing to write and its cache has expired, returns the result of aborting instead.
pub start_error :
    (vt : Vtable) (now start_time last : ℕ) (waits : List Wait) (timeout : ℕ) (t u v : Live) (e : ℤ)
    → (t.read_in_flight || t.write_in_flight) ≡ false
    → t.tag_is_dirty ≡ false
    → t.read_cache_expire ≤ now
    → (e ==ℤ status_pending) ≡ false
    → (e ==ℤ status_ok) ≡ false
    → call_or vt.read (reading t) ≡ (u, e)
    → call_or vt.write (writing t) ≡ (v, e)
    → Answers
        (plc_tag_abort_impl vt (λ w. w) u).1.0
        (plc_tag_read vt now start_time last waits (pos timeout) (some t))
      × Answers e (plc_tag_write vt start_time waits (pos timeout) (some t))
unfolding end_read end_write
start_error vt now start_time last waits timeout t u v e idle clean expired p q read write =
    let r = read_result-error vt (handle_on (raise_on read_started status_ok t)).1 u e p q in
    let w = write_result-error vt _ v e p q in
    let began =
      begin_read-idle vt now t idle clean expired
      ∙ ap (read_result vt (handle_on (raise_on read_started status_ok t)).1) read
      ∙ r in
    let begun = begin_write-idle vt t idle ∙ ap (write_result vt _) write ∙ w in
    (
      (
        _,
        _,
        plc_tag_read-read_tag vt now start_time last waits timeout t
            ∙ ap on_found (read_tag-done vt now start_time last waits timeout t _ began refl),
      ),
      (
        _,
        _,
        plc_tag_write-write_tag vt start_time waits timeout t
            ∙ ap on_found (write_tag-done vt start_time waits timeout t _ begun refl),
      ),
    )
