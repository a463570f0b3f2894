-- ===== src/Operation/Exclusive.antt =====
-- A read and a write are never in flight at once, whatever the threads do in whatever order.
use junk.Prelude.{ℕ, ◌≡◌, refl, Bool, true, false, none, some, ℤ, arith, ◌||◌, ltb, if◌then◌else◌}
use junk.Event.{read_started, write_started, Calls}
use junk.Status.{status_ok, status_pending}
use junk.Operation.{
  Live, VtableFunc, Vtable, call, call_or, handle_on, raise_on, plc_tag_abort_impl,
  plc_tag_status_impl,
}
use junk.Operation.Tickler.{
  start, tick_abort, tick_dirty, tick_start_write, tick_write, tick_start_read, tick_read,
  plc_tag_generic_tickler, finish_read, finish_write, tick_protocol,
}
use junk.Operation.Transfer.{
  Begun, read_result, begin_read, write_result, begin_write, waited_write,
}
use junk.Operation.Steps.{
  NoStart, StartsNothing, IsQuiet, IsExclusive, Step, tick, protocol, ask_status, ask_abort,
  read_begins, read_ends, write_begins, write_ends, data_set, callbacks, Reach, here, next,
}

NoStart-IsExclusive : {t t' : Live} → NoStart t t' → IsExclusive t → IsExclusive t'
NoStart-IsExclusive n x = ground (arith, n.no_read, n.no_write)

pub call-NoStart : (f : VtableFunc) (t : Live) → StartsNothing f → NoStart t (call f t)
call-NoStart none t q = record { no_read = λ h. h; no_write = λ h. h }
call-NoStart (some f) t q = q t

pub call_or-NoStart : (f : VtableFunc) (t : Live) → StartsNothing f → NoStart t (call_or f t).0
call_or-NoStart none t q = record { no_read = λ h. h; no_write = λ h. h }
call_or-NoStart (some f) t q = q t

start-NoStart : (f : VtableFunc) (t : Live) → StartsNothing f → NoStart t (start f t)
start-NoStart none t q = record { no_read = λ h. h; no_write = λ h. h }
start-NoStart (some f) t q = record { no_read = (q t).no_read; no_write = (q t).no_write }

tick_dirty-NoStart : (vt : Vtable) (t : Live) → IsQuiet vt → NoStart t (tick_dirty vt t)
unfolding tick_dirty
tick_dirty-NoStart vt t q =
    let n = call-NoStart vt.abort t q.abort in
    record { no_read = ground arith; no_write = ground (arith, n.no_write) }

if-IsExclusive :
    (b : Bool) (u v : Live)
    → (b ≡ true → IsExclusive u)
    → (b ≡ false → IsExclusive v)
    → IsExclusive (if b then u else v)
if-IsExclusive true u v x y = x refl
if-IsExclusive false u v x y = y refl

if-tag_IsExclusive :
    (b : Bool) (u v : Begun)
    → (b ≡ true → IsExclusive u.tag)
    → (b ≡ false → IsExclusive v.tag)
    → IsExclusive (if b then u else v).tag
if-tag_IsExclusive true u v x y = x refl
if-tag_IsExclusive false u v x y = y refl

neither : (a b : Bool) → (a || b) ≡ false → (a ≡ false) × (b ≡ false)
neither a b h = ground arith

unstarted : {a b : Bool} → (a ≡ true → b ≡ true) → b ≡ false → a ≡ false
unstarted {a} {b} h e = ground arith

no_read-IsExclusive : (t : Live) → t.read_in_flight ≡ false → IsExclusive t
no_read-IsExclusive t h = rw h

no_write-IsExclusive : (t : Live) → t.write_in_flight ≡ false → IsExclusive t
no_write-IsExclusive t h = ground arith

tick_start_write-IsExclusive :
    (vt : Vtable) (t : Live) → IsQuiet vt → IsExclusive (tick_start_write vt t)
unfolding tick_start_write
tick_start_write-IsExclusive vt t q =
    let idle =
      if t.read_in_flight then record (call vt.abort t) { read_in_flight = false } else t in
    let quiet : idle.read_in_flight ≡ false = ground arith in
    let begun = record idle {
      tag_is_dirty = false;
      write_in_flight = true;
      auto_sync_next_write = 0;
    } in
    no_read-IsExclusive (start vt.write begun)
      (unstarted (start-NoStart vt.write begun q.write).no_read quiet)

tick_write-IsExclusive :
    (vt : Vtable) (now : ℕ) (t : Live)
    → IsQuiet vt
    → IsExclusive t
    → IsExclusive (tick_write vt now t)
unfolding tick_write
tick_write-IsExclusive vt now t q x =
    let x' = NoStart-IsExclusive (tick_dirty-NoStart vt t q) x in
    ground (arith, tick_start_write-IsExclusive vt (tick_dirty vt t) q)

tick_read-IsExclusive :
    (vt : Vtable) (now : ℕ) (t : Live)
    → IsQuiet vt
    → IsExclusive t
    → IsExclusive (tick_read vt now t)
unfolding tick_read tick_start_read
tick_read-IsExclusive vt now t q x =
    let n = start-NoStart vt.read (record t { read_in_flight = true }) q.read in
    ground (arith, n.no_write)

tick-IsExclusive :
    (vt : Vtable) (now current_time : ℕ) (t : Live)
    → IsQuiet vt
    → IsExclusive t
    → IsExclusive (plc_tag_generic_tickler vt now current_time t)
unfolding plc_tag_generic_tickler tick_abort
tick-IsExclusive vt now current_time t q x =
    if-IsExclusive t.abort_requested (tick_abort vt t) _ (λ _. refl)
      λ _.
        tick_read-IsExclusive vt current_time (tick_write vt now t) q
          (tick_write-IsExclusive vt now t q x)

finish-NoStart : (t : Live) → NoStart t (finish_write (finish_read t))
unfolding finish_write finish_read
finish-NoStart t = record { no_read = ground arith; no_write = ground arith }

protocol-IsExclusive :
    (f : VtableFunc) (t : Live) → StartsNothing f → IsExclusive t → IsExclusive (tick_protocol f t)
unfolding tick_protocol
protocol-IsExclusive none t q x = x
protocol-IsExclusive (some f) t q x =
    NoStart-IsExclusive (finish-NoStart (f t).0) (NoStart-IsExclusive (q t) x)

status-IsExclusive :
    (vt : Vtable) (t : Live) → IsQuiet vt → IsExclusive t → IsExclusive (plc_tag_status_impl vt t).0
unfolding plc_tag_status_impl
status-IsExclusive vt t q x =
    NoStart-IsExclusive (call_or-NoStart vt.get_status (call vt.tickler t) q.get_status)
      (NoStart-IsExclusive (call-NoStart vt.tickler t q.tickler) x)

abort-IsExclusive :
    (vt : Vtable) (others : Live → Live) (t : Live) → IsExclusive (plc_tag_abort_impl vt others t).0
unfolding plc_tag_abort_impl
abort-IsExclusive vt others t = refl

read_result-IsExclusive :
    (vt : Vtable) (calls : Calls) (r : Live × ℤ)
    → IsExclusive r.0
    → IsExclusive (read_result vt calls r).tag
unfolding read_result
read_result-IsExclusive vt calls (t, rc) x = ground arith

begin_read-IsExclusive :
    (vt : Vtable) (now : ℕ) (t : Live)
    → IsQuiet vt
    → IsExclusive t
    → IsExclusive (begin_read vt now t).tag
unfolding begin_read
begin_read-IsExclusive vt now t q x =
    if-tag_IsExclusive (ltb now t.read_cache_expire) _ _ (λ _. x)
      λ _.
        if-tag_IsExclusive (t.read_in_flight || t.write_in_flight) _ _ (λ _. x)
          λ idle.
            if-tag_IsExclusive t.tag_is_dirty _ _ (λ _. x)
              λ _.
                let begun = record (handle_on (raise_on read_started status_ok t)).0 {
                  read_in_flight = true;
                  status = status_pending;
                } in
                let n = call_or-NoStart vt.read begun q.read in
                read_result-IsExclusive vt _ (call_or vt.read begun) (
                  no_write-IsExclusive (call_or vt.read begun).0
                    (unstarted n.no_write (neither t.read_in_flight t.write_in_flight idle).1))

write_result-IsExclusive :
    (vt : Vtable) (calls : Calls) (r : Live × ℤ)
    → IsExclusive r.0
    → IsExclusive (write_result vt calls r).tag
unfolding write_result
write_result-IsExclusive vt calls (t, rc) x = ground arith

begin_write-IsExclusive :
    (vt : Vtable) (t : Live) → IsQuiet vt → IsExclusive t → IsExclusive (begin_write vt t).tag
unfolding begin_write
begin_write-IsExclusive vt t q x =
    if-tag_IsExclusive (t.read_in_flight || t.write_in_flight) _ _ (λ _. x)
      λ idle.
        let begun =
          (handle_on (
            raise_on write_started status_ok
              (record t { write_in_flight = true; status = status_ok }))).0 in
        let n = call_or-NoStart vt.write begun q.write in
        write_result-IsExclusive vt _ (call_or vt.write begun) (
          no_read-IsExclusive (call_or vt.write begun).0
            (unstarted n.no_read (neither t.read_in_flight t.write_in_flight idle).0))

Step-IsExclusive :
    (vt : Vtable) {t u : Live} → IsQuiet vt → Step vt t u → IsExclusive t → IsExclusive u
Step-IsExclusive vt {t} q (tick now current_time) x = tick-IsExclusive vt now current_time t q x
Step-IsExclusive vt {t} q protocol x = protocol-IsExclusive vt.tickler t q.tickler x
Step-IsExclusive vt {t} q ask_status x = status-IsExclusive vt t q x
Step-IsExclusive vt {t} q (ask_abort others) x = abort-IsExclusive vt others t
Step-IsExclusive vt {t} q (read_begins now) x = begin_read-IsExclusive vt now t q x
Step-IsExclusive vt q (read_ends r) x = refl
Step-IsExclusive vt {t} q write_begins x = begin_write-IsExclusive vt t q x
Step-IsExclusive vt {t} q (write_ends r) x = no_write-IsExclusive (waited_write (t, r)).0 refl
Step-IsExclusive vt q data_set x = x
Step-IsExclusive vt q callbacks x = x

-- If the functions of the protocol put nothing in flight themselves, then a tag that starts with no
-- more than one of a read and a write in flight never has both, in whatever order the threads run
-- its tickler, its accessors, its callbacks, and the critical blocks of status, abort, read and
-- write.
pub Reach-IsExclusive :
    (vt : Vtable) {t u : Live} → IsQuiet vt → Reach vt t u → IsExclusive t → IsExclusive u
Reach-IsExclusive vt q here x = x
Reach-IsExclusive vt q (next r s) x = Step-IsExclusive vt q s (Reach-IsExclusive vt q r x)
