-- ===== src/Operation/Abort.antt =====
-- What the client sees of a tag whose operation it has aborted.
use junk.Prelude.{
  ◌≡◌, sym, ◌∙◌, ==ℤ_iff, refl, Bool, true, false, some, ℤ, ◌==ℤ◌, ◌||◌, arith, if◌then◌else◌,
}
use junk.Status.{status_ok, status_pending}
use junk.Operation.{
  Live, Vtable, call, call_or, plc_tag_abort, plc_tag_abort_impl, plc_tag_status,
  plc_tag_status_impl,
}
use junk.Operation.Steps.{IsQuiet}
use junk.Operation.Exclusive.{call-NoStart, call_or-NoStart}

still : {a b : Bool} → (a ≡ true → b ≡ true) → b ≡ false → a ≡ false
still {a} {b} h e = ground arith

idle_status :
    (a b : Bool) (rc : ℤ)
    → a ≡ false
    → b ≡ false
    → (if rc ==ℤ status_ok then (if a || b then status_pending else status_ok) else rc)
      ≡ (if rc ==ℤ status_ok then status_ok else rc)
idle_status a b rc x y = rw (x, y) refl

-- The protocol's own answer to a question for the status.
abbrev pub answer : Vtable → Live → ℤ
answer vt t = let (t', rc) = call_or vt.get_status (call vt.tickler t) in rc

if_equal : (b : Bool) (rc : ℤ) → (b ≡ true → rc ≡ status_ok) → (if b then status_ok else rc) ≡ rc
if_equal true rc h = sym (h refl)
if_equal false rc h = refl

-- With a protocol that puts nothing in flight, a question for the status after an abort gives the
-- protocol's own answer: the abort left nothing pending, whatever other threads did before the
-- abort had the mutex.
pub plc_tag_status-plc_tag_abort :
    (vt : Vtable) (others : Live → Live) (id : ℤ) (t : Live)
    → IsQuiet vt
    → let after = (plc_tag_abort vt others (some t)).0 in
      (plc_tag_status vt id after).1 ≡ answer vt (plc_tag_abort_impl vt others t).0
unfolding plc_tag_status plc_tag_abort plc_tag_status_impl plc_tag_abort_impl
plc_tag_status-plc_tag_abort vt others id t q =
    let u = (plc_tag_abort_impl vt others t).0 in
    let ticked = call-NoStart vt.tickler u q.tickler in
    let asked = call_or-NoStart vt.get_status (call vt.tickler u) q.get_status in
    idle_status _ _ (answer vt u) (still asked.no_read (still ticked.no_read refl))
      (still asked.no_write (still ticked.no_write refl))
    ∙ if_equal _ (answer vt u) (==ℤ_iff (answer vt u) status_ok).0
