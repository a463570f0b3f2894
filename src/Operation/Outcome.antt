-- ===== src/Operation/Outcome.antt =====
-- What `plc_tag_read` and `plc_tag_write` return, and that they return.
use junk.Prelude.{
  ℕ, ◌+◌, ◌≤◌, ◌≡◌, ◌≢◌, ◌⊎◌, refl, Bool, true, false, List, [], ◌∷◌, Option, none, some, ℤ, pos,
  arith, ◌&&◌, not, ltb, ltb_ℤ, ◌==ℤ◌, ==ℤ_iff, if◌then◌else◌, inl, inr, ◌>>=◌, pos_part,
}
use junk.Status.{status_ok, status_pending}
use junk.Event.{Calls}
use junk.Operation.{Live, Vtable, plc_tag_status_impl}
use junk.Operation.Transfer.{
  begin_read, begin_write, Wait, wait_loop, read_tag, plc_tag_read, write_tag, plc_tag_write,
}

-- One of the waits ends after the time, or is not OK.
abbrev pub EndsBy : ℕ → List Wait → Type 0
EndsBy end_time [] = ⊥
EndsBy end_time (w ∷ ws) = ((end_time ≤ w.time) ⊎ (w.rc ≢ status_ok)) ⊎ EndsBy end_time ws

abbrev pub Returns : {A : Type 0} → Option A → Type 0
Returns {A} o = (a : A) × (o ≡ some a)

if-Returns :
    {A : Type 0} (b : Bool) (o p : Option A)
    → (b ≡ true → Returns o)
    → (b ≡ false → Returns p)
    → Returns (if b then o else p)
if-Returns true o p x y = x refl
if-Returns false o p x y = y refl

bind-Returns :
    {A B : Type 0} (o : Option A) (f : A → Option B)
    → Returns o
    → ((a : A) → Returns (f a))
    → Returns (o >>= f)
bind-Returns o f (a, e) h = let (b, e') = h a in (b, rw e e')

not_late : (time end_time : ℕ) (b : Bool) → (b && ltb time end_time) ≡ true → end_time ≤ time → ⊥
not_late time end_time b h le = ground arith

un_not : {b : Bool} → not b ≡ false → b ≡ true
un_not {b} h = ground arith

-- A wait that does not end the loop leaves the ending to a later one.
EndsBy-tail :
    (end_time : ℕ) (w : Wait) (ws : List Wait) (b : Bool)
    → EndsBy end_time (w ∷ ws)
    → not (w.rc ==ℤ status_ok) ≡ false
    → (b && ltb w.time end_time) ≡ true
    → EndsBy end_time ws
EndsBy-tail end_time w ws b (inl (inl late)) waited more =
    absurd (not_late w.time end_time b more late)
EndsBy-tail end_time w ws b (inl (inr failed)) waited more =
    absurd (failed ((==ℤ_iff w.rc status_ok).0 (un_not waited)))
EndsBy-tail end_time w ws b (inr later) waited more = later

wait_loop-Returns :
    (vt : Vtable) (end_time : ℕ) (ws : List Wait) (calls : Calls) (t : Live)
    → EndsBy end_time ws
    → Returns (wait_loop vt end_time ws calls t)
unfolding wait_loop
wait_loop-Returns vt end_time [] calls t h = absurd h
wait_loop-Returns vt end_time (w ∷ ws) calls t h =
    let (polled, rc) = plc_tag_status_impl vt (w.others t) in
    if-Returns (not (w.rc ==ℤ status_ok)) _ _ (λ _. (_, refl))
      λ waited.
        if-Returns (rc ==ℤ status_pending && ltb w.time end_time) _ _
          (λ more.
            wait_loop-Returns vt end_time ws _ _
              (EndsBy-tail end_time w ws (rc ==ℤ status_pending) h waited more))
          (λ _. (_, refl))

read_tag-Returns :
    (vt : Vtable) (now start_time last : ℕ) (waits : List Wait) (timeout : ℕ) (t : Live)
    → EndsBy (start_time + timeout) waits
    → Returns (read_tag vt now start_time last waits timeout t)
unfolding read_tag
read_tag-Returns vt now start_time last waits timeout t ends =
    let b = begin_read vt now t in
    if-Returns (not b.is_done && ltb 0 timeout) _ _
      (λ _.
        bind-Returns (wait_loop vt (start_time + timeout) waits b.calls b.tag) _
          (wait_loop-Returns vt (start_time + timeout) waits b.calls b.tag ends) (λ r. (_, refl)))
      (λ _. (_, refl))

write_tag-Returns :
    (vt : Vtable) (start_time : ℕ) (waits : List Wait) (timeout : ℕ) (t : Live)
    → EndsBy (start_time + timeout) waits
    → Returns (write_tag vt start_time waits timeout t)
unfolding write_tag
write_tag-Returns vt start_time waits timeout t ends =
    let b = begin_write vt t in
    if-Returns (not b.is_done && ltb 0 timeout) _ _
      (λ _.
        bind-Returns (wait_loop vt (start_time + timeout) waits b.calls b.tag) _
          (wait_loop-Returns vt (start_time + timeout) waits b.calls b.tag ends) (λ r. (_, refl)))
      (λ _. (_, refl))

-- If one of the waits lasts until the timeout has passed, or fails, both `plc_tag_read` and
-- `plc_tag_write` return, whatever the protocol and the other threads do, for any timeout and for
-- any handle.
pub transfer-Returns :
    (vt : Vtable) (now start_time last : ℕ) (waits : List Wait) (timeout : ℤ) (found : Option Live)
    → EndsBy (start_time + pos_part timeout) waits
    → Returns (plc_tag_read vt now start_time last waits timeout found)
      × Returns (plc_tag_write vt start_time waits timeout found)
unfolding plc_tag_read plc_tag_write
transfer-Returns vt now start_time last waits timeout none ends = ((_, refl), (_, refl))
transfer-Returns vt now start_time last waits timeout (some t) ends = (
  if-Returns (ltb_ℤ timeout (pos 0)) _ _ (λ _. (_, refl))
      (λ _.
        bind-Returns (read_tag vt now start_time last waits (pos_part timeout) t) _
          (read_tag-Returns vt now start_time last waits (pos_part timeout) t ends)
          (λ r. (_, refl))),
  if-Returns (ltb_ℤ timeout (pos 0)) _ _ (λ _. (_, refl))
      (λ _.
        bind-Returns (write_tag vt start_time waits (pos_part timeout) t) _
          (write_tag-Returns vt start_time waits (pos_part timeout) t ends) (λ r. (_, refl))),
)
