-- ===== src/Modbus/Assembly.antt =====
-- A response that comes in pieces is put together: `receive_response` of
-- libplctag/src/libplctag/protocols/mb/modbus.c.
use mathlib.Core.Path.{subst}
use junk.Prelude.{
  ℕ, zero, suc, ◌+◌, ◌≤◌, ◌<◌, ◌≡◌, refl, ◌∙◌, true, false, List, [], ◌∷◌, Option, some,
  if◌then◌else◌, ◌>>=◌, ◌==◌, ◌==ℤ◌, length, take, drop, arith, inl, inr, length-take, length-drop,
  if_first, Bool-cases,
}
use junk.Memory.{Bytes}
use junk.Status.{status_ok, status_pending, err_timeout}
use junk.Modbus.{Plc}
use junk.Modbus.Connection.{
  SocketRead, got, failed, Received, received, data_needed, receive_loop, receive_response_with,
}
use junk.Modbus.Pieces.{
  wanted, Delivers, all_there, later, piece, IsFrame, Holds, data_needed-wanted, take_bytes-Holds,
}

-- A call has received the whole frame, or waits for the rest of it.
data Progress (frame : Bytes) (rs : List SocketRead) (r : Received) : Type 0 where
  finished :
      r.rc ≡ status_ok
      → r.plc.response_ready ≡ true
      → Holds frame r.plc (length frame)
      → Progress frame rs r
  waiting :
      (n : ℕ)
      → r.rc ≡ status_pending
      → length r.rest < length rs
      → n ≤ length frame
      → Holds frame r.plc n
      → Delivers frame n r.rest
      → Progress frame rs r

-- The whole frame is there before the next read.
loop_ends :
    (frame : Bytes) (rs : List SocketRead) (plc : Plc) (n : ℕ)
    → data_needed plc ≡ some (some (wanted frame n))
    → (wanted frame n == 0) ≡ true
    → receive_loop rs plc ≡ some (received (record plc { response_ready = true }) status_ok rs)
unfolding receive_loop
loop_ends frame [] plc n e h = rw (receive_loop, e, h) refl
loop_ends frame (got bs ∷ rs) plc n e h = rw (receive_loop, e, h) refl
loop_ends frame (failed rc ∷ rs) plc n e h = rw (receive_loop, e, h) refl

ends-Progress :
    (frame : Bytes) (rs : List SocketRead) (plc : Plc) (n : ℕ)
    → IsFrame frame
    → Holds frame plc n
    → n ≤ length frame
    → (wanted frame n == 0) ≡ true
    → (r : Received) × (receive_loop rs plc ≡ some r) × Progress frame rs r
ends-Progress frame rs plc n f h le z =
    let all : n ≡ length frame = ground (arith, z) in
    (
      received (record plc { response_ready = true }) status_ok rs,
      loop_ends frame rs plc n (data_needed-wanted frame plc n f h le) z,
      finished refl refl (
          subst (λ m. Holds frame (record plc { response_ready = true }) m) all
            (record { room = h.room; len = h.len; bytes = h.bytes; sock = h.sock })),
    )

one_more :
    (frame : Bytes) (first : SocketRead) (rs : List SocketRead) (r : Received)
    → Progress frame rs r
    → Progress frame (first ∷ rs) r
one_more frame first rs r (finished ok flag h) = finished ok flag h
one_more frame first rs r (waiting n rc lt le h d) = waiting n rc (omega arith) le h d

receive_loop-Progress :
    (frame : Bytes) (n : ℕ) (rs : List SocketRead) (plc : Plc)
    → IsFrame frame
    → Delivers frame n rs
    → Holds frame plc n
    → n ≤ length frame
    → (r : Received) × (receive_loop rs plc ≡ some r) × Progress frame rs r
unfolding receive_loop
receive_loop-Progress frame n rs plc f all_there h le =
    ends-Progress frame [] plc (length frame) f h le (ground (arith, f.tells))
receive_loop-Progress frame n _ plc f (later {rs = rs} d) h le =
    elim (Bool-cases (wanted frame n == 0)) [
      | inl z ↦ ends-Progress frame (failed err_timeout ∷ rs) plc n f h le z
      | inr z ↦ (
        received plc status_pending rs,
        rw (receive_loop, data_needed-wanted frame plc n f h le, z) refl,
        waiting n refl (omega arith) le h d,
      )
    ]
receive_loop-Progress frame n _ plc f (piece {rs = rs} k some_bytes fits d) h le =
    let z : (wanted frame n == 0) ≡ false = ground arith in
    let le' : n + k ≤ length frame = ground (arith, f.tells) in
    let (plc', t, h') = take_bytes-Holds frame plc n k h le' f.small in
    let long : length (take k (drop n frame)) ≡ k =
      omega (arith, length-take k (drop n frame), length-drop n frame) in
    let full : (length (take k (drop n frame)) == 0) ≡ false = ground (arith, long) in
    let (r, runs, p) = receive_loop-Progress frame (n + k) rs plc' f d h' le' in
    (
      r,
      rw (receive_loop, data_needed-wanted frame plc n f h le, z) (rw (t, full) runs),
      one_more frame (got (take k (drop n frame))) rs r p,
    )

-- The handler calls the function as long as it is pending, `n` times at most.
unfoldable pub receive_calls : ℕ → List SocketRead → Plc → Option Received
receive_calls zero rs plc = some (received plc status_pending rs)
receive_calls (suc n) rs plc = receive_response_with rs plc >>= λ r.
    let later = receive_calls n r.rest r.plc in if r.rc ==ℤ status_pending then later else some r

-- What the calls end with.
pub record IsReceived (frame : Bytes) (r : Received) : Type 0 where
  pub is_ok : r.rc ≡ status_ok
  pub is_ready : r.plc.response_ready ≡ true
  pub holds : Holds frame r.plc (length frame)

received_with :
    (rs : List SocketRead) (plc : Plc)
    → plc.has_sock ≡ true
    → receive_response_with rs plc ≡ receive_loop rs plc
unfolding receive_response_with
received_with rs plc h = if_first _ _ h

calls-IsReceived :
    (frame : Bytes) (m n : ℕ) (rs : List SocketRead) (plc : Plc)
    → IsFrame frame
    → Delivers frame n rs
    → Holds frame plc n
    → n ≤ length frame
    → length rs < m
    → (r : Received) × (receive_calls m rs plc ≡ some r) × IsReceived frame r
unfolding receive_calls
calls-IsReceived frame zero n rs plc f d h le lt = absurd (omega arith)
calls-IsReceived frame (suc m) n rs plc f d h le lt =
    let (r, runs, p) = receive_loop-Progress frame n rs plc f d h le in
    elim p [
      | finished ok flag all ↦ (
        r,
        rw (received_with rs plc h.sock ∙ runs, ok) refl,
        record { is_ok = ok; is_ready = flag; holds = all },
      )
      | waiting k rc shorter low here rest ↦
          let (r', runs', is) =
            calls-IsReceived frame m k r.rest r.plc f rest here low (omega arith) in
          (r', rw (received_with rs plc h.sock ∙ runs, rc) runs', is)
    ]

-- A frame of 300 bytes at most, at least a header, whose length field is right, and a PLC with a
-- socket and nothing in its buffer: however the socket cuts the frame into pieces, none of them
-- empty or longer than what the code asks for, and however many timeouts come before and between
-- them, calling `receive_response` as long as it is pending, at most once more than there are
-- reads, ends with OK and a response that is ready, and the buffer has the whole frame.
pub receive_calls-IsReceived :
    (frame : Bytes) (rs : List SocketRead) (plc : Plc)
    → IsFrame frame
    → Delivers frame 0 rs
    → Holds frame plc 0
    → (r : Received) × (receive_calls (suc (length rs)) rs plc ≡ some r) × IsReceived frame r
receive_calls-IsReceived frame rs plc f d h =
    calls-IsReceived frame (suc (length rs)) 0 rs plc f d h (omega arith) (omega arith)
