-- ===== src/Modbus/Pieces.antt =====
-- The pieces in which a response comes, as `receive_response` of
-- libplctag/src/libplctag/protocols/mb/modbus.c asks for them and takes them.
use junk.Prelude.{
  ℕ, ◌+◌, ◌-◌, ◌*◌, ◌≤◌, ◌<◌, ◌≡◌, refl, sym, ap, ◌∙◌, true, List, [], ◌∷◌, some, if◌then◌else◌,
  leb, length, take, drop, get_or, arith, inl, inr, get_elem?-get_or, length-take, length-drop,
  get_or-take, get_or-drop, Bool-cases,
}
use junk.Memory.{Bytes}
use junk.Status.{err_timeout}
use junk.Tag.Raw.Copying.{copy_bytes-Copied}
use junk.Modbus.{Plc}
use junk.Modbus.Connection.{SocketRead, got, failed, data_needed, take_bytes}
use junk.Modbus.ReadPayload.{Agree, Agree-further}

-- How much of the frame is asked for when `n` bytes of it are there: the header, then the rest.
abbrev pub wanted : Bytes → ℕ → ℕ
wanted frame n = if leb 6 n then length frame - n else 6 - n

-- A socket that delivers the frame from byte `n` on, in pieces of at most what is asked for, with
-- timeouts in between.
pub data Delivers (frame : Bytes) : ℕ → List SocketRead → Type 0 where
  all_there : Delivers frame (length frame) []
  later :
      {n : ℕ} {rs : List SocketRead}
      → Delivers frame n rs
      → Delivers frame n (failed err_timeout ∷ rs)
  piece :
      {n : ℕ} {rs : List SocketRead} (k : ℕ)
      → 0 < k
      → k ≤ wanted frame n
      → Delivers frame (n + k) rs
      → Delivers frame n (got (take k (drop n frame)) ∷ rs)

-- A frame whose header tells its length, and that the buffer can hold.
pub record IsFrame (frame : Bytes) : Type 0 where
  pub tells : 6 + (get_or frame 5 0 + get_or frame 4 0 * 256) ≡ length frame
  pub small : length frame ≤ 300

-- The buffer has the first bytes of the frame.
pub record Holds (frame : Bytes) (plc : Plc) (n : ℕ) : Type 0 where
  pub room : length plc.read_data ≡ 300
  pub len : plc.read_data_len ≡ n
  pub bytes : Agree n plc.read_data frame
  pub sock : plc.has_sock ≡ true

pub data_needed-wanted :
    (frame : Bytes) (plc : Plc) (n : ℕ)
    → IsFrame frame
    → Holds frame plc n
    → n ≤ length frame
    → data_needed plc ≡ some (some (wanted frame n))
unfolding data_needed
data_needed-wanted frame plc n f h le = elim (Bool-cases (leb 6 n)) [
  | inl b ↦
      let low = h.bytes 5 (ground (arith, b)) in
      let high = h.bytes 4 (ground (arith, b)) in
      rw
        (
          data_needed,
          h.len,
          b,
          get_elem?-get_or plc.read_data 5 0 (omega (arith, h.room)),
          get_elem?-get_or plc.read_data 4 0 (omega (arith, h.room)),
          low,
          high,
        )
        (ground (arith, f.tells, f.small))
  | inr b ↦ rw (data_needed, h.len, b) refl
]

zero_and : (j : ℕ) → 0 + j ≡ j
zero_and j = omega arith

-- One piece goes behind the bytes that are there.
pub take_bytes-Holds :
    (frame : Bytes) (plc : Plc) (n k : ℕ)
    → Holds frame plc n
    → n + k ≤ length frame
    → length frame ≤ 300
    → (plc' : Plc) × (take_bytes (take k (drop n frame)) plc ≡ some plc') × Holds frame plc' (n + k)
unfolding take_bytes
take_bytes-Holds frame plc n k h le small =
    let bs = take k (drop n frame) in
    let long : length bs ≡ k = omega (arith, length-take k (drop n frame), length-drop n frame) in
    let (after, c) =
      copy_bytes-Copied (length bs) 0 bs 0 plc.read_data plc.read_data_len (omega arith)
        (omega (arith, h.room, h.len)) in
    (
      record plc { read_data = after; read_data_len = plc.read_data_len + length bs },
      rw c.runs refl,
      record {
        room = c.same_length ∙ h.room;
        len = omega (arith, h.len);
        bytes =
            Agree-further n k after frame
              (λ i lt. c.kept i (inl (omega (arith, h.len))) ∙ h.bytes i lt)
              (λ j lt.
                ap (λ (q : ℕ). get_or after (q + j) 0) (sym h.len)
                ∙ (c.copied j (omega arith) (omega arith)
                    ∙ (ap (λ (q : ℕ). get_or bs q 0) (zero_and j)
                        ∙ (get_or-take k (drop n frame) j 0 lt ∙ get_or-drop n frame j 0))));
        sock = h.sock;
      },
    )
