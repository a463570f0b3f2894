-- ===== src/Modbus/Frames.antt =====
-- The bytes of a request of libplctag/src/libplctag/protocols/mb/modbus.c, as they are put one by
-- one into `write_data`.
use mathlib.Core.Path.{subst}
use junk.Prelude.{
  ℕ, zero, suc, ◌+◌, ◌≤◌, ◌<◌, ◌≡◌, refl, ap, ◌∙◌, ◌⊎◌, inl, List, [], ◌∷◌, some, arith, length,
  get_or, set, lt→ltb, length-set, get_or-set_self, get_or-set_ne,
}
use junk.Memory.{Bytes}
use junk.Modbus.{Plc}
use junk.Modbus.Requests.{write_bytes}

abbrev pub with_frame : Plc → Bytes → ℕ → Plc
with_frame plc d n = record plc { write_data = d; write_data_len = n }

frame_end :
    (plc : Plc) (d : Bytes) {m n : ℕ}
    → m ≡ n
    → some (with_frame plc d m) ≡ some (with_frame plc d n)
frame_end plc d e = ap (λ n. some (with_frame plc d n)) e

placed_cons :
    (n b : ℕ) (bs d : Bytes)
    → get_or d n 0 ≡ b
    → ((j : ℕ) → j < length bs → get_or d (n + 1 + j) 0 ≡ get_or bs j 0)
    → (j : ℕ) → j < suc (length bs)
    → get_or d (n + j) 0 ≡ get_or (b ∷ bs) j 0
placed_cons n b bs d here later zero lt =
    let at : n ≡ n + 0 = omega arith in subst (λ q. get_or d q 0 ≡ b) at here
placed_cons n b bs d here later (suc j) lt =
    let at : n + 1 + j ≡ n + suc j = omega arith in
    subst (λ q. get_or d q 0 ≡ get_or bs j 0) at (later j (omega arith))

-- The buffer holds `bs` from where the frame ended, and is as before elsewhere.
pub record Put (plc : Plc) (bs d : Bytes) : Type 0 where
  pub runs : write_bytes plc bs ≡ some (with_frame plc d (plc.write_data_len + length bs))
  pub same_length : length d ≡ length plc.write_data
  pub placed : (j : ℕ) → j < length bs → get_or d (plc.write_data_len + j) 0 ≡ get_or bs j 0
  pub kept :
      (p : ℕ)
      → (p < plc.write_data_len) ⊎ (plc.write_data_len + length bs ≤ p)
      → get_or d p 0 ≡ get_or plc.write_data p 0

pub write_bytes-Put :
    (plc : Plc) (bs : List ℕ)
    → plc.write_data_len + length bs ≤ length plc.write_data
    → (d : Bytes) × Put plc bs d
unfolding write_bytes
write_bytes-Put plc [] room = (
  plc.write_data,
  record {
    runs = frame_end plc plc.write_data (omega arith);
    same_length = refl;
    placed = λ j lt. absurd (omega arith);
    kept = λ p out. refl;
  },
)
write_bytes-Put plc (b ∷ bs) room =
    let n = plc.write_data_len in
    let old = plc.write_data in
    let next = with_frame plc (set old n b) (n + 1) in
    let size = length-set old n b in
    let (d, p) = write_bytes-Put next bs (omega arith) in
    (
      d,
      record {
        runs =
            rw (write_bytes, lt→ltb n (length old) (omega arith))
              (p.runs ∙ frame_end plc d (omega arith));
        same_length = p.same_length ∙ size;
        placed =
            placed_cons n b bs d
              (p.kept n (inl (omega arith)) ∙ get_or-set_self old n b 0 (omega arith)) p.placed;
        kept = λ q out. p.kept q (omega arith) ∙ get_or-set_ne old n q b 0 (omega arith);
      },
    )
