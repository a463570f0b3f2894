-- ===== src/Modbus/ReadPayload.antt =====
-- How `check_read_response` of libplctag/src/libplctag/protocols/mb/modbus.c takes the payload of a
-- response into the tag's data, and which part of the tag a request asks for.
use mathlib.Core.Path.{subst}
use junk.Prelude.{
  ℕ, ◌+◌, ◌-◌, ◌*◌, ◌/◌, ◌≤◌, ◌<◌, ◌≡◌, refl, sym, ◌∙◌, ◌⊎◌, inl, inr, some, arith, length, get_or,
  Bool-cases, ltb, pos, min, get_elem?-get_or,
}
use junk.Memory.{Bytes}
use junk.Tag.Raw.{copy_bytes}
use junk.Tag.Raw.Copying.{copy_bytes-Copied}
use junk.Modbus.{Plc, ModbusTag}
use junk.Modbus.Requests.{register_count}
use junk.Modbus.Responses.{byte_offset, copy_payload}

-- The first `n` bytes are the same.
abbrev pub Agree : ℕ → Bytes → Bytes → Type 0
Agree n xs ys = (i : ℕ) → i < n → get_or xs i 0 ≡ get_or ys i 0

-- What request `k` of a read asks for: `per` registers of `es` bits at most, of `ec` in all, that
-- fill `size` bytes.
pub record IsChunk (es per ec k size : ℕ) : Type 0 where
  pub below : k * per ≤ ec
  pub inside : (k * per < ec) ⊎ (k ≡ 0)
  pub small : 125 * k ≤ ec
  pub offset : (k * per * es) / 8 ≡ 250 * k
  pub few : min per (ec - k * per) ≤ 2000
  pub fits : min per (ec - k * per) * es ≤ 2000
  pub bytes : (min per (ec - k * per) * es + 7) / 8 ≡ min 250 (size - 250 * k)

of_coils :
    (ec k : ℕ) → (250 * k < (ec * 1 + 7) / 8) ⊎ (k ≡ 0) → IsChunk 1 2000 ec k ((ec * 1 + 7) / 8)
of_coils ec k h = record {
  below = omega arith;
  inside = elim h [ inl lt ↦ inl (omega arith) | inr e ↦ inr e ];
  small = omega arith;
  offset = omega arith;
  few = omega arith;
  fits = omega arith;
  bytes = omega arith;
}

of_words :
    (ec k : ℕ) → (250 * k < (ec * 16 + 7) / 8) ⊎ (k ≡ 0) → IsChunk 16 125 ec k ((ec * 16 + 7) / 8)
of_words ec k h = record {
  below = omega arith;
  inside = elim h [ inl lt ↦ inl (omega arith) | inr e ↦ inr e ];
  small = omega arith;
  offset = omega arith;
  few = omega arith;
  fits = omega arith;
  bytes = omega arith;
}

pub IsChunk-of :
    (es ec k : ℕ)
    → (es ≡ 1) ⊎ (es ≡ 16)
    → (250 * k < (ec * es + 7) / 8) ⊎ (k ≡ 0)
    → IsChunk es ((250 * 8) / es) ec k ((ec * es + 7) / 8)
IsChunk-of es ec k (inl e) =
    subst
      (λ s.
        (250 * k < (ec * s + 7) / 8) ⊎ (k ≡ 0) → IsChunk s ((250 * 8) / s) ec k ((ec * s + 7) / 8))
      (sym e) (of_coils ec k)
IsChunk-of es ec k (inr e) =
    subst
      (λ s.
        (250 * k < (ec * s + 7) / 8) ⊎ (k ≡ 0) → IsChunk s ((250 * 8) / s) ec k ((ec * s + 7) / 8))
      (sym e) (of_words ec k)

pub register_count_lem :
    (per : ℕ) (tag : ModbusTag)
    → tag.request_num * per ≤ tag.elem_count
    → register_count per tag ≡ pos (min per (tag.elem_count - tag.request_num * per))
unfolding register_count
register_count_lem per tag h = ground arith

pub Agree-further :
    (from p : ℕ) (after image : Bytes)
    → Agree from after image
    → ((j : ℕ) → j < p → get_or after (from + j) 0 ≡ get_or image (from + j) 0)
    → Agree (from + p) after image
Agree-further from p after image before here i lt = elim (Bool-cases (ltb i from)) [
  | inl b ↦ before i (ground arith)
  | inr b ↦
      let at : from + (i - from) ≡ i = ground arith in
      subst (λ q. get_or after q 0 ≡ get_or image q 0) at (here (i - from) (ground arith))
]

-- After the payload of `p` bytes at position `from` the data agrees with `image` that far.
pub record Filled (plc : Plc) (tag : ModbusTag) (image : Bytes) (from p : ℕ) (after : Bytes)
    : Type 0 where
  pub runs : copy_payload plc tag ≡ some (after, ltb (from + p) tag.size)
  pub same_length : length after ≡ length tag.buffer
  pub agrees : Agree (from + p) after image

copy_payload-runs :
    (plc : Plc) (tag : ModbusTag) (from p : ℕ) (after : Bytes)
    → length plc.read_data ≡ 300
    → get_or plc.read_data 8 0 ≡ p
    → byte_offset tag.request_num tag ≡ from
    → min (tag.size - from) p ≡ p
    → copy_bytes p 0 plc.read_data 9 tag.buffer from ≡ some after
    → copy_payload plc tag ≡ some (after, ltb (from + p) tag.size)
unfolding copy_payload
copy_payload-runs plc tag from p after full payload place whole runs =
    rw (get_elem?-get_or plc.read_data 8 0 (omega arith), payload, place, whole, runs) refl

pub copy_payload-Filled :
    (plc : Plc) (tag : ModbusTag) (image : Bytes) (from p : ℕ)
    → length plc.read_data ≡ 300
    → get_or plc.read_data 8 0 ≡ p
    → byte_offset tag.request_num tag ≡ from
    → p ≤ 250
    → p ≤ tag.size - from
    → from + p ≤ length tag.buffer
    → Agree from tag.buffer image
    → ((i : ℕ) → i < p → get_or plc.read_data (9 + i) 0 ≡ get_or image (from + i) 0)
    → (after : Bytes) × Filled plc tag image from p after
copy_payload-Filled plc tag image from p full payload place le fit room before answer =
    let whole : min (tag.size - from) p ≡ p = omega arith in
    let (after, c) =
      copy_bytes-Copied p 0 plc.read_data 9 tag.buffer from (omega arith) (omega arith) in
    (
      after,
      record {
        runs = copy_payload-runs plc tag from p after full payload place whole c.runs;
        same_length = c.same_length;
        agrees =
            Agree-further from p after image (λ i lt. c.kept i (inl (omega arith)) ∙ before i lt)
              (λ j lt. c.copied j (omega arith) (omega arith) ∙ answer j lt);
      },
    )
