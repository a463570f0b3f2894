-- ===== src/Tag/Number/Safety.antt =====
-- The number accessors are defined on every valid tag, and keep the tags valid.
use junk.Memory.Words.{read_word-lt, write_word-Wrote}
use junk.Memory.{Bytes}
use junk.Prelude.{
  ℕ, suc, ◌+◌, ◌^◌, ◌<◌, ◌≡◌, refl, ◌∙◌, Bool, true, false, Option, none, some, inl, inr, arith,
  if◌then◌else◌, ℤ, pos, negsuc, leb_ℤ, ◌==ℤ◌, Bool-cases, Option-cases,
}
use junk.Status.{status_ok, err_no_data, err_out_of_bounds, err_not_found, err_unsupported}
use junk.Tag.Bit.Safety.{get_bit_impl-Defined, set_bit_impl-Defined}
use junk.Tag.Bit.{set_bit_impl}
use junk.Tag.Number.Kinds.{
  Kind, uint64, int64, float64, float32, getter, setter, width, default, no_data_value, to_word,
  of_word, get_body, set_body, getter-on_tag, setter-on_tag, Holds,
}
use junk.Tag.Number.RoundTrip.{fits, is_bytes, positions-order, get_body-read, set_body-write}
use junk.Tag.Number.{
  get_value, get_bit_value, get_number, set_value, set_bit_value, set_number, set_int64_body,
  get_float, set_float,
}
use junk.Tag.{
  Tag, Tags, with_status, in_bounds, check_bounds, check_bounds-int, index_of, IsSized, IsValid,
  with_status-IsValid, IsSized-length, with_buffer, with_buffer-IsValid, DefinedAt, Safe, TagsValid,
  Untraced, on_tag_found-Safe,
}

-- The debug level does not matter unless a bit is read.
abbrev Quiet : Tag → Type 0
Quiet t = t.spew ≡ false

-- The offset and the width have a sum that is an `int`.
abbrev IsInt : Kind → ℤ → Type 0
IsInt k offset = index_of offset + width k < 2 ^ 31

-- The other branches, by the type of the number.
pub get_body_no_data :
    (k : Kind) (offset : ℤ) (t : Tag)
    → t.buffer ≡ none
    → get_body offset k t ≡ some (with_status t err_no_data, no_data_value k)
unfolding get_body get_number get_float
get_body_no_data uint64 offset t e = ground arith
get_body_no_data _ offset t e = ground arith

pub get_body_outside :
    (k : Kind) (offset : ℤ) (t : Tag) (bs : Bytes)
    → t.buffer ≡ some bs
    → t.is_bit ≡ false
    → check_bounds offset (width k) t.size ≡ false
    → get_body offset k t ≡ some (with_status t err_out_of_bounds, default k)
unfolding get_body get_number get_float get_value
get_body_outside uint64 offset t bs e plain out = ground arith
get_body_outside _ offset t bs e plain out = ground arith

pub set_body_outside :
    (k : Kind) (offset v : ℤ) (t : Tag) (bs : Bytes)
    → t.buffer ≡ some bs
    → t.is_bit ≡ false
    → check_bounds offset (width k) t.size ≡ false
    → set_body offset k v t ≡ some (with_status t err_out_of_bounds, err_out_of_bounds)
unfolding set_body set_number set_int64_body set_float set_value
set_body_outside uint64 offset v t bs e plain out = ground arith
set_body_outside _ offset v t bs e plain out = ground arith

-- Is it one of the two floating point types?
abbrev pub is_float : Kind → Bool
is_float float64 = true
is_float float32 = true
is_float _ = false

pub get_body_bit :
    (k : Kind) (offset : ℤ) (t : Tag) (bs : Bytes)
    → t.buffer ≡ some bs
    → t.is_bit ≡ true
    → get_body offset k t ≡ (
        if is_float k
        then some (with_status t err_unsupported, default k)
        else get_bit_value (default k) t)
unfolding get_body get_number get_float
get_body_bit uint64 offset t bs e bit = ground arith
get_body_bit _ offset t bs e bit = ground arith

pub set_body_bit :
    (k : Kind) (offset v : ℤ) (t : Tag) (bs : Bytes)
    → t.buffer ≡ some bs
    → t.is_bit ≡ true
    → set_body offset k v t ≡ (
        if is_float k
        then some (with_status t err_unsupported, err_unsupported)
        else set_bit_value (to_word k v) t)
unfolding set_body set_number set_int64_body set_float
set_body_bit uint64 offset v t bs e bit = ground arith
set_body_bit _ offset v t bs e bit = ground arith

get_bit_value-Defined :
    (default : ℤ) (t : Tag) → Quiet t → IsValid t → DefinedAt (get_bit_value default) t
unfolding get_bit_value
get_bit_value-Defined default t q v =
    let (t', r, run, v') = get_bit_impl-Defined t.bit t q v in
    (t', if leb_ℤ (pos 0) r then r else default, rw run, v')

set_bit_value-Defined : (w : ℕ) (t : Tag) → Quiet t → IsValid t → DefinedAt (set_bit_value w) t
unfolding set_bit_value
set_bit_value-Defined w t q v =
    set_bit_impl-Defined (pos 0) (if pos w ==ℤ pos 0 then pos 0 else pos 1) t q v

get_body-Defined :
    (k : Kind) (offset : ℤ) (t : Tag)
    → IsInt k offset
    → Quiet t
    → IsValid t
    → DefinedAt (get_body offset k) t
get_body-Defined k offset t int q v = elim (Option-cases t.buffer) [
  | inl e ↦ (_, _, get_body_no_data k offset t e, with_status-IsValid t err_no_data v)
  | inr (bs, e) ↦ elim (Bool-cases t.is_bit) [
    | inl bit ↦ elim (Bool-cases (is_float k)) [
      | inl f ↦ (
        with_status t err_unsupported,
        default k,
        get_body_bit k offset t bs e bit ∙ rw f,
        with_status-IsValid t err_unsupported v,
      )
      | inr f ↦
          let (t', r, run, v') = get_bit_value-Defined (default k) t q v in
          (t', r, get_body_bit k offset t bs e bit ∙ rw f run, v')
    ]
    | inr plain ↦ elim (Bool-cases (in_bounds offset (width k) t.size)) [
      | inl inside ↦
          let h : Holds k offset t bs = record {
            valid = v;
            has_buffer = e;
            plain = plain;
            inside = inside;
          } in
          let (w, run, lt) =
            read_word-lt bs (index_of offset) (width k) (positions-order h) (fits h) (is_bytes h) in
          (
            with_status t status_ok,
            of_word k w,
            get_body-read h w run,
            with_status-IsValid t status_ok v,
          )
      | inr out ↦ (
        with_status t err_out_of_bounds,
        default k,
        get_body_outside k offset t bs e plain (check_bounds-int offset (width k) t.size int ∙ out),
        with_status-IsValid t err_out_of_bounds v,
      )
    ]
  ]
]

IsSized-none : (b : Option Bytes) (size : ℕ) → b ≡ none → IsSized b size → size ≡ 0
IsSized-none none size e h = h
IsSized-none (some bs) size e h = cc

in_bounds-zero : (offset : ℤ) (w : ℕ) → in_bounds offset (suc w) 0 ≡ false
in_bounds-zero (pos o) w = ground arith
in_bounds-zero (negsuc n) w = refl

-- What a setter says of a tag without a buffer that is no bit tag.
abbrev pub no_data_status : Kind → ℤ
no_data_status int64 = err_out_of_bounds
no_data_status _ = err_no_data

pub set_body_no_data :
    (k : Kind) (offset v : ℤ) (t : Tag)
    → t.buffer ≡ none
    → t.is_bit ≡ false
    → IsValid t
    → IsInt k offset
    → set_body offset k v t ≡ some (with_status t (no_data_status k), no_data_status k)
unfolding set_body set_number set_int64_body set_float
set_body_no_data int64 offset v t e plain valid int =
    let empty = IsSized-none t.buffer t.size e valid.sized in
    ground (arith, check_bounds-int offset 8 0 int, in_bounds-zero offset 7)
set_body_no_data _ offset v t e plain valid int = ground arith

set_body_no_data_bit :
    (k : Kind) (offset v : ℤ) (t : Tag)
    → t.buffer ≡ none
    → t.is_bit ≡ true
    → set_body offset k v t ≡ some (with_status t err_no_data, err_no_data)
unfolding set_body set_number set_int64_body set_float set_bit_value set_bit_impl
set_body_no_data_bit int64 offset v t e bit = ground arith
set_body_no_data_bit _ offset v t e bit = ground arith

set_no_data :
    (k : Kind) (offset v : ℤ) (t : Tag)
    → IsInt k offset
    → IsValid t
    → t.buffer ≡ none
    → DefinedAt (set_body offset k v) t
set_no_data k offset v t int valid e = elim (Bool-cases t.is_bit) [
  | inl bit ↦ (
    with_status t err_no_data,
    err_no_data,
    set_body_no_data_bit k offset v t e bit,
    with_status-IsValid t err_no_data valid,
  )
  | inr plain ↦ (
    with_status t (no_data_status k),
    no_data_status k,
    set_body_no_data k offset v t e plain valid int,
    with_status-IsValid t (no_data_status k) valid,
  )
]

set_body-Defined :
    (k : Kind) (offset v : ℤ) (t : Tag)
    → IsInt k offset
    → Quiet t
    → IsValid t
    → DefinedAt (set_body offset k v) t
set_body-Defined k offset x t int q v = elim (Option-cases t.buffer) [
  | inl e ↦ set_no_data k offset x t int v e
  | inr (bs, e) ↦ elim (Bool-cases t.is_bit) [
    | inl bit ↦ elim (Bool-cases (is_float k)) [
      | inl f ↦ (
        with_status t err_unsupported,
        err_unsupported,
        set_body_bit k offset x t bs e bit ∙ rw f,
        with_status-IsValid t err_unsupported v,
      )
      | inr f ↦
          let (t', r, run, v') = set_bit_value-Defined (to_word k x) t q v in
          (t', r, set_body_bit k offset x t bs e bit ∙ rw f run, v')
    ]
    | inr plain ↦ elim (Bool-cases (in_bounds offset (width k) t.size)) [
      | inl inside ↦
          let h : Holds k offset t bs = record {
            valid = v;
            has_buffer = e;
            plain = plain;
            inside = inside;
          } in
          let (after, w) =
            write_word-Wrote bs (index_of offset) (width k) (positions-order h) (fits h)
              (to_word k x) in
          (
            with_buffer t after,
            status_ok,
            set_body-write h x after w.writes,
            with_buffer-IsValid t after
                (w.same_length ∙ (IsSized-length t.buffer t.size bs e v.sized).0)
                (w.bytes (is_bytes h)) v,
          )
      | inr out ↦ (
        with_status t err_out_of_bounds,
        err_out_of_bounds,
        set_body_outside k offset x t bs e plain
            (check_bounds-int offset (width k) t.size int ∙ out),
        with_status-IsValid t err_out_of_bounds v,
      )
    ]
  ]
]

-- Getting or setting a number of any of the ten types never leaves a buffer and never follows a
-- null pointer, whatever the handle, the value and the offset, if the sum of the offset and the
-- width of the type is at most INT_MAX, the tags of the table are valid, and the debug level is
-- below the finest one; and it leaves the tags valid.
pub number-Safe :
    (k : Kind) (tags : Tags) (id offset v : ℤ)
    → index_of offset + width k < 2 ^ 31
    → TagsValid tags
    → Untraced tags
    → Safe (getter k tags id offset) × Safe (setter k tags id offset v)
number-Safe k tags id offset v int valid quiet = (
  rw (getter-on_tag k tags id offset) (
      on_tag_found-Safe tags id (default k) (get_body offset k)
        (λ t found v'. get_body-Defined k offset t int (quiet id t found) v') valid),
  rw (setter-on_tag k tags id offset v) (
      on_tag_found-Safe tags id err_not_found (set_body offset k v)
        (λ t found v'. set_body-Defined k offset v t int (quiet id t found) v') valid),
)
