-- ===== src/Tag/Number/Kinds.antt =====
-- The accessors of Number by the type of the number, and what one does to a tag with data.
use junk.Prelude.{
  ℕ, ◌-◌, ◌*◌, ◌%◌, ◌^◌, ◌<◌, ◌≡◌, refl, true, false, List, [], ◌∷◌, Option, some, arith, ℤ, pos,
  negsuc, lt→ltb, ◌/◌, pos_part, to_unsigned, to_signed, FitsSigned,
}
use native.Mathlib.Nat.{mod-eq_of_lt}
use junk.Memory.{Bytes, IsOrder}
use junk.Status.{err_no_data, err_not_found}
use junk.Tag.{ByteOrder, Tag, Tags, on_tag, in_bounds, IsOrdered, IsValid}
use junk.Tag.Number.{
  int16_bytes, int32_bytes, int64_bytes, float32_bytes, float64_bytes, one_byte, get_number,
  set_number, set_int64_body, get_float, set_float, dbl_min, flt_min, plc_tag_get_uint64,
  plc_tag_set_uint64, plc_tag_get_int64, plc_tag_set_int64, plc_tag_get_uint32, plc_tag_set_uint32,
  plc_tag_get_int32, plc_tag_set_int32, plc_tag_get_uint16, plc_tag_set_uint16, plc_tag_get_int16,
  plc_tag_set_int16, plc_tag_get_uint8, plc_tag_set_uint8, plc_tag_get_int8, plc_tag_set_int8,
  plc_tag_get_float64, plc_tag_set_float64, plc_tag_get_float32, plc_tag_set_float32,
}

pub data Kind : Type 0 where
  uint64 int64 uint32 int32 uint16 int16 uint8 int8 float64 float32 : Kind

abbrev pub getter : Kind → Tags → ℤ → ℤ → Option (Tags × ℤ)
getter uint64 = plc_tag_get_uint64
getter int64 = plc_tag_get_int64
getter uint32 = plc_tag_get_uint32
getter int32 = plc_tag_get_int32
getter uint16 = plc_tag_get_uint16
getter int16 = plc_tag_get_int16
getter uint8 = plc_tag_get_uint8
getter int8 = plc_tag_get_int8
getter float64 = plc_tag_get_float64
getter float32 = plc_tag_get_float32

-- An unsigned number and the bit pattern of a float are given as integers that are not negative.
abbrev pub setter : Kind → Tags → ℤ → ℤ → ℤ → Option (Tags × ℤ)
setter uint64 tags id offset v = plc_tag_set_uint64 tags id offset (pos_part v)
setter int64 tags id offset v = plc_tag_set_int64 tags id offset v
setter uint32 tags id offset v = plc_tag_set_uint32 tags id offset (pos_part v)
setter int32 tags id offset v = plc_tag_set_int32 tags id offset v
setter uint16 tags id offset v = plc_tag_set_uint16 tags id offset (pos_part v)
setter int16 tags id offset v = plc_tag_set_int16 tags id offset v
setter uint8 tags id offset v = plc_tag_set_uint8 tags id offset (pos_part v)
setter int8 tags id offset v = plc_tag_set_int8 tags id offset v
setter float64 tags id offset v = plc_tag_set_float64 tags id offset (pos_part v)
setter float32 tags id offset v = plc_tag_set_float32 tags id offset (pos_part v)

abbrev pub width : Kind → ℕ
width uint64 = 8
width int64 = 8
width uint32 = 4
width int32 = 4
width uint16 = 2
width int16 = 2
width uint8 = 1
width int8 = 1
width float64 = 8
width float32 = 4

-- The values of the type.
abbrev pub FitsUnsigned : ℕ → ℤ → Type 0
FitsUnsigned m (pos n) = n < m
FitsUnsigned m (negsuc n) = ⊥

abbrev pub Fits : Kind → ℤ → Type 0
Fits uint64 = FitsUnsigned (2 ^ 64)
Fits int64 = FitsSigned (2 ^ 64)
Fits uint32 = FitsUnsigned (2 ^ 32)
Fits int32 = FitsSigned (2 ^ 32)
Fits uint16 = FitsUnsigned (2 ^ 16)
Fits int16 = FitsSigned (2 ^ 16)
Fits uint8 = FitsUnsigned (2 ^ 8)
Fits int8 = FitsSigned (2 ^ 8)
Fits float64 = FitsUnsigned (2 ^ 64)
Fits float32 = FitsUnsigned (2 ^ 32)

-- The result for a missing tag and for an offset out of bounds, and the one for a missing buffer.
abbrev pub default : Kind → ℤ
default uint64 = pos (2 ^ 64 - 1)
default int64 = negsuc (2 ^ 63 - 1)
default uint32 = pos (2 ^ 32 - 1)
default int32 = negsuc (2 ^ 31 - 1)
default uint16 = pos (2 ^ 16 - 1)
default int16 = negsuc (2 ^ 15 - 1)
default uint8 = pos (2 ^ 8 - 1)
default int8 = negsuc (2 ^ 7 - 1)
default float64 = pos dbl_min
default float32 = pos flt_min

abbrev pub no_data_value : Kind → ℤ
no_data_value int64 = err_no_data
no_data_value int32 = err_no_data
no_data_value int16 = err_no_data
no_data_value int8 = err_no_data
no_data_value k = default k

-- The word that stands for a value, and the value of a word.
abbrev pub to_word : Kind → ℤ → ℕ
to_word int64 v = to_unsigned (2 ^ 64) v
to_word int32 v = to_unsigned (2 ^ 32) v
to_word int16 v = to_unsigned (2 ^ 16) v
to_word int8 v = to_unsigned (2 ^ 8) v
to_word _ v = pos_part v

abbrev pub of_word : Kind → ℕ → ℤ
of_word int64 n = to_signed (2 ^ 64) n
of_word int32 n = to_signed (2 ^ 32) n
of_word int16 n = to_signed (2 ^ 16) n
of_word int8 n = to_signed (2 ^ 8) n
of_word _ n = pos n

abbrev pub byte_positions : Kind → ByteOrder → List ℕ
byte_positions uint64 o = o.int64_order
byte_positions int64 o = o.int64_order
byte_positions uint32 o = o.int32_order
byte_positions int32 o = o.int32_order
byte_positions uint16 o = o.int16_order
byte_positions int16 o = o.int16_order
byte_positions uint8 o = 0 ∷ []
byte_positions int8 o = 0 ∷ []
byte_positions float64 o = o.float64_order
byte_positions float32 o = o.float32_order

signed_round_trip :
    (h : ℕ) (v : ℤ)
    → FitsSigned (h * 2) v
    → (to_signed (h * 2) (to_unsigned (h * 2) v) ≡ v) × (to_unsigned (h * 2) v < h * 2)
signed_round_trip h (pos n) f =
    let half : h * 2 / 2 ≡ h = omega arith in
    let same : n % (h * 2) ≡ n = mod-eq_of_lt (omega arith) in
    rw (same, lt→ltb n (h * 2 / 2) f) (refl, omega arith)
signed_round_trip h (negsuc n) f =
    let half : h * 2 / 2 ≡ h = omega arith in
    let same : n % (h * 2) ≡ n = mod-eq_of_lt (omega arith) in rw same (ground arith)

unsigned_round_trip : (m : ℕ) (v : ℤ) → FitsUnsigned m v → (pos (pos_part v) ≡ v) × (pos_part v < m)
unsigned_round_trip m (pos n) f = (refl, f)
unsigned_round_trip m (negsuc n) f = absurd f

pub of_word-to_word :
    (k : Kind) (v : ℤ) → Fits k v → (of_word k (to_word k v) ≡ v) × (to_word k v < 256 ^ width k)
of_word-to_word int64 v f = signed_round_trip (2 ^ 63) v f
of_word-to_word int32 v f = signed_round_trip (2 ^ 31) v f
of_word-to_word int16 v f = signed_round_trip (2 ^ 15) v f
of_word-to_word int8 v f = signed_round_trip (2 ^ 7) v f
of_word-to_word uint64 v f = unsigned_round_trip (2 ^ 64) v f
of_word-to_word uint32 v f = unsigned_round_trip (2 ^ 32) v f
of_word-to_word uint16 v f = unsigned_round_trip (2 ^ 16) v f
of_word-to_word uint8 v f = unsigned_round_trip (2 ^ 8) v f
of_word-to_word float64 v f = unsigned_round_trip (2 ^ 64) v f
of_word-to_word float32 v f = unsigned_round_trip (2 ^ 32) v f

pub positions-IsOrder :
    (k : Kind) {o : ByteOrder} → IsOrdered o → IsOrder (width k) (byte_positions k o)
positions-IsOrder uint64 h = h.int64
positions-IsOrder int64 h = h.int64
positions-IsOrder uint32 h = h.int32
positions-IsOrder int32 h = h.int32
positions-IsOrder uint16 h = h.int16
positions-IsOrder int16 h = h.int16
positions-IsOrder uint8 h = record { full = refl; within = omega arith; distinct = (tt, tt) }
positions-IsOrder int8 h = record { full = refl; within = omega arith; distinct = (tt, tt) }
positions-IsOrder float64 h = h.float64
positions-IsOrder float32 h = h.float32

-- What the two accessors do to a tag that they find.
module _ (offset : ℤ) where
  unfoldable pub get_body : Kind → Tag → Option (Tag × ℤ)
  get_body uint64 = get_number int64_bytes 8 (default uint64) (default uint64) pos offset
  get_body int64 = get_number int64_bytes 8 err_no_data (default int64) (of_word int64) offset
  get_body uint32 = get_number int32_bytes 4 (default uint32) (default uint32) pos offset
  get_body int32 = get_number int32_bytes 4 err_no_data (default int32) (of_word int32) offset
  get_body uint16 = get_number int16_bytes 2 (default uint16) (default uint16) pos offset
  get_body int16 = get_number int16_bytes 2 err_no_data (default int16) (of_word int16) offset
  get_body uint8 = get_number one_byte 1 (default uint8) (default uint8) pos offset
  get_body int8 = get_number one_byte 1 err_no_data (default int8) (of_word int8) offset
  get_body float64 = get_float float64_bytes 8 (default float64) offset
  get_body float32 = get_float float32_bytes 4 (default float32) offset

  unfoldable pub set_body : Kind → ℤ → Tag → Option (Tag × ℤ)
  set_body uint64 v = set_number int64_bytes 8 offset (pos_part v)
  set_body int64 v = set_int64_body offset (to_word int64 v)
  set_body uint32 v = set_number int32_bytes 4 offset (pos_part v)
  set_body int32 v = set_number int32_bytes 4 offset (to_word int32 v)
  set_body uint16 v = set_number int16_bytes 2 offset (pos_part v)
  set_body int16 v = set_number int16_bytes 2 offset (to_word int16 v)
  set_body uint8 v = set_number one_byte 1 offset (pos_part v)
  set_body int8 v = set_number one_byte 1 offset (to_word int8 v)
  set_body float64 v = set_float float64_bytes 8 offset (pos_part v)
  set_body float32 v = set_float float32_bytes 4 offset (pos_part v)

kinds : Unit {0}
unfolding plc_tag_get_uint64 plc_tag_set_uint64 plc_tag_get_int64 plc_tag_set_int64
    plc_tag_get_uint32 plc_tag_set_uint32 plc_tag_get_int32 plc_tag_set_int32 plc_tag_get_uint16
    plc_tag_set_uint16 plc_tag_get_int16 plc_tag_set_int16 plc_tag_get_uint8 plc_tag_set_uint8
    plc_tag_get_int8 plc_tag_set_int8 plc_tag_get_float64 plc_tag_set_float64 plc_tag_get_float32
    plc_tag_set_float32 get_body set_body
kinds = tt

pub getter-on_tag :
    (k : Kind) (tags : Tags) (id offset : ℤ)
    → getter k tags id offset ≡ on_tag tags id (default k) (get_body offset k)
unfolding kinds
getter-on_tag uint64 tags id offset = refl
getter-on_tag _ tags id offset = refl

pub setter-on_tag :
    (k : Kind) (tags : Tags) (id offset v : ℤ)
    → setter k tags id offset v ≡ on_tag tags id err_not_found (set_body offset k v)
unfolding kinds
setter-on_tag uint64 tags id offset v = refl
setter-on_tag _ tags id offset v = refl

-- A tag that holds a number of the type at the offset: its buffer, its byte order.
pub record Holds (k : Kind) (offset : ℤ) (t : Tag) (bs : Bytes) : Type 0 where
  pub valid : IsValid t
  pub has_buffer : t.buffer ≡ some bs
  pub plain : t.is_bit ≡ false
  pub inside : in_bounds offset (width k) t.size ≡ true
