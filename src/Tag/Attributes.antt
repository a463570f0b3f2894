-- ===== src/Tag/Attributes.antt =====
-- `set_tag_byte_order` in libplctag/src/libplctag/lib/lib.c: the byte order and the kind of
-- strings that the attributes of a tag ask for. The attributes of libplctag/src/utils/attr.c are
-- seen through `attr_get_str` and `attr_get_int`, each with its default.
pub mod Consistency
pub mod Strings
mod Tests
use junk.Prelude.{
  ℕ, zero, suc, ◌+◌, ◌-◌, ◌%◌, ◌^◌, ◌≡◌, Bool, true, false, not, List, [], ◌∷◌, ◌++◌, Option, none,
  some, if◌then◌else◌, ℤ, pos, pos_part, ltb, leb_ℤ, ◌==◌, ◌==ℤ◌, ◌&&◌, ◌||◌,
}
use junk.Status.{status_ok, err_bad_param, err_no_mem}
use junk.Tag.{ByteOrder}
use junk.Tag.Order.{check_byte_order_str}

-- The attributes that the function reads.
pub data Attribute : Type 0 where
  int16_byte_order int32_byte_order int64_byte_order float32_byte_order float64_byte_order :
      Attribute
  is_counted is_fixed_length is_zero_terminated is_byte_swapped : Attribute
  count_word_bytes max_capacity total_length pad_bytes pad_to_multiple_bytes : Attribute

abbrev pub all_attributes : List Attribute
all_attributes =
    int16_byte_order ∷ int32_byte_order ∷ int64_byte_order ∷ float32_byte_order ∷ float64_byte_order
    ∷ is_counted ∷ is_fixed_length ∷ is_zero_terminated ∷ is_byte_swapped ∷ count_word_bytes
    ∷ max_capacity ∷ total_length ∷ pad_bytes ∷ pad_to_multiple_bytes ∷ []

-- `attr_get_str(attribs, name, NULL)` and `attr_get_int(attribs, name, 0)`
pub record Attribs : Type 0 where
  pub get_str : Attribute → Option (List ℕ)
  pub get_int : Attribute → ℤ

abbrev pub is_given : Attribs → Attribute → Bool
is_given attribs name = elim (attribs.get_str name) [ none ↦ false | some _ ↦ true ]

-- `!use_default`
unfoldable pub overrides : Attribs → List Attribute → Bool
overrides attribs [] = false
overrides attribs (name ∷ names) = is_given attribs name || overrides attribs names

-- One attribute's block: the byte order, and `rc`.
abbrev pub Block : Type 0
Block = ByteOrder → ByteOrder × ℤ

-- `(byte_order_str[i] - '0') & (n - 1)`
abbrev pub masked_digits : ℕ → List ℕ → List ℕ
masked_digits n [] = []
masked_digits n (c ∷ cs) = ((c - b'0') % n) ∷ masked_digits n cs

unfoldable pub set_order : Attribs → Attribute → ℕ → (List ℕ → ByteOrder → ByteOrder) → Block
set_order attribs name n put o = elim (attribs.get_str name) [
  | none ↦ (o, status_ok)
  | some byte_order_str ↦
      let rc = check_byte_order_str byte_order_str n in
      if rc ==ℤ status_ok then (put (masked_digits n byte_order_str) o, rc) else (o, rc)
]

unfoldable pub set_flag : Attribs → Attribute → (Bool → ByteOrder → ByteOrder) → Block
set_flag attribs name put o =
    let str_param = attribs.get_int name in
    if is_given attribs name
    then (if str_param ==ℤ pos 1 || str_param ==ℤ pos 0
        then (put (not (str_param ==ℤ pos 0)) o, status_ok)
        else (o, err_bad_param))
    else (o, status_ok)

unfoldable pub set_count : Attribs → Block
set_count attribs o =
    let str_param = attribs.get_int count_word_bytes in
    if is_given attribs count_word_bytes
    then (if str_param ==ℤ pos 0
          || (str_param ==ℤ pos 1
              || (str_param ==ℤ pos 2 || (str_param ==ℤ pos 4 || str_param ==ℤ pos 8)))
        then (record o { str_count_word_bytes = pos_part str_param }, status_ok)
        else (o, err_bad_param))
    else (o, status_ok)

unfoldable pub set_size : Attribs → Attribute → (ℕ → ByteOrder → ByteOrder) → Block
set_size attribs name put o =
    let str_param = attribs.get_int name in
    if is_given attribs name
    then (if leb_ℤ (pos 0) str_param
        then (put (pos_part str_param) o, status_ok)
        else (o, err_bad_param))
    else (o, status_ok)

unfoldable pub set_pad_multiple : Attribs → Block
set_pad_multiple attribs o =
    let str_param = attribs.get_int pad_to_multiple_bytes in
    if is_given attribs pad_to_multiple_bytes
    then (if str_param ==ℤ pos 0
          || (str_param ==ℤ pos 1 || (str_param ==ℤ pos 2 || str_param ==ℤ pos 4))
        then (
          record o {
            str_pad_to_multiple_bytes = if str_param ==ℤ pos 0 then 1 else pos_part str_param;
          },
          status_ok,
        )
        else (o, err_bad_param))
    else (o, status_ok)

-- The sum of the parts of a string, in `unsigned int`: it wraps around.
abbrev pub parts : ByteOrder → ℕ
parts o =
    ((if o.str_is_zero_terminated then 1 else 0)
      + o.str_max_capacity
      + o.str_count_word_bytes
      + o.str_pad_bytes)
    % 2 ^ 32

-- The checks of the combination, and whether strings are defined.
unfoldable pub check_strings : Block
check_strings o =
    if o.str_is_counted && o.str_count_word_bytes == 0
    then (o, err_bad_param)
    else if o.str_is_fixed_length && o.str_total_length == 0
    then (o, err_bad_param)
    else if ltb 0 o.str_total_length && ltb o.str_total_length (parts o)
    then (o, err_bad_param)
    else if o.str_is_counted || o.str_is_zero_terminated
    then (record o { str_is_defined = true }, status_ok)
    else (o, status_ok)

-- The blocks in their order; the first error returns.
unfoldable pub run_blocks : List Block → Block
run_blocks [] o = (o, status_ok)
run_blocks (block ∷ blocks) o =
    let (o', rc) = block o in
    let rest = run_blocks blocks o' in if rc ==ℤ status_ok then rest else (o', rc)

abbrev pub order_blocks : Attribs → List Block
order_blocks attribs =
    set_order attribs int16_byte_order 2 (λ d o. record o { int16_order = d })
    ∷ set_order attribs int32_byte_order 4 (λ d o. record o { int32_order = d })
    ∷ set_order attribs int64_byte_order 8 (λ d o. record o { int64_order = d })
    ∷ set_order attribs float32_byte_order 4 (λ d o. record o { float32_order = d })
    ∷ set_order attribs float64_byte_order 8 (λ d o. record o { float64_order = d })
    ∷ []

abbrev pub setting_blocks : Attribs → List Block
setting_blocks attribs =
    set_flag attribs is_counted (λ b o. record o { str_is_counted = b })
    ∷ set_flag attribs is_fixed_length (λ b o. record o { str_is_fixed_length = b })
    ∷ set_flag attribs is_zero_terminated (λ b o. record o { str_is_zero_terminated = b })
    ∷ set_flag attribs is_byte_swapped (λ b o. record o { str_is_byte_swapped = b })
    ∷ set_count attribs
    ∷ set_size attribs max_capacity (λ n o. record o { str_max_capacity = n })
    ∷ set_size attribs total_length (λ n o. record o { str_total_length = n })
    ∷ set_size attribs pad_bytes (λ n o. record o { str_pad_bytes = n })
    ∷ set_pad_multiple attribs
    ∷ []

abbrev pub string_blocks : Attribs → List Block
string_blocks attribs = setting_blocks attribs ++ (check_strings ∷ [])

-- `allocated` says whether there is memory for a new byte order. The tag's old one is not
-- changed: the tag points to the new one afterwards, even after an error.
unfoldable pub set_tag_byte_order : Bool → Attribs → ByteOrder → ByteOrder × ℤ
set_tag_byte_order allocated attribs o =
    if overrides attribs all_attributes
    then (if allocated
        then (let (o', rc) = run_blocks (order_blocks attribs) o in
            if rc ==ℤ status_ok then run_blocks (string_blocks attribs) o' else (o', rc))
        else (o, err_no_mem))
    else (o, status_ok)
