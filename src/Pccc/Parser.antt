-- ===== src/Pccc/Parser.antt =====
-- `parse_pccc_logical_address` of libplctag/src/libplctag/protocols/ab/pccc.c and the functions that
-- it calls. Each gives the rest of the text, the address, and its result.
use junk.Prelude.{
  ℕ, ◌+◌, ◌-◌, ◌*◌, ◌%◌, Bool, true, false, not, ◌&&◌, ◌||◌, List, [], ◌∷◌, if◌then◌else◌, ◌==◌,
  ◌==ℤ◌, ℤ, pos, negsuc, ltb, leb, length, drop,
}
use junk.Status.{status_ok, err_bad_param, err_no_match, err_out_of_bounds}
use junk.Attr.{Text}
use junk.Pccc.{PcccAddr}
use junk.Pccc.Types
use junk.Pccc.Fields.{SubElement, sub_element_lookup}

abbrev pub Parsed : Type 0
Parsed = Text × (PcccAddr × ℤ)

abbrev pub is_digit : ℕ → Bool
is_digit c = leb b'0' c && leb c b'9'

-- The character at the start, or behind it; 0 is the end of the text.
abbrev pub first_of : Text → ℕ
first_of [] = 0
first_of (c ∷ cs) = c

abbrev pub second_of : Text → ℕ
second_of [] = 0
second_of (c ∷ cs) = first_of cs

-- A letter, in both cases.
abbrev pub is_letter : ℕ → ℕ → Bool
is_letter upper c = c == upper || c == upper + 32

abbrev pub of_type : ℕ → ℕ → ℕ → Text → PcccAddr → Parsed
of_type file_type size skip p a =
    (drop skip p, (record a { file_type = file_type; element_size_bytes = size }, status_ok))

abbrev pub unknown_type : Text → PcccAddr → Parsed
unknown_type p a = (p, (record a { file_type = Types.pccc_file_unknown }, err_bad_param))

abbrev pub not_a_type : Text → PcccAddr → Parsed
not_a_type p a =
    (p, (record a { file_type = Types.pccc_file_unknown; element_size_bytes = 0 }, err_bad_param))

-- A type of two letters.
abbrev pub two_letters : ℕ → ℕ → ℕ → Text → PcccAddr → Parsed → Parsed
two_letters letter file_type size p a otherwise =
    if is_letter letter (second_of p) then of_type file_type size 2 p a else otherwise

unfoldable pub parse_pccc_file_type : Text → PcccAddr → Parsed
parse_pccc_file_type p a =
    let c = first_of p in
    if is_letter b'A' c
    then of_type Types.pccc_file_ascii 1 1 p a
    else if is_letter b'B' c
    then (if is_digit (second_of p)
        then of_type Types.pccc_file_bit 2 1 p a
        else two_letters b'T' Types.pccc_file_block_transfer 12 p a (not_a_type p a))
    else if is_letter b'C' c
    then of_type Types.pccc_file_counter 6 1 p a
    else if is_letter b'D' c
    then of_type Types.pccc_file_bcd 2 1 p a
    else if is_letter b'F' c
    then of_type Types.pccc_file_float 4 1 p a
    else if is_letter b'I' c
    then of_type Types.pccc_file_input 2 1 p (record a { file = pos 1 })
    else if is_letter b'L' c
    then of_type Types.pccc_file_long_int 4 1 p a
    else if is_letter b'M' c
    then two_letters b'G' Types.pccc_file_message 112 p a (unknown_type p a)
    else if is_letter b'N' c
    then of_type Types.pccc_file_int 2 1 p a
    else if is_letter b'O' c
    then of_type Types.pccc_file_output 2 1 p (record a { file = pos 0 })
    else if is_letter b'P' c
    then two_letters b'D' Types.pccc_file_pid 164 p a (unknown_type p a)
    else if is_letter b'R' c
    then of_type Types.pccc_file_control 6 1 p a
    else if is_letter b'S' c
    then (if is_digit (second_of p)
        then of_type Types.pccc_file_status 2 1 p a
        else two_letters b'C' Types.pccc_file_sfc 6 p a
            (two_letters b'T' Types.pccc_file_string 84 p a (unknown_type p a)))
    else if is_letter b'T' c
    then of_type Types.pccc_file_timer 6 1 p a
    else not_a_type p a

-- `while(**str && isdigit(**str) && tmp < 65535) { … }`
unfoldable pub take_number : ℕ → Text → ℕ × Text
take_number tmp [] = (tmp, [])
take_number tmp (c ∷ cs) =
    let later = take_number (tmp * 10 + (c - b'0')) cs in
    if is_digit c && ltb tmp 65535 then later else (tmp, c ∷ cs)

unfoldable pub parse_pccc_file_num : Text → PcccAddr → Parsed
parse_pccc_file_num p a =
    if (a.file_type == Types.pccc_file_input || a.file_type == Types.pccc_file_output)
      && not (is_digit (first_of p))
    then (p, (a, status_ok))
    else (let (tmp, rest) = take_number 0 p in (rest, (record a { file = pos tmp }, status_ok)))

unfoldable pub parse_pccc_elem_num : Text → PcccAddr → Parsed
parse_pccc_elem_num p a =
    if first_of p == b':'
    then (let (tmp, rest) = take_number 0 (drop 1 p) in
        (rest, (record a { element = pos tmp }, status_ok)))
    else (p, (record a { element = negsuc 0 }, err_bad_param))

unfoldable pub parse_pccc_subelem_num : Text → PcccAddr → Parsed
parse_pccc_subelem_num p a =
    if is_digit (first_of p)
    then (let (tmp, rest) = take_number 0 p in
        (rest, (record a { sub_element = pos tmp }, status_ok)))
    else (p, (a, err_no_match))

abbrev pub lower : ℕ → ℕ
lower c = if leb b'A' c && leb c b'Z' then c + 32 else c

-- `str_cmp_i_n(p, name, str_length(name)) == 0`
unfoldable pub starts_with : Text → Text → Bool
starts_with p [] = true
starts_with [] (n ∷ ns) = false
starts_with (c ∷ cs) (n ∷ ns) = lower c == lower n && starts_with cs ns

-- The loop over the table.
unfoldable pub find_field : List SubElement → Text → PcccAddr → Parsed
find_field [] p a = (p, (a, err_bad_param))
find_field (f ∷ fs) p a =
    let later = find_field fs p a in
    if f.file_type == a.file_type && starts_with p f.field_name
    then (
      drop (length f.field_name) p,
      (
        record a {
          is_bit = f.is_bit;
          bit = f.bit;
          sub_element = pos f.sub_element;
          element_size_bytes = f.element_size_bytes;
        },
        status_ok,
      ),
    )
    else later

unfoldable pub parse_pccc_subelem_mnemonic : Text → PcccAddr → Parsed
parse_pccc_subelem_mnemonic p a =
    if first_of p == 0 || first_of p == b'/'
    then (p, (record a { sub_element = negsuc 0 }, status_ok))
    else if first_of p == b'.'
    then find_field sub_element_lookup (drop 1 p) a
    else (p, (a, err_bad_param))

abbrev pub or_mnemonic : Parsed → Parsed
or_mnemonic (p, (a, rc)) =
    if rc ==ℤ err_no_match then parse_pccc_subelem_mnemonic p a else (p, (a, rc))

unfoldable pub parse_pccc_subelem : Text → PcccAddr → Parsed
parse_pccc_subelem p a =
    if first_of p == 0 || first_of p == b'/'
    then (p, (record a { sub_element = negsuc 0 }, status_ok))
    else if first_of p == b'.'
    then or_mnemonic (parse_pccc_subelem_num (drop 1 p) a)
    else (p, (a, err_bad_param))

-- The highest bit of an element, and whether the type has bits.
abbrev pub max_bit : ℕ → ℕ × Bool
max_bit file_type =
    if file_type == Types.pccc_file_bit || file_type == Types.pccc_file_int
    then (15, true)
    else if file_type == Types.pccc_file_long_int
    then (31, true)
    else if file_type == Types.pccc_file_status
    then (16, true)
    else (0, false)

unfoldable pub parse_pccc_bit_num : Text → PcccAddr → Parsed
parse_pccc_bit_num p a =
    let (highest, has_bits) = max_bit a.file_type in
    let (tmp, rest) = take_number 0 (drop 1 p) in
    if first_of p == 0
    then (p, (a, status_ok))
    else if not (first_of p == b'/') || not has_bits
    then (p, (a, err_bad_param))
    else if ltb highest tmp
    then (rest, (a, err_out_of_bounds))
    else (rest, (record a { is_bit = 1; bit = tmp % 256 }, status_ok))

-- The next step, unless one has failed.
infixl 5 ◌then_parse◌
abbrev pub ◌then_parse◌ : Parsed → (Text → PcccAddr → Parsed) → Parsed
(p, (a, rc)) then_parse f = if rc ==ℤ status_ok then f p a else (p, (a, rc))

unfoldable pub parse_pccc_logical_address : Text → PcccAddr → Parsed
parse_pccc_logical_address p a =
    parse_pccc_file_type p a
    then_parse parse_pccc_file_num
    then_parse parse_pccc_elem_num
    then_parse parse_pccc_subelem
    then_parse parse_pccc_bit_num
