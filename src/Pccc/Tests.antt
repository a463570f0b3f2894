-- ===== src/Pccc/Tests.antt =====
-- Runs of the parser of PCCC addresses, and the theorem at one of them.
use junk.Prelude.{ℕ, ◌≡◌, refl, [], ◌∷◌, some, pos, arith, replicate}
use junk.Memory.{Bytes}
use junk.Status.{status_ok, err_bad_param}
use junk.Attr.{Text}
use junk.Pccc.{PcccAddr, plc5_levels, plc5_encode_address, slc_encode_address, encode_data}
use junk.Pccc.Types.{pccc_file_timer}
use junk.Pccc.Parser.{
  parse_pccc_file_type, parse_pccc_file_num, parse_pccc_elem_num, parse_pccc_subelem,
  parse_pccc_subelem_num, parse_pccc_subelem_mnemonic, parse_pccc_bit_num, take_number,
  parse_pccc_logical_address,
}
use junk.Pccc.RoundTrip.{address_round_trip, IsEncoded}

abbrev new_address : PcccAddr
new_address = record {
  file_type = 0;
  file = pos 0;
  element = pos 0;
  sub_element = pos 0;
  is_bit = 0;
  bit = 0;
  element_size_bytes = 0;
}

-- `T4:300.2`
abbrev timer : Text
timer = b'T' ∷ b'4' ∷ b':' ∷ b'3' ∷ b'0' ∷ b'0' ∷ b'.' ∷ b'2' ∷ []

abbrev timer_type : PcccAddr
timer_type = record new_address { file_type = pccc_file_timer; element_size_bytes = 6 }

address_round_trip_example :
    (a2 : PcccAddr) × (after : Bytes) × (n : ℕ) × (parse_pccc_logical_address timer new_address
      ≡ ([], (a2, status_ok)))
    × (slc_encode_address (replicate 10 0) 0 (pos 10) a2 ≡ some ((after, n), status_ok))
    × IsEncoded (replicate 10 0) after n 4 pccc_file_timer 300 2
unfolding parse_pccc_file_type
address_round_trip_example =
    address_round_trip timer new_address timer_type (b'4' ∷ []) (b'3' ∷ b'0' ∷ b'0' ∷ [])
      (b'2' ∷ []) (replicate 10 0) 0 10 refl
      (record { some_digit = refl; digits = refl; small = omega arith })
      (record { some_digit = refl; digits = refl; small = omega arith })
      (record { some_digit = refl; digits = refl; small = omega arith }) refl (omega arith)
      (omega arith) (omega arith)

-- The same address for a PLC/5.
levels :
    plc5_encode_address (replicate 10 0) (pos 10) (parse_pccc_logical_address timer new_address).1.0
    ≡ some ((0x0E ∷ 4 ∷ 0xff ∷ 44 ∷ 1 ∷ 2 ∷ 0 ∷ 0 ∷ 0 ∷ 0 ∷ [], 6), status_ok)
unfolding parse_pccc_logical_address parse_pccc_file_type parse_pccc_file_num parse_pccc_elem_num
    parse_pccc_subelem parse_pccc_subelem_num parse_pccc_bit_num take_number plc5_encode_address
    plc5_levels encode_data
levels = refl

-- `T4:0.acc`: the point is skipped before the mnemonic's own test for it.
abbrev accumulator : Text
accumulator = b'T' ∷ b'4' ∷ b':' ∷ b'0' ∷ b'.' ∷ b'a' ∷ b'c' ∷ b'c' ∷ []

mnemonic_refused : (parse_pccc_logical_address accumulator new_address).1.1 ≡ err_bad_param
unfolding parse_pccc_logical_address parse_pccc_file_type parse_pccc_file_num parse_pccc_elem_num
    parse_pccc_subelem parse_pccc_subelem_num parse_pccc_subelem_mnemonic parse_pccc_bit_num
    take_number
mnemonic_refused = refl
