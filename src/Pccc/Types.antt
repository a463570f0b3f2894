-- ===== src/Pccc/Types.antt =====
-- The types of files of libplctag/src/libplctag/protocols/ab/pccc.h; three of them have the code of
-- an unknown one.
use junk.Prelude.{ℕ}

abbrev pub pccc_file_unknown : ℕ
pccc_file_unknown = 0x00

abbrev pub pccc_file_ascii : ℕ
pccc_file_ascii = 0x8e

abbrev pub pccc_file_bcd : ℕ
pccc_file_bcd = 0x8f

abbrev pub pccc_file_bit : ℕ
pccc_file_bit = 0x85

abbrev pub pccc_file_block_transfer : ℕ
pccc_file_block_transfer = 0x00

abbrev pub pccc_file_control : ℕ
pccc_file_control = 0x88

abbrev pub pccc_file_counter : ℕ
pccc_file_counter = 0x87

abbrev pub pccc_file_float : ℕ
pccc_file_float = 0x8a

abbrev pub pccc_file_input : ℕ
pccc_file_input = 0x8c

abbrev pub pccc_file_int : ℕ
pccc_file_int = 0x89

abbrev pub pccc_file_long_int : ℕ
pccc_file_long_int = 0x91

abbrev pub pccc_file_message : ℕ
pccc_file_message = 0x92

abbrev pub pccc_file_output : ℕ
pccc_file_output = 0x8b

abbrev pub pccc_file_pid : ℕ
pccc_file_pid = 0x93

abbrev pub pccc_file_sfc : ℕ
pccc_file_sfc = 0x00

abbrev pub pccc_file_status : ℕ
pccc_file_status = 0x84

abbrev pub pccc_file_string : ℕ
pccc_file_string = 0x8d

abbrev pub pccc_file_timer : ℕ
pccc_file_timer = 0x86
