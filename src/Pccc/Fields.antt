-- ===== src/Pccc/Fields.antt =====
-- The fields of structured PCCC data, which libplctag/src/libplctag/protocols/ab/pccc.c names in
-- `sub_element_lookup`.
use junk.Prelude.{ℕ, List, [], ◌∷◌, ◌++◌}
use junk.Attr.{Text}
use junk.Pccc.Types.{
  pccc_file_block_transfer, pccc_file_control, pccc_file_counter, pccc_file_message, pccc_file_pid,
  pccc_file_sfc, pccc_file_string, pccc_file_timer,
}

-- A field: its type of file, its name, and what the address becomes.
pub record SubElement : Type 0 where
  pub file_type : ℕ
  pub field_name : Text
  pub element_size_bytes : ℕ
  pub sub_element : ℕ
  pub is_bit : ℕ
  pub bit : ℕ

abbrev field : ℕ → Text → ℕ → ℕ → ℕ → ℕ → SubElement
field file_type name size sub is_bit bit = record {
  file_type = file_type;
  field_name = name;
  element_size_bytes = size;
  sub_element = sub;
  is_bit = is_bit;
  bit = bit;
}

abbrev block_transfer_fields : List SubElement
block_transfer_fields =
    field pccc_file_block_transfer (b'c' ∷ b'o' ∷ b'n' ∷ []) 2 0 0 0
    ∷ field pccc_file_block_transfer (b'r' ∷ b'l' ∷ b'e' ∷ b'n' ∷ []) 2 1 0 0
    ∷ field pccc_file_block_transfer (b'd' ∷ b'l' ∷ b'e' ∷ b'n' ∷ []) 2 2 0 0
    ∷ field pccc_file_block_transfer (b'd' ∷ b'f' ∷ []) 2 3 0 0
    ∷ field pccc_file_block_transfer (b'e' ∷ b'l' ∷ b'e' ∷ b'm' ∷ []) 2 4 0 0
    ∷ field pccc_file_block_transfer (b'r' ∷ b'g' ∷ b's' ∷ []) 2 5 0 0
    ∷ []

abbrev control_fields : List SubElement
control_fields =
    field pccc_file_control (b'c' ∷ b'o' ∷ b'n' ∷ []) 2 0 0 0
    ∷ field pccc_file_control (b'l' ∷ b'e' ∷ b'n' ∷ []) 2 1 0 0
    ∷ field pccc_file_control (b'p' ∷ b'o' ∷ b's' ∷ []) 2 2 0 0
    ∷ []

abbrev counter_fields : List SubElement
counter_fields =
    field pccc_file_counter (b'c' ∷ b'o' ∷ b'n' ∷ []) 2 0 0 0
    ∷ field pccc_file_counter (b'c' ∷ b'u' ∷ []) 2 0 1 15
    ∷ field pccc_file_counter (b'c' ∷ b'd' ∷ []) 2 0 1 14
    ∷ field pccc_file_counter (b'd' ∷ b'n' ∷ []) 2 0 1 13
    ∷ field pccc_file_counter (b'o' ∷ b'v' ∷ []) 2 0 1 12
    ∷ field pccc_file_counter (b'u' ∷ b'n' ∷ []) 2 0 1 11
    ∷ field pccc_file_counter (b'p' ∷ b'r' ∷ b'e' ∷ []) 2 1 0 0
    ∷ field pccc_file_counter (b'a' ∷ b'c' ∷ b'c' ∷ []) 2 2 0 0
    ∷ []

abbrev message_fields : List SubElement
message_fields =
    field pccc_file_message (b'c' ∷ b'o' ∷ b'n' ∷ []) 2 0 0 0
    ∷ field pccc_file_message (b'n' ∷ b'r' ∷ []) 2 0 1 9
    ∷ field pccc_file_message (b't' ∷ b'o' ∷ []) 2 0 1 8
    ∷ field pccc_file_message (b'e' ∷ b'n' ∷ []) 2 0 1 7
    ∷ field pccc_file_message (b's' ∷ b't' ∷ []) 2 0 1 6
    ∷ field pccc_file_message (b'd' ∷ b'n' ∷ []) 2 0 1 5
    ∷ field pccc_file_message (b'e' ∷ b'r' ∷ []) 2 0 1 4
    ∷ field pccc_file_message (b'c' ∷ b'o' ∷ []) 2 0 1 3
    ∷ field pccc_file_message (b'e' ∷ b'w' ∷ []) 2 0 1 2
    ∷ field pccc_file_message (b'e' ∷ b'r' ∷ b'r' ∷ []) 2 1 0 0
    ∷ field pccc_file_message (b'r' ∷ b'l' ∷ b'e' ∷ b'n' ∷ []) 2 2 0 0
    ∷ field pccc_file_message (b'd' ∷ b'l' ∷ b'e' ∷ b'n' ∷ []) 2 3 0 0
    ∷ field pccc_file_message (b'd' ∷ b'a' ∷ b't' ∷ b'a' ∷ []) 104 4 0 0
    ∷ []

abbrev pid_fields : List SubElement
pid_fields =
    field pccc_file_pid (b'c' ∷ b'o' ∷ b'n' ∷ []) 2 0 0 0
    ∷ field pccc_file_pid (b'e' ∷ b'n' ∷ []) 2 0 1 15
    ∷ field pccc_file_pid (b'c' ∷ b't' ∷ []) 2 0 1 9
    ∷ field pccc_file_pid (b'c' ∷ b'l' ∷ []) 2 0 1 8
    ∷ field pccc_file_pid (b'p' ∷ b'v' ∷ b't' ∷ []) 2 0 1 7
    ∷ field pccc_file_pid (b'd' ∷ b'o' ∷ []) 2 0 1 6
    ∷ field pccc_file_pid (b's' ∷ b'w' ∷ b'm' ∷ []) 2 0 1 4
    ∷ field pccc_file_pid (b'd' ∷ b'o' ∷ []) 2 0 1 2
    ∷ field pccc_file_pid (b'm' ∷ b'o' ∷ []) 2 0 1 1
    ∷ field pccc_file_pid (b'p' ∷ b'e' ∷ []) 2 0 1 0
    ∷ field pccc_file_pid (b'i' ∷ b'n' ∷ b'i' ∷ []) 2 1 1 12
    ∷ field pccc_file_pid (b's' ∷ b'p' ∷ b'o' ∷ b'r' ∷ []) 2 1 1 11
    ∷ field pccc_file_pid (b'o' ∷ b'l' ∷ b'l' ∷ []) 2 1 1 10
    ∷ field pccc_file_pid (b'o' ∷ b'l' ∷ b'h' ∷ []) 2 1 1 9
    ∷ field pccc_file_pid (b'e' ∷ b'w' ∷ b'd' ∷ []) 2 1 1 8
    ∷ field pccc_file_pid (b'd' ∷ b'v' ∷ b'n' ∷ b'a' ∷ []) 2 1 1 3
    ∷ field pccc_file_pid (b'd' ∷ b'v' ∷ b'p' ∷ b'a' ∷ []) 2 1 1 2
    ∷ field pccc_file_pid (b'p' ∷ b'v' ∷ b'l' ∷ b'a' ∷ []) 2 1 1 1
    ∷ field pccc_file_pid (b'p' ∷ b'v' ∷ b'h' ∷ b'a' ∷ []) 2 1 1 0
    ∷ field pccc_file_pid (b's' ∷ b'p' ∷ []) 4 2 0 0
    ∷ field pccc_file_pid (b'k' ∷ b'p' ∷ []) 4 4 0 0
    ∷ field pccc_file_pid (b'k' ∷ b'i' ∷ []) 4 6 0 0
    ∷ field pccc_file_pid (b'k' ∷ b'd' ∷ []) 4 8 0 0
    ∷ field pccc_file_pid (b'b' ∷ b'i' ∷ b'a' ∷ b's' ∷ []) 4 10 0 0
    ∷ field pccc_file_pid (b'm' ∷ b'a' ∷ b'x' ∷ b's' ∷ []) 4 12 0 0
    ∷ field pccc_file_pid (b'm' ∷ b'i' ∷ b'n' ∷ b's' ∷ []) 4 14 0 0
    ∷ field pccc_file_pid (b'd' ∷ b'b' ∷ []) 4 16 0 0
    ∷ field pccc_file_pid (b's' ∷ b'o' ∷ []) 4 18 0 0
    ∷ field pccc_file_pid (b'm' ∷ b'a' ∷ b'x' ∷ b'o' ∷ []) 4 20 0 0
    ∷ field pccc_file_pid (b'm' ∷ b'i' ∷ b'n' ∷ b'o' ∷ []) 4 22 0 0
    ∷ field pccc_file_pid (b'u' ∷ b'p' ∷ b'd' ∷ []) 4 24 0 0
    ∷ field pccc_file_pid (b'p' ∷ b'v' ∷ []) 4 26 0 0
    ∷ field pccc_file_pid (b'e' ∷ b'r' ∷ b'r' ∷ []) 4 28 0 0
    ∷ field pccc_file_pid (b'o' ∷ b'u' ∷ b't' ∷ []) 4 30 0 0
    ∷ field pccc_file_pid (b'p' ∷ b'v' ∷ b'h' ∷ []) 4 32 0 0
    ∷ field pccc_file_pid (b'p' ∷ b'v' ∷ b'l' ∷ []) 4 34 0 0
    ∷ field pccc_file_pid (b'd' ∷ b'v' ∷ b'p' ∷ []) 4 36 0 0
    ∷ field pccc_file_pid (b'd' ∷ b'v' ∷ b'n' ∷ []) 4 38 0 0
    ∷ field pccc_file_pid (b'p' ∷ b'v' ∷ b'd' ∷ b'b' ∷ []) 4 40 0 0
    ∷ field pccc_file_pid (b'd' ∷ b'v' ∷ b'd' ∷ b'b' ∷ []) 4 42 0 0
    ∷ field pccc_file_pid (b'm' ∷ b'a' ∷ b'x' ∷ b'i' ∷ []) 4 44 0 0
    ∷ field pccc_file_pid (b'm' ∷ b'i' ∷ b'n' ∷ b'i' ∷ []) 4 46 0 0
    ∷ field pccc_file_pid (b't' ∷ b'i' ∷ b'e' ∷ []) 4 48 0 0
    ∷ field pccc_file_pid (b'a' ∷ b'd' ∷ b'd' ∷ b'r' ∷ []) 8 48 0 0
    ∷ field pccc_file_pid (b'd' ∷ b'a' ∷ b't' ∷ b'a' ∷ []) 56 52 0 0
    ∷ []

abbrev string_fields : List SubElement
string_fields =
    field pccc_file_string (b'l' ∷ b'e' ∷ b'n' ∷ []) 2 0 0 0
    ∷ field pccc_file_string (b'd' ∷ b'a' ∷ b't' ∷ b'a' ∷ []) 82 1 0 0
    ∷ []

abbrev sfc_fields : List SubElement
sfc_fields =
    field pccc_file_sfc (b'c' ∷ b'o' ∷ b'n' ∷ []) 2 0 0 0
    ∷ field pccc_file_sfc (b's' ∷ b'a' ∷ []) 2 0 1 15
    ∷ field pccc_file_sfc (b'f' ∷ b's' ∷ []) 2 0 1 14
    ∷ field pccc_file_sfc (b'l' ∷ b's' ∷ []) 2 0 1 13
    ∷ field pccc_file_sfc (b'o' ∷ b'v' ∷ []) 2 0 1 12
    ∷ field pccc_file_sfc (b'e' ∷ b'r' ∷ []) 2 0 1 11
    ∷ field pccc_file_sfc (b'd' ∷ b'n' ∷ []) 2 0 1 10
    ∷ field pccc_file_sfc (b'p' ∷ b'r' ∷ b'e' ∷ []) 2 1 0 0
    ∷ field pccc_file_sfc (b't' ∷ b'i' ∷ b'm' ∷ []) 2 2 0 0
    ∷ []

abbrev timer_fields : List SubElement
timer_fields =
    field pccc_file_timer (b'c' ∷ b'o' ∷ b'n' ∷ []) 2 0 0 0
    ∷ field pccc_file_timer (b'e' ∷ b'n' ∷ []) 2 0 1 15
    ∷ field pccc_file_timer (b't' ∷ b't' ∷ []) 2 0 1 14
    ∷ field pccc_file_timer (b'd' ∷ b'n' ∷ []) 2 0 1 13
    ∷ field pccc_file_timer (b'p' ∷ b'r' ∷ b'e' ∷ []) 2 1 0 0
    ∷ field pccc_file_timer (b'a' ∷ b'c' ∷ b'c' ∷ []) 2 2 0 0
    ∷ []

abbrev pub sub_element_lookup : List SubElement
sub_element_lookup =
    block_transfer_fields
    ++ (control_fields
        ++ (counter_fields
            ++ (message_fields
                ++ (pid_fields ++ (string_fields ++ (sfc_fields ++ (timer_fields)))))))
