-- ===== src/Control/Texts.antt =====
-- src/control.rs: the texts that `Display` gives.
use svlopp.Prelude.{ℕ, ◌+◌, ◌-◌, ◌/◌, ◌%◌, ltb, if◌then◌else◌, [], ◌∷◌, ◌++◌, Text, codes}
use svlopp.Service.Display.{decimal}
use svlopp.Control.{
  ControlOp, stop, start, restart, ControlProtocolError, invalid_op, partial_frame,
}

abbrev hex_digit : ℕ → ℕ
hex_digit n = if ltb n 10 then b'0' + n else b'a' + (n - 10)

-- `{:02x}` of a byte.
abbrev hex_byte : ℕ → Text
hex_byte b = hex_digit (b / 16) ∷ hex_digit (b % 16) ∷ []

abbrev protocol_error_text : ControlProtocolError → Text
protocol_error_text (invalid_op op) = codes "invalid opcode: 0x" ++ hex_byte op
protocol_error_text (partial_frame n) =
    codes "partial control frame (" ++ decimal n ++ codes " bytes)"

abbrev control_op_text : ControlOp → Text
control_op_text stop = codes "stop"
control_op_text start = codes "start"
control_op_text restart = codes "restart"
