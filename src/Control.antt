-- ===== src/Control.antt =====
-- src/control.rs: the control FIFO's protocol.
pub mod Frames
pub mod Fifo
pub mod Texts
use svlopp.Prelude.{
  ℕ, ◌+◌, ◌*◌, Option, none, some, List, [], ◌∷◌, ◌==◌, nat_eq, if◌then◌else◌, length, drop,
}

abbrev pub op_stop : ℕ
op_stop = 0x41

abbrev pub op_start : ℕ
op_start = 0x42

abbrev pub op_restart : ℕ
op_restart = 0x43

abbrev pub wire_command_size : ℕ
wire_command_size = 9

pub data ControlProtocolError : Type 0 where
  invalid_op partial_frame : ℕ → ControlProtocolError

pub data ControlError : Type 0 where
  io : ℕ → ControlError
  invalid_command : ControlProtocolError → ControlError

pub data ControlOp : Type 0 where
  stop start restart : ControlOp

pub record ControlCommand : Type 0 where
  pub op : ControlOp
  pub service_id : ℕ

pub data Decoded : Type 0 where
  command : ControlCommand → Decoded
  no_command : Decoded
  rejected : ControlError → Decoded

-- What `read` on a file descriptor returns: the bytes read, or an error number.
pub data ReadReply : Type 0 where
  bytes_read : List ℕ → ReadReply
  read_failed : ℕ → ReadReply

-- `EAGAIN`, which is `ErrorKind::WouldBlock`.
abbrev pub eagain : ℕ
eagain = 11

-- `u64::from_le_bytes`
unfoldable pub from_le_bytes : List ℕ → ℕ
from_le_bytes [] = 0
from_le_bytes (b ∷ bs) = b + 256 * from_le_bytes bs

op_of : ℕ → Option ControlOp
op_of b =
    if b == op_stop
    then some stop
    else if b == op_start
    then some start
    else if b == op_restart
    then some restart
    else none

with_op : Option ControlOp → ℕ → List ℕ → Decoded
unfolding from_le_bytes
with_op none b id_bytes = rejected (invalid_command (invalid_op b))
with_op (some op) b id_bytes = command (record { op = op; service_id = from_le_bytes id_bytes })

-- A read of `wire_command_size` bytes.
whole_frame : List ℕ → Decoded
unfolding with_op op_of
whole_frame [] = no_command
whole_frame (b ∷ id_bytes) = with_op (op_of b) b id_bytes

unfoldable pub read_control_command : ReadReply → Decoded
unfolding whole_frame
read_control_command (bytes_read buf) =
    if length buf == wire_command_size
    then whole_frame buf
    else if length buf == 0
    then no_command
    else rejected (invalid_command (partial_frame (length buf)))
read_control_command (read_failed e) = if e == eagain then no_command else rejected (io e)
