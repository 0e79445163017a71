-- ===== src/Control/Frames.antt =====
-- The frames that the writers of the control FIFO send (tests/helpers/control_fifo.py), and what
-- `read_control_command` makes of them.
use native.Mathlib.Nat.{pow-suc}
use svlopp.Prelude.{
  ℕ, zero, suc, ◌/◌, ◌%◌, ◌^◌, ◌<◌, ◌≡◌, refl, ap, ap₂, sym, ◌∙◌, nat_eq, List, [], ◌∷◌, arith,
  length, All,
}
use svlopp.Control.{
  ControlOp, stop, start, restart, op_stop, op_start, op_restart, ControlCommand, command,
  bytes_read, from_le_bytes, read_control_command,
}

abbrev pub opcode : ControlOp → ℕ
opcode stop = op_stop
opcode start = op_start
opcode restart = op_restart

-- `int.to_bytes(n, "little")`
unfoldable pub to_le_bytes : ℕ → ℕ → List ℕ
to_le_bytes zero v = []
to_le_bytes (suc n) v = (v % 256) ∷ to_le_bytes n (v / 256)

abbrev pub frame : ControlCommand → List ℕ
frame c = opcode c.op ∷ to_le_bytes 8 c.service_id

length-to_le_bytes : (n v : ℕ) → length (to_le_bytes n v) ≡ n
unfolding to_le_bytes
length-to_le_bytes zero v = refl
length-to_le_bytes (suc n) v = ap suc (length-to_le_bytes n (v / 256))

from_le_bytes-to_le_bytes : (n v : ℕ) → v < 256 ^ n → from_le_bytes (to_le_bytes n v) ≡ v
unfolding from_le_bytes to_le_bytes
from_le_bytes-to_le_bytes zero v h = omega arith
from_le_bytes-to_le_bytes (suc n) v h =
    omega (arith, from_le_bytes-to_le_bytes n (v / 256) (omega (arith, pow-suc 256 n)))

-- All values are bytes.
abbrev pub AreBytes : List ℕ → Type 0
AreBytes = All (λ b. b < 256)

to_le_bytes-from_le_bytes :
    (bs : List ℕ) → AreBytes bs → to_le_bytes (length bs) (from_le_bytes bs) ≡ bs
unfolding from_le_bytes to_le_bytes
to_le_bytes-from_le_bytes [] h = refl
to_le_bytes-from_le_bytes (b ∷ bs) h =
    ap₂ ◌∷◌ (omega arith)
      (ap (to_le_bytes (length bs)) (omega arith) ∙ to_le_bytes-from_le_bytes bs h.1)

from_le_bytes-lt : (bs : List ℕ) → AreBytes bs → from_le_bytes bs < 256 ^ length bs
unfolding from_le_bytes
from_le_bytes-lt [] h = omega arith
from_le_bytes-lt (b ∷ bs) h = omega (arith, from_le_bytes-lt bs h.1, pow-suc 256 (length bs))

-- The frame of a command with a 64-bit id is read back as that command.
pub read_control_command-frame :
    (c : ControlCommand)
    → c.service_id < 2 ^ 64
    → read_control_command (bytes_read (frame c)) ≡ command c
unfolding read_control_command
read_control_command-frame c h =
    ground (arith, length-to_le_bytes 8 c.service_id, from_le_bytes-to_le_bytes 8 c.service_id)

-- What a read that gives a command looked like.
command-parts :
    (b : ℕ) (ids : List ℕ) (c : ControlCommand)
    → read_control_command (bytes_read (b ∷ ids)) ≡ command c
    → (length ids ≡ 8) × (opcode c.op ≡ b) × (c.service_id ≡ from_le_bytes ids)
unfolding read_control_command
command-parts b ids c e = ground arith

bytes-eq-frame :
    (b : ℕ) (ids : List ℕ) (c : ControlCommand)
    → AreBytes (b ∷ ids)
    → length ids ≡ 8
    → opcode c.op ≡ b
    → c.service_id ≡ from_le_bytes ids
    → (b ∷ ids ≡ frame c) × (c.service_id < 2 ^ 64)
bytes-eq-frame b ids c h l o i = (
  ap₂ ◌∷◌ (sym o) (sym (to_le_bytes-from_le_bytes ids h.1) ∙ ap₂ to_le_bytes l (sym i)),
  omega (arith, from_le_bytes-lt ids h.1, ap (λ (n : ℕ). 256 ^ n) l),
)

-- Bytes that are read as a command are that command's frame, and its id is below 2^64.
pub frame-read_control_command :
    (bs : List ℕ) (c : ControlCommand)
    → AreBytes bs
    → read_control_command (bytes_read bs) ≡ command c
    → (bs ≡ frame c) × (c.service_id < 2 ^ 64)
unfolding read_control_command
frame-read_control_command [] c h e = ground arith
frame-read_control_command (b ∷ ids) c h e =
    let (l, o, i) = command-parts b ids c e in bytes-eq-frame b ids c h l o i
