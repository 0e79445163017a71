-- ===== src/Control/Fifo.antt =====
-- src/control.rs: `create_control_fifo`.
use svlopp.Prelude.{
  nat_eq, ◌==◌, [], ◌∷◌, Text, Result, ok, err, errno, ℕ, Error, Bool, false, if◌then◌else◌,
}
use svlopp.Sys.{
  Kernel, Sys, Fd, ℤ, Trace, ◌>>=◌, ◌>>◌, pure, rustix_call, mkfifo, open_fd, rdonly, wronly,
  cloexec, nonblock,
}

-- `EEXIST`
abbrev pub eexist : ℕ
eexist = 17

abbrev pub is_eexist : Error → Bool
is_eexist (errno e) = e == eexist
is_eexist _ = false

-- A FIFO that is there already is used.
abbrev pub or_existing : Result ℤ × Trace → Result (Unit {0}) × Trace
or_existing (ok _, h) = (ok tt, h)
or_existing (err e, h) = if is_eexist e then (ok tt, h) else (err e, h)

-- Mode 0o600 is 384. The read end and the write end.
unfoldable pub create_control_fifo : Kernel → Text → Sys (Fd × Fd)
create_control_fifo kernel path = do
  (λ h. or_existing (rustix_call kernel (mkfifo path 384) h))
  read_end_fd ← rustix_call kernel (open_fd path (rdonly ∷ cloexec ∷ nonblock ∷ []))
  write_end_fd ← rustix_call kernel (open_fd path (wronly ∷ cloexec ∷ nonblock ∷ []))
  pure (read_end_fd, write_end_fd)
