-- ===== src/Signalfd.antt =====
-- src/signalfd.rs: `read_signalfd_batch`. A signal set is what the calls of libc make of it.
pub mod Bounds
pub mod SigSets
pub mod Siginfo
use svlopp.Prelude.{ℕ, ◌/◌, ◌%◌, List, ◌==◌, nat_eq, if◌then◌else◌, Result, ok, err, errno}
use svlopp.Signalfd.Siginfo.{SignalfdSiginfo}

-- `size_of::<SignalfdSiginfo>()`: the `signalfd_siginfo` of Linux.
abbrev pub siginfo_size : ℕ
siginfo_size = 128

abbrev pub eio : ℕ
eio = 5

abbrev pub ewouldblock : ℕ
ewouldblock = 11

-- What `read` into the buffer returns: the number of bytes, with the records that then stand in
-- the buffer, or an error number.
pub data SignalRead : Type 0 where
  siginfo_bytes : ℕ → List SignalfdSiginfo → SignalRead
  siginfo_failed : ℕ → SignalRead

-- How many whole records were read, for a buffer of `capacity` records.
unfoldable pub read_signalfd_batch : ℕ → SignalRead → Result ℕ
read_signalfd_batch capacity reply = if capacity == 0 then ok 0 else elim reply [
  | siginfo_bytes sz buf ↦
      if sz == 0
      then ok 0
      else if sz % siginfo_size == 0
      then ok (sz / siginfo_size)
      else err (errno eio)
  | siginfo_failed e ↦ if e == ewouldblock then ok 0 else err (errno e)
]
