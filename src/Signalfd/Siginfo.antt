-- ===== src/Signalfd/Siginfo.antt =====
-- src/signalfd.rs: `SignalfdSiginfo` and its accessors.
use svlopp.Prelude.{ℕ, ℤ}

-- The fields of libc's `signalfd_siginfo` that are read.
pub record RawSiginfo : Type 0 where
  pub ssi_signo : ℕ
  pub ssi_code : ℤ
  pub ssi_pid : ℕ
  pub ssi_uid : ℕ

pub record SignalfdSiginfo : Type 0 where
  pub raw : RawSiginfo

abbrev pub signal : SignalfdSiginfo → ℕ
signal info = info.raw.ssi_signo

abbrev code : SignalfdSiginfo → ℤ
code info = info.raw.ssi_code

abbrev pid : SignalfdSiginfo → ℕ
pid info = info.raw.ssi_pid

abbrev uid : SignalfdSiginfo → ℕ
uid info = info.raw.ssi_uid
