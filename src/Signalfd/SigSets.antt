-- ===== src/Signalfd/SigSets.antt =====
-- src/signalfd.rs: `SigSet` and the functions that take one.
use svlopp.Prelude.{ℕ, none, some, List}
use svlopp.Os.{SigSet}
use svlopp.Sys.{
  Kernel, Sys, Fd, Flag, ◌>>=◌, ◌>>◌, pure, libc_call, sigemptyset, sigaddset, sigprocmask,
  sig_block, sig_setmask,
}
use svlopp.Sys

module _ (kernel : Kernel) where
  -- `SigSet::empty`
  unfoldable pub empty : Sys SigSet
  empty = do libc_call kernel sigemptyset; pure kernel.no_signals

  -- `SigSet::current`: the mask as it is at the call.
  unfoldable pub current : Sys SigSet
  current h = (do libc_call kernel (sigprocmask sig_setmask none); pure (kernel.mask h)) h

  -- `SigSet::add`
  unfoldable pub add : SigSet → ℕ → Sys SigSet
  add sigset signal = do
    libc_call kernel (sigaddset sigset signal)
    pure (kernel.with_signal sigset signal)

  unfoldable pub block_thread_signals : SigSet → Sys (Unit {0})
  block_thread_signals sigset = do libc_call kernel (sigprocmask sig_block (some sigset)); pure tt

  unfoldable pub set_thread_signal_mask : SigSet → Sys (Unit {0})
  set_thread_signal_mask sigset = do
    libc_call kernel (sigprocmask sig_setmask (some sigset))
    pure tt

  unfoldable pub signalfd : SigSet → List Flag → Sys Fd
  signalfd sigset flags = libc_call kernel (Sys.signalfd sigset flags)
