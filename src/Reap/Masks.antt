-- ===== src/Reap/Masks.antt =====
-- SIGCHLD forks no child.
use svlopp.Prelude.{ℕ, zero, suc, ◌≡◌, Option, some, ◌∷◌, Result, ok, err, arith, nat_eq}
use svlopp.Os.{Os, SigSet, History, WaitReply, waited, reaped, none_ready, wait_failed}
use svlopp.Service.Types.{ExitReason}
use svlopp.Service.Process.Masks.{AllMasked}
use svlopp.Registry.Defs.{ServiceRegistry, Handled}
use svlopp.Reap.{stop_reaped, reap_one, continue_with, reap_reply, handle_sigchld}

module _ (os : Os) (sigset : SigSet) where
  reap_one-AllMasked :
      (p : ℕ) (r : Result (Option ExitReason)) (registry : ServiceRegistry) (h : History)
      → AllMasked sigset h
      → AllMasked sigset (reap_one os p r registry h).2
  unfolding reap_one stop_reaped
  reap_one-AllMasked p r registry h a = ground arith

  module _ (loop : ServiceRegistry → History → Option Handled)
      (ih : (registry : ServiceRegistry) (h : History) (out : Handled)
        → AllMasked sigset h
        → loop registry h ≡ some out
        → AllMasked sigset out.2) where
    continue_with-AllMasked :
        (one out : Handled)
        → AllMasked sigset one.2
        → continue_with os loop one ≡ some out
        → AllMasked sigset out.2
    unfolding continue_with
    continue_with-AllMasked (ok _, registry, h) out a e = ih registry h out a e
    continue_with-AllMasked (err x, registry, h) out a e = ground arith

    reap_reply-AllMasked :
        (r : WaitReply) (registry : ServiceRegistry) (h : History) (out : Handled)
        → AllMasked sigset h
        → reap_reply os loop r registry h ≡ some out
        → AllMasked sigset out.2
    unfolding reap_reply
    reap_reply-AllMasked (reaped p status) registry h out a e =
        continue_with-AllMasked _ out (reap_one-AllMasked p _ registry h a) e
    reap_reply-AllMasked none_ready registry h out a e = ground arith
    reap_reply-AllMasked (wait_failed x) registry h out a e = ground arith

  pub handle_sigchld-AllMasked :
      (fuel : ℕ) (registry : ServiceRegistry) (h : History) (out : Handled)
      → AllMasked sigset h
      → handle_sigchld os fuel registry h ≡ some out
      → AllMasked sigset out.2
  unfolding handle_sigchld
  handle_sigchld-AllMasked zero registry h out a e = cc
  handle_sigchld-AllMasked (suc fuel) registry h out a e =
      reap_reply-AllMasked (handle_sigchld os fuel) (handle_sigchld-AllMasked fuel) (os.wait h)
        registry (waited (os.wait h) ∷ h) out a e
