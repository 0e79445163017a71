-- ===== src/Supervisor/Startup/InSync.antt =====
-- The startup ends with a write of the status file.
use svlopp.Prelude.{◌≡◌, subst, Result, ok, err}
use svlopp.Os.{Os, SigSet, History}
use svlopp.Supervisor.State.{Supervisor}
use svlopp.Supervisor.InSync.{IsInSync, flush-IsInSync}
use svlopp.Supervisor.Startup.{startup, Loaded, after_load}

abbrev InSyncOnSuccess : Result Supervisor → Type 0
InSyncOnSuccess (ok sv) = IsInSync sv
InSyncOnSuccess (err e) = Unit

module _ (os : Os) (original_sigset : SigSet) (h : History) where
  after_load-InSyncOnSuccess :
      (r : Loaded) (h : History) → InSyncOnSuccess (after_load os original_sigset r h)
  unfolding after_load
  after_load-InSyncOnSuccess (err e) h = tt
  after_load-InSyncOnSuccess (ok loaded) h = flush-IsInSync _

  pub startup-IsInSync : (sv : Supervisor) → startup os original_sigset h ≡ ok sv → IsInSync sv
  unfolding startup
  startup-IsInSync sv e = subst InSyncOnSuccess e (after_load-InSyncOnSuccess _ _)
