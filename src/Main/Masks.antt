-- ===== src/Main/Masks.antt =====
-- The set-up and the loop together: the mask of every program.
use svlopp.Prelude.{ℕ, ◌≡◌, [], Text, ok, subst}
use svlopp.Os.{Os}
use svlopp.Sys.{Kernel, Trace}
use svlopp.Sys.Rule.{After}
use svlopp.Supervisor.State.{Supervisor, Ends}
use svlopp.Supervisor.SetUp.{Descriptors, set_up}
use svlopp.Supervisor.SetUp.Masks.{AddsSignals, first_mask, IsSetUp, IsOrdered}
use svlopp.Supervisor.SetUp.Order.{set_up-IsSetUp}
use svlopp.Supervisor.Startup.{startup}
use svlopp.Supervisor.Events.{rounds}
use svlopp.Supervisor.Masks.{IsMasked, rounds-EndsMasked}

-- Where sigaddset adds its signal and keeps the others, after a set-up and a startup that succeed,
-- every child that is forked by the startup or in any number of rounds of the loop that the fuel
-- does not cut short starts with the mask that the thread had after the first call of run,
-- set_child_subreaper.
pub set_up-EndsMasked :
    (os : Os) (kernel : Kernel)
    → AddsSignals kernel
    → (control : Text) (d : Descriptors) (h : Trace) → set_up kernel control [] ≡ (ok d, h)
    → (sv : Supervisor) → startup os d.original_sigset [] ≡ ok sv
    → (fuel n : ℕ)
    → Ends
        (IsMasked (first_mask kernel))
        (λ r end. IsMasked (first_mask kernel) end)
        Unit
        (rounds os d.original_sigset fuel n sv)
set_up-EndsMasked os kernel posix control d h e sv f fuel n =
    let (has, blocked, ordered, same) =
      subst (After (IsSetUp kernel) IsOrdered) e (set_up-IsSetUp kernel posix control) in
    subst
      (λ mask.
        Ends (IsMasked mask) (λ r end. IsMasked mask end) Unit
          (rounds os d.original_sigset fuel n sv))
      same (rounds-EndsMasked os d.original_sigset fuel n sv f)
