-- ===== src/Supervisor/Policies.antt =====
-- What follows when the process of a service ends, over two events: `handle_sigchld` finds it, and
-- the timer does what is configured for such an end.
use svlopp.Prelude.{
  ℕ, ◌≡◌, inl, inr, refl, subst, false, if◌then◌else◌, Option, some, arith, nat_eq, none,
}
use svlopp.Os.{Os, SigSet, History, is_child}
use svlopp.Service.Types.{
  stopped, ServiceStopReason, ServicePendingAction, nothing, restart, remove, ExitReason,
  from_exit_reason_and_service_state,
}
use svlopp.Service.Methods.{Service, pid, fallback_pending_action}
use svlopp.Registry.Defs.{ServiceRegistry, Handled, service}
use svlopp.Registry.Invariant.{IsConsistent}
use svlopp.Supervisor.Invariant.{IsLawful}
use svlopp.Reap.{handle_sigchld}
use svlopp.Reap.Invariant.{handle_sigchld-IsConsistent}
use svlopp.Reap.Reported.{IsReported, after_exit}
use svlopp.Reap.Services.{handle_sigchld-IsReaped}
use svlopp.Tick.{tick}
use svlopp.Tick.Actions.{falls_back}
use svlopp.Tick.Outcomes.{IsRestarted, AfterIn, AfterTurn, tick-AfterTurn}
use svlopp.Supervisor.Restarts.{reaped-stopped}

-- The configured action, but nothing after a stop that the supervisor made.
abbrev pub policy : Service → ServiceStopReason → ServicePendingAction
policy s reason = if falls_back reason then fallback_pending_action s else nothing

-- What an action makes of the stopped service.
abbrev pub Follows :
    Os → SigSet → History → ServicePendingAction → Service → Option Service → Type 0
Follows os sigset h nothing left o = o ≡ some left
Follows os sigset h restart left o = IsRestarted os sigset h left o
Follows os sigset h remove left o = o ≡ none

module _ (os : Os) (sigset : SigSet) (h : History) (reason : ServiceStopReason) (left : Service)
    (o : Option Service) (quiet : left.pending_action ≡ nothing) where
  AfterIn-Follows :
      (action : ServicePendingAction)
      → policy left reason ≡ action
      → AfterIn os sigset h (stopped reason) left o
      → Follows os sigset h action left o
  AfterIn-Follows nothing e (inl (due, gone)) = absurd (ground arith)
  AfterIn-Follows nothing e (inr (inl (due, again))) = absurd (ground arith)
  AfterIn-Follows nothing e (inr (inr (idle, same))) = same
  AfterIn-Follows restart e (inl (due, gone)) = absurd (ground arith)
  AfterIn-Follows restart e (inr (inl (due, again))) = again
  AfterIn-Follows restart e (inr (inr ((none_pending, inl no_fallback), same))) =
      absurd (ground arith)
  AfterIn-Follows restart e (inr (inr ((none_pending, inr no_action), same))) =
      absurd (ground arith)
  AfterIn-Follows remove e (inl (due, gone)) = gone
  AfterIn-Follows remove e (inr (inl (due, again))) = absurd (ground arith)
  AfterIn-Follows remove e (inr (inr ((none_pending, inl no_fallback), same))) =
      absurd (ground arith)
  AfterIn-Follows remove e (inr (inr ((none_pending, inr no_action), same))) = absurd (ground arith)

-- On a lawful operating system, from a consistent registry, after a SIGCHLD at which the process
-- of a service with nothing pending is found to have ended, and then a turn of the timer, the
-- service is what its configured action makes of it: stopped with the reason that the reported end
-- gives, dropped, or running as a new process (or stopped, where that start fails); after a stop
-- by the supervisor, a crash signal excepted, it stays stopped.
pub handle_sigchld-Follows :
    (os : Os)
    → IsLawful os
    → (sigset : SigSet) (fuel next k p : ℕ) (s : Service) (registry : ServiceRegistry) (h : History)
      (out : Handled)
    → IsConsistent registry next h
    → service k registry ≡ some s
    → pid s ≡ some p
    → s.pending_action ≡ nothing
    → handle_sigchld os fuel registry h ≡ some out
    → is_child p out.2 ≡ false
    → (er : ExitReason) × IsReported p er out.2
      × (let reason = from_exit_reason_and_service_state er s.state in
          Follows os sigset out.2
            (policy s reason)
            (record s { state = stopped reason })
            (service k (tick os sigset out.1 out.2).0))
handle_sigchld-Follows os laws sigset fuel next k p s registry h out c here has_pid quiet e gone =
    let (after, _) = handle_sigchld-IsConsistent os laws.exact next fuel registry h out c e in
    let (er, said, ends) =
      reaped-stopped next k p s out.1 out.2 after has_pid gone
        (handle_sigchld-IsReaped os laws.exact next fuel registry h out k s c e here) in
    (
      er,
      said,
      AfterIn-Follows os sigset out.2 _ (after_exit er s) _ quiet _ refl (
          subst (λ o. AfterTurn os sigset out.2 o (service k (tick os sigset out.1 out.2).0)) ends
            (tick-AfterTurn os sigset out.2 out.1 k laws.fresh after.distinct)),
    )
