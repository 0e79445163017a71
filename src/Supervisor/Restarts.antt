-- ===== src/Supervisor/Restarts.antt =====
-- A restart by request, from the control FIFO to the new process: `apply_control_op` asks the
-- service to stop, `handle_sigchld` finds its process ended, and the timer starts it again.
use svlopp.Prelude.{
  ℕ, ◌≡◌, ◌⊎◌, inl, inr, refl, ap, subst, ◌∙◌, true, false, Option, some, arith, nat_eq, none, err,
  Error,
}
use svlopp.Os.{Os, SigSet, History, is_child}
use svlopp.Control.{ControlOp}
use svlopp.Control
use svlopp.Service.Types.{
  stopped, running, stopping, ServiceStopReason, nothing, restart, ExitReason,
  from_exit_reason_and_service_state,
}
use svlopp.Service.Methods.{Service, pid, stop_signal}
use svlopp.Service.Process.{start_service}
use svlopp.Registry.Defs.{ServiceRegistry, Handled, service}
use svlopp.Registry.Invariant.{IsConsistent}
use svlopp.ControlOps.{apply_control_op}
use svlopp.ControlOps.Requests.{asked, apply_control_op-restart}
use svlopp.Supervisor.Invariant.{IsLawful}
use svlopp.ControlOps.Invariant.{apply_control_op-IsConsistent}
use svlopp.Reap.{handle_sigchld}
use svlopp.Reap.Invariant.{handle_sigchld-IsConsistent}
use svlopp.Reap.Reported.{IsReaped, IsReported, after_exit}
use svlopp.Reap.Services.{handle_sigchld-IsReaped}
use svlopp.Tick.{tick}
use svlopp.Tick.Outcomes.{IsRestarted, AfterIn, AfterTurn, tick-AfterTurn}

-- The process of a service is reaped, so the service is stopped and keeps what is pending.
pub reaped-stopped :
    (next k p : ℕ) (s : Service) (registry : ServiceRegistry) (h : History)
    → IsConsistent registry next h
    → pid s ≡ some p
    → is_child p h ≡ false
    → IsReaped k s registry h
    → (er : ExitReason) × IsReported p er h × (service k registry ≡ some (after_exit er s))
reaped-stopped next k p s registry h c has_pid gone (inl same) =
    let live : is_child p h ≡ true = c.inv.live p k (c.inv.indexed k p (rw same has_pid)) in
    absurd (ground arith)
reaped-stopped next k p s registry h c has_pid gone (inr (q, er, had, dead, said, now)) =
    (er, subst (λ x. IsReported x er h) (ground (arith, has_pid, had)) said, now)

-- What the timer makes of a stopped service whose restart is pending.
restart-due :
    (os : Os) (sigset : SigSet) (h : History) (reason : ServiceStopReason) (s : Service)
    (o : Option Service)
    → s.pending_action ≡ restart
    → AfterIn os sigset h (stopped reason) s o
    → IsRestarted os sigset h s o
restart-due os sigset h reason s o due (inl (inl e, gone)) = absurd (ground arith)
restart-due os sigset h reason s o due (inl (inr (e, x, y), gone)) = absurd (ground arith)
restart-due os sigset h reason s o due (inr (inl (d, r))) = r
restart-due os sigset h reason s o due (inr (inr ((e, x), same))) = absurd (ground arith)

-- It runs as before, as a process that is new, or it is stopped because its start failed.
abbrev pub RunsAgain : Os → SigSet → History → Service → Option Service → Type 0
RunsAgain os sigset h s o =
    ((p : ℕ) × (is_child p h ≡ false) × (o ≡ some (record s { state = running p })))
    ⊎ ((reason : ServiceStopReason) × (h' : History) × (e : Error) × (let left = record s {
      state = stopped reason;
    } in
          ((start_service os left sigset h').0 ≡ err e) × (o ≡ some left)))

-- What was pending before the request, nothing, is so again.
again :
    (os : Os) (sigset : SigSet) (h : History) (reason : ServiceStopReason) (s : Service)
    (o : Option Service)
    → s.pending_action ≡ nothing
    → IsRestarted os sigset h (record s { state = stopped reason; pending_action = restart }) o
    → RunsAgain os sigset h s o
again os sigset h reason s o quiet (inl (p, new, runs)) = inl (p, new, ground (arith, quiet))
again os sigset h reason s o quiet (inr (h', e, refused, left)) =
    let same : record s { state = stopped reason; pending_action = nothing }
        ≡ record s { state = stopped reason } =
      ground (arith, quiet) in
    inr (
      reason,
      h',
      e,
      (subst (λ x. (start_service os x sigset h').0 ≡ err e) same refused, left ∙ ap some same),
    )

-- On a lawful operating system, from a consistent registry, a request to restart a running service
-- with nothing pending, whose stop signal the kernel accepts, then a SIGCHLD at which its process
-- is found to have ended, then a turn of the timer, leave the service as it was with a process
-- that is new, or stopped with a start that failed.
pub apply_control_op-restarted :
    (os : Os)
    → IsLawful os
    → (sigset : SigSet) (fuel next k p : ℕ) (s : Service) (registry : ServiceRegistry) (h : History)
      (out : Handled)
    → IsConsistent registry next h
    → service k registry ≡ some s
    → s.state ≡ running p
    → s.pending_action ≡ nothing
    → os.kill h p (stop_signal s) ≡ none
    → (let requested = apply_control_op os registry k Control.restart sigset h in
        handle_sigchld os fuel requested.1 requested.2 ≡ some out)
    → is_child p out.2 ≡ false
    → RunsAgain os sigset out.2 s (service k (tick os sigset out.1 out.2).0)
apply_control_op-restarted os laws sigset fuel next k p s registry h out c here run quiet sent e
      gone =
    let (deadline, asks) =
      apply_control_op-restart os registry k p s sigset h here run quiet sent in
    let between =
      apply_control_op-IsConsistent os laws.fresh next registry k Control.restart sigset h c in
    let (after, _) = handle_sigchld-IsConsistent os laws.exact next fuel _ _ out between e in
    let (er, said, ends) =
      reaped-stopped next k p (asked s p deadline) out.1 out.2 after refl gone (
        handle_sigchld-IsReaped os laws.exact next fuel _ _ out k (asked s p deadline) between e
          asks) in
    again os sigset out.2 (from_exit_reason_and_service_state er (stopping p deadline)) s _ quiet (
      restart-due os sigset out.2 _ (after_exit er (asked s p deadline)) _ refl (
        subst (λ o. AfterTurn os sigset out.2 o (service k (tick os sigset out.1 out.2).0)) ends
          (tick-AfterTurn os sigset out.2 out.1 k laws.fresh after.distinct)))
