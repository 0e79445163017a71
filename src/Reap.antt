-- ===== src/Reap.antt =====
-- src/service.rs: `handle_sigchld`.
pub mod Invariant
pub mod Reported
pub mod Services
pub mod Stages
pub mod Masks
use svlopp.Prelude.{
  ℕ, zero, suc, Option, none, some, ◌∷◌, nat_eq, Result, ok, err, errno, ◌==◌, if◌then◌else◌,
}
use svlopp.Utils.{sigkill}
use svlopp.Os.{Os, History, WaitReply, reaped, none_ready, wait_failed, group_killed, waited}
use svlopp.Service.Types.{
  WaitStatus, ExitReason, from_wait_status, from_exit_reason_and_service_state, stopped,
}
use svlopp.Service.Methods.{Service}
use svlopp.Registry.Defs.{ServiceRegistry, Handled, take_by_pid, put_service}

-- The error number that `waitpid` gives a process with no children.
abbrev pub echild : ℕ
echild = 10

module _ (os : Os) where
  -- The process group is killed whatever the answer; then the service is marked stopped.
  pub stop_reaped :
      ℕ → ExitReason → Option (ℕ × Service) × ServiceRegistry → History → ServiceRegistry × History
  stop_reaped pid exit_reason (none, registry) h = (registry, h)
  stop_reaped pid exit_reason (some (svc_id, svc), registry) h = (
    put_service svc_id
        (record svc { state = stopped (from_exit_reason_and_service_state exit_reason svc.state) })
        registry,
    group_killed pid sigkill (os.kill_group h pid sigkill) ∷ h,
  )

  -- One child: nothing is done for a status that does not end the process.
  reap_one : ℕ → Result (Option ExitReason) → ServiceRegistry → History → Handled
  unfolding stop_reaped
  reap_one pid (err e) registry h = (err e, registry, h)
  reap_one pid (ok none) registry h = (ok tt, registry, h)
  reap_one pid (ok (some exit_reason)) registry h =
      let (registry', h') = stop_reaped pid exit_reason (take_by_pid pid registry) h in
      (ok tt, registry', h')

  -- The rest of the loop goes on only after a child was handled.
  continue_with : (ServiceRegistry → History → Option Handled) → Handled → Option Handled
  continue_with loop (ok _, registry, h) = loop registry h
  continue_with loop (err e, registry, h) = some (err e, registry, h)

  reap_reply :
      (ServiceRegistry → History → Option Handled)
      → WaitReply
      → ServiceRegistry
      → History
      → Option Handled
  unfolding continue_with reap_one
  reap_reply loop (reaped pid status) registry h =
      continue_with loop (reap_one pid (from_wait_status status) registry h)
  reap_reply loop none_ready registry h = some (ok tt, registry, h)
  reap_reply loop (wait_failed e) registry h =
      some (if e == echild then ok tt else err (errno e), registry, h)

  -- The loop, with fuel; `none` means that the fuel ran out.
  unfoldable pub handle_sigchld : ℕ → ServiceRegistry → History → Option Handled
  unfolding reap_reply
  handle_sigchld zero registry h = none
  handle_sigchld (suc fuel) registry h =
      let reply = os.wait h in reap_reply (handle_sigchld fuel) reply registry (waited reply ∷ h)
