-- ===== src/Service/Types.antt =====
-- service.rs: exit and stop reasons, service states, pending actions.
use svlopp.Prelude.{ℕ, Bool, true, false, Option, none, some, ◌==◌, nat_eq, if◌then◌else◌}
use svlopp.Prelude.{Result, ok, err, panic, ◌>>=◌}
use svlopp.Utils.{is_crash_signal}

-- What the code asks of a `WaitStatus` of the crate rustix: the answers of its four methods.
pub record WaitStatus : Type 0 where
  pub exited : Bool
  pub exit_status : Option ℕ
  pub signaled : Bool
  pub terminating_signal : Option ℕ

pub data ExitReason : Type 0 where
  exited signaled : ℕ → ExitReason

-- `expect`
abbrev expect {ℓ} : {A : Type ℓ} → Option A → Result A
expect none = err panic
expect (some a) = ok a

unfoldable pub from_wait_status : WaitStatus → Result (Option ExitReason)
from_wait_status status =
    if status.exited
    then (expect status.exit_status >>= λ code. ok (some (exited code)))
    else if status.signaled
    then (expect status.terminating_signal >>= λ sig. ok (some (signaled sig)))
    else ok none

pub data ServiceStopReason : Type 0 where
  never_started : ServiceStopReason
  supervisor_terminated : ExitReason → ServiceStopReason
  success : ServiceStopReason
  error crashed killed : ℕ → ServiceStopReason

-- `Stopping` holds the deadline, in nanoseconds.
pub data ServiceState : Type 0 where
  stopped : ServiceStopReason → ServiceState
  running : ℕ → ServiceState
  stopping : ℕ → ℕ → ServiceState

abbrev pub is_stopping : ServiceState → Bool
is_stopping (stopping _ _) = true
is_stopping _ = false

unfoldable pub from_exit_reason_and_service_state : ExitReason → ServiceState → ServiceStopReason
from_exit_reason_and_service_state (exited code) svc_state =
    if is_stopping svc_state
    then supervisor_terminated (exited code)
    else if code == 0
    then success
    else error code
from_exit_reason_and_service_state (signaled sig) svc_state =
    if is_crash_signal sig
    then crashed sig
    else if is_stopping svc_state
    then supervisor_terminated (signaled sig)
    else killed sig

pub data StopSignal : Type 0 where
  sig_term sig_int sig_quit sig_hup sig_usr1 sig_usr2 : StopSignal

pub data ServicePendingAction : Type 0 where
  nothing restart remove : ServicePendingAction

unfoldable pub is_none : ServicePendingAction → Bool
is_none nothing = true
is_none _ = false
