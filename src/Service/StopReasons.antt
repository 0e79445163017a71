-- ===== src/Service/StopReasons.antt =====
-- How the end of a process is classified.
use svlopp.Prelude.{ℕ, ◌≡◌, ◌≢◌, ◌↔◌, Bool, true, false, arith, nat_eq}
use svlopp.Utils.{is_crash_signal}
use svlopp.Service.Types.{
  ExitReason, exited, signaled, never_started, supervisor_terminated, success, crashed,
  ServiceState, is_stopping, from_exit_reason_and_service_state,
}

abbrev pub is_crash : ExitReason → Bool
is_crash (exited _) = false
is_crash (signaled sig) = is_crash_signal sig

-- A fault signal always counts as a crash, any other end of a stopping service is the
-- supervisor's, exit code 0 of another service is a success, and the reason is never NeverStarted.
pub stop_reason_table :
    (er : ExitReason) (state : ServiceState)
    → let reason = from_exit_reason_and_service_state er state in
      ((sig : ℕ) → (reason ≡ crashed sig) ↔ ((er ≡ signaled sig) × (is_crash er ≡ true)))
      × ((er' : ExitReason)
          → (reason ≡ supervisor_terminated er')
            ↔ ((er ≡ er') × (is_stopping state ≡ true) × (is_crash er ≡ false)))
      × ((reason ≡ success) ↔ ((er ≡ exited 0) × (is_stopping state ≡ false)))
      × (reason ≢ never_started)
unfolding from_exit_reason_and_service_state
stop_reason_table (exited code) state = (
  λ sig. (λ e. ground arith, λ e. ground arith),
  λ er'. (λ e. ground arith, λ e. ground arith),
  (λ e. ground arith, λ e. ground arith),
  λ e. ground arith,
)
stop_reason_table (signaled n) state = (
  λ sig. (λ e. ground arith, λ e. ground arith),
  λ er'. (λ e. ground arith, λ e. ground arith),
  (λ e. ground arith, λ e. ground arith),
  λ e. ground arith,
)
