-- ===== src/Service/Display.antt =====
-- service.rs: the `Display` texts and the lines of the status file.
pub mod Decimal
pub mod Reader
use svlopp.Prelude.{ℕ, zero, suc, ◌+◌, ◌/◌, ◌%◌, [], ◌∷◌, ◌++◌, true, false, ltb, Text, codes}
use svlopp.Prelude.Maps.{Map}
use svlopp.Service.Types.{
  ExitReason, exited, signaled, ServiceStopReason, never_started, supervisor_terminated, success,
  error, crashed, killed, ServiceState, stopped, running, stopping,
}
use svlopp.Service.Methods.{Service}
use svlopp.Registry.Defs.{ServiceRegistry}

-- The digits of a number, with fuel; `suc n` is enough for `n`.
unfoldable pub decimal_from : ℕ → ℕ → Text
decimal_from zero n = []
decimal_from (suc fuel) n = elim (ltb n 10) [
  | true ↦ (b'0' + n) ∷ []
  | false ↦ decimal_from fuel (n / 10) ++ (b'0' + n % 10) ∷ []
]

unfoldable pub decimal : ℕ → Text
unfolding decimal_from
decimal n = decimal_from (suc n) n

-- `write!(f, "name({})", i)`
call_text : Text → Text → Text
call_text name argument = name ++ b'(' ∷ argument ++ b')' ∷ []

unfoldable pub exit_reason_text : ExitReason → Text
unfolding call_text decimal
exit_reason_text (exited i) = call_text (codes "exited") (decimal i)
exit_reason_text (signaled i) = call_text (codes "signaled") (decimal i)

unfoldable pub stop_reason_text : ServiceStopReason → Text
unfolding call_text decimal exit_reason_text
stop_reason_text never_started = codes "never_started"
stop_reason_text (supervisor_terminated er) =
    call_text (codes "supervisor_terminated") (exit_reason_text er)
stop_reason_text success = codes "success"
stop_reason_text (error e) = call_text (codes "error") (decimal e)
stop_reason_text (crashed s) = call_text (codes "crashed") (decimal s)
stop_reason_text (killed s) = call_text (codes "killed") (decimal s)

unfoldable pub state_text : ServiceState → Text
unfolding stop_reason_text decimal
state_text (stopped r) = codes "stopped " ++ stop_reason_text r
state_text (running p) = codes "running " ++ decimal p
state_text (stopping p _) = codes "stopping " ++ decimal p

unfoldable pub format_status_line : Service → Text
unfolding state_text decimal
format_status_line svc = svc.name ++ b' ' ∷ decimal svc.id ++ b' ' ∷ state_text svc.state

format_lines : Map ℕ Service → Text
format_lines [] = []
format_lines ((k, svc) ∷ m) = format_status_line svc ++ 10 ∷ format_lines m

unfoldable pub format_status : ServiceRegistry → Text
unfolding format_lines format_status_line
format_status registry = format_lines registry.services_map
