-- ===== src/Examples/Requests.antt =====
-- Control frames and requests, and the classes of ends, on concrete values.
use svlopp.Prelude.{
  ℕ, ◌^◌, ◌<◌, ◌≡◌, ◌≢◌, ◌↔◌, refl, true, false, some, List, [], ◌∷◌, arith, nat_eq, ok, list_eq,
}
use svlopp.Prelude.Maps.{get}
use svlopp.Control.{ControlCommand, restart, stop, start, command, bytes_read, read_control_command}
use svlopp.Control.Frames.{frame, read_control_command-frame, frame-read_control_command}
use svlopp.Service.Types.{
  ExitReason, exited, signaled, running, stopping, is_stopping, never_started, crashed, success,
  supervisor_terminated, from_exit_reason_and_service_state, nothing,
}
use svlopp.Service.Types
use svlopp.Service.StopReasons.{is_crash, stop_reason_table}
use svlopp.Service.Methods.{Service}
use svlopp.Registry.Defs.{ServiceRegistry, service}
use svlopp.Registry.Invariant.{IsConsistent}
use svlopp.ControlOps.{is_running, apply_control_op}
use svlopp.ControlOps.Requests.{entry_pending, apply_control_op-other, apply_control_op-pending}
use svlopp.ControlOps.Invariant.{apply_control_op-IsConsistent}
use svlopp.Examples.Machine.{machine-ForkIsFresh}
use svlopp.Examples.Runs.{script, here, boot, boot-IsValid, web, both}

abbrev request : ControlCommand
request = record { op = restart; service_id = 258 }

read_control_command-frame_example :
    read_control_command (bytes_read (frame request)) ≡ command request
read_control_command-frame_example = read_control_command-frame request (omega arith)

abbrev request_bytes : List ℕ
request_bytes = 0x43 ∷ 2 ∷ 1 ∷ 0 ∷ 0 ∷ 0 ∷ 0 ∷ 0 ∷ 0 ∷ []

frame-read_control_command_example : (request_bytes ≡ frame request) × (258 < 2 ^ 64)
unfolding read_control_command
frame-read_control_command_example =
    frame-read_control_command request_bytes request (ground arith) refl

apply_control_op-IsConsistent_example :
    let out = apply_control_op here boot.registry 0 stop [] boot.history in
    IsConsistent out.1 boot.id_gen out.2
apply_control_op-IsConsistent_example =
    apply_control_op-IsConsistent here (machine-ForkIsFresh script) boot.id_gen boot.registry 0 stop
      [] boot.history boot-IsValid

apply_control_op-other_example :
    service 1 (apply_control_op here both 0 stop [] []).1 ≡ service 1 both
apply_control_op-other_example = apply_control_op-other here both 0 1 stop [] [] (omega arith)

-- "web", stopping, to be restarted.
abbrev waiting : Service
waiting = record web { state = stopping 1 500; pending_action = Types.restart }

abbrev one_waiting : ServiceRegistry
one_waiting = record { services_map = (0, waiting) ∷ []; pids_map = (1, 0) ∷ [] }

apply_control_op-pending_example :
    (entry_pending (service 0 (apply_control_op here one_waiting 0 start [] []).1)
      ≡ some Types.restart)
    × (is_running waiting.state ≡ false
        → apply_control_op here one_waiting 0 start [] [] ≡ (ok tt, one_waiting, []))
unfolding get
apply_control_op-pending_example =
    apply_control_op-pending here one_waiting 0 waiting start [] [] refl (ground arith)

-- A segmentation fault while the service is stopping.
stop_reason_table_example :
    let reason = from_exit_reason_and_service_state (signaled 11) (stopping 1 500) in
    ((sig : ℕ)
      → (reason ≡ crashed sig) ↔ ((signaled 11 ≡ signaled sig) × (is_crash (signaled 11) ≡ true)))
    × ((er' : ExitReason)
        → (reason ≡ supervisor_terminated er') ↔ (
            (signaled 11 ≡ er')
            × (is_stopping (stopping 1 500) ≡ true)
            × (is_crash (signaled 11) ≡ false)))
    × ((reason ≡ success) ↔ ((signaled 11 ≡ exited 0) × (is_stopping (stopping 1 500) ≡ false)))
    × (reason ≢ never_started)
stop_reason_table_example = stop_reason_table (signaled 11) (stopping 1 500)
