-- ===== src/Examples/Restarts.antt =====
-- A restart by request, over three events, and turns of the timer over services that have stopped.
use svlopp.Service.ConfigFile.{from_config_file}
use svlopp.Prelude.{◌≡◌, refl, none, some, Option, [], ◌∷◌, nat_eq, ok}
use svlopp.Prelude.Maps.{get, insert, remove, contains_key}
use svlopp.Prelude.Maps.Loop.{retain_with}
use svlopp.Control
use svlopp.Service.Types.{
  stopped, crashed, error, success, restart, nothing, running, ServicePendingAction,
  from_wait_status, from_exit_reason_and_service_state,
}
use svlopp.Service.Types
use svlopp.Service.Config.{to_signal}
use svlopp.Service.Process.{start_service, stop_service}
use svlopp.Registry.Defs.{
  ServiceRegistry, Handled, new_registry, service, take_by_pid, stop_registered,
}
use svlopp.ControlOps.{apply_control_op}
use svlopp.Reap.{handle_sigchld}
use svlopp.Tick.{tick, turn}
use svlopp.Tick.Outcomes.{AfterTurn, tick-AfterTurn}
use svlopp.Supervisor.Restarts.{RunsAgain, apply_control_op-restarted}
use svlopp.Prelude.{Result, err, codes}
use svlopp.Utils.{is_crash_signal}
use svlopp.Service.Types.{ExitReason, signaled, stopping}
use svlopp.Service.Config.{build_svc_argv, build_svc_envp}
use svlopp.Service.Methods.{new, nextval, Service}
use svlopp.Service.Display.{format_status}
use svlopp.Registry.Defs.{insert_service, register_started}
use svlopp.Supervisor.State.{Supervisor, flush_status_file}
use svlopp.Supervisor.Startup.{startup, load_services, start_all}
use svlopp.Supervisor.Startup.Invariant.{startup-IsValid}
use svlopp.Supervisor.Invariant.{IsLawful}
use svlopp.Supervisor.Policies.{policy, Follows, handle_sigchld-Follows}
use svlopp.Reap.Reported.{IsReported}
use svlopp.Examples.Machine.{Script, machine, machine-IsLawful, config_of, machine-ForkIsFresh}
use svlopp.Examples.Runs.{script, here, here-IsLawful, boot, boot-IsValid, web, db}

-- "web" has ended with an error and is to be removed, "db" has crashed and is to be restarted.
abbrev ended : ServiceRegistry
ended = record {
  services_map =
      (0, record web { state = stopped (error 1); pending_action = Types.remove })
      ∷ (1, record db { state = stopped (crashed 11); pending_action = restart })
      ∷ [];
  pids_map = [];
}

tick-AfterTurn_example :
    AfterTurn here [] boot.history (service 1 ended) (service 1 (tick here [] ended boot.history).0)
unfolding contains_key
tick-AfterTurn_example =
    tick-AfterTurn here [] boot.history ended 1 (machine-ForkIsFresh script) (refl, (refl, tt))

ended_turn :
    (tick here [] ended boot.history).0
    ≡ record { services_map = (1, record db { state = running 3 }) ∷ []; pids_map = (3, 1) ∷ [] }
unfolding boot tick retain_with turn start_service
ended_turn = refl

of_option : Option Handled → Handled
of_option none = (ok tt, new_registry, [])
of_option (some out) = out

-- The restart of "web" is requested; then both processes are found ended.
reaped : Handled
unfolding boot apply_control_op stop_registered stop_service to_signal get insert handle_sigchld
    from_wait_status take_by_pid remove from_exit_reason_and_service_state of_option
reaped =
    let requested = apply_control_op here boot.registry 0 Control.restart [] boot.history in
    of_option (handle_sigchld here 3 requested.1 requested.2)

apply_control_op-restarted_example :
    RunsAgain here [] reaped.2 web (service 0 (tick here [] reaped.1 reaped.2).0)
unfolding reaped
apply_control_op-restarted_example =
    apply_control_op-restarted here here-IsLawful [] 3 boot.id_gen 0 1 web boot.registry
      boot.history reaped boot-IsValid refl refl refl refl refl refl

web_again : service 0 (tick here [] reaped.1 reaped.2).0 ≡ some (record web { state = running 3 })
unfolding reaped tick retain_with turn start_service
web_again = refl

-- One service, to be restarted when it ends on its own.
abbrev keeping : Script
keeping = record script {
  children = 1 ∷ [];
  configs = (codes "web", record (config_of "httpd") { fallback_pending_action = restart }) ∷ [];
}

abbrev kept_up : Service
kept_up = record web { config = record (config_of "httpd") { fallback_pending_action = restart } }

abbrev of_result : Result Supervisor → Supervisor
of_result (ok sv) = sv
of_result (err e) = boot

begun : Supervisor
unfolding from_config_file startup load_services nextval new build_svc_argv build_svc_envp
    insert_service insert start_all start_service retain_with register_started format_status
    flush_status_file
begun = of_result (startup (machine keeping) [] [])

begun-startup : startup (machine keeping) [] [] ≡ ok begun
unfolding begun
begun-startup = refl

keeping-IsLawful : IsLawful (machine keeping)
unfolding contains_key
keeping-IsLawful = machine-IsLawful keeping (refl, tt)

found : Handled
unfolding begun handle_sigchld from_wait_status take_by_pid get remove
    from_exit_reason_and_service_state of_option
found = of_option (handle_sigchld (machine keeping) 2 begun.registry begun.history)

handle_sigchld-Follows_example :
    (er : ExitReason) × IsReported 1 er found.2
    × (let reason = from_exit_reason_and_service_state er (running 1) in
        Follows
          (machine keeping)
          []
          found.2
          (policy kept_up reason)
          (record kept_up { state = stopped reason })
          (service 0 (tick (machine keeping) [] found.1 found.2).0))
unfolding found
handle_sigchld-Follows_example =
    handle_sigchld-Follows (machine keeping) keeping-IsLawful [] 2 begun.id_gen 0 1 kept_up
      begun.registry begun.history found
      (startup-IsValid (machine keeping) keeping-IsLawful [] [] begun begun-startup) refl refl refl
      refl refl

kept_up_again :
    service 0 (tick (machine keeping) [] found.1 found.2).0
    ≡ some (record kept_up { state = running 2 })
unfolding found tick retain_with turn start_service
kept_up_again = refl

-- A service that is being stopped and ends by SIGSEGV is restarted all the same.
crashed_while_stopping :
    policy kept_up (from_exit_reason_and_service_state (signaled 11) (stopping 1 5)) ≡ restart
unfolding from_exit_reason_and_service_state is_crash_signal
crashed_while_stopping = refl
