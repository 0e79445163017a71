-- ===== src/Examples/Runs.antt =====
-- Runs of the supervisor on the machine: a configuration of two services is loaded and supervised.
use svlopp.Service.ConfigFile.{from_config_file}
use svlopp.Prelude.{
  ℕ, ◌≡◌, refl, true, none, [], ◌∷◌, Text, codes, list_beq, nat_eq, list_eq, Result, ok, err,
}
use svlopp.Prelude.Maps.{Map, Distinct, get, insert, contains_key}
use svlopp.Prelude.Maps.Loop.{retain_with}
use svlopp.Os.{Os}
use svlopp.Service.Types.{running, nothing}
use svlopp.Service.Config.{ServiceConfig, build_svc_argv, build_svc_envp}
use svlopp.Service.Methods.{Service, new, nextval}
use svlopp.Service.Process.{start_service, stop_service}
use svlopp.Service.Display.{format_status}
use svlopp.Registry.Defs.{ServiceRegistry, register_started, insert_service, all_stopped}
use svlopp.Supervisor.State.{Supervisor, Flow, continues, exits}
use svlopp.Supervisor.State
use svlopp.Supervisor.Startup.{startup, load_services, start_all}
use svlopp.Supervisor.Startup.Invariant.{startup-IsValid}
use svlopp.Supervisor.Invariant.{IsValid, EndsValid}
use svlopp.Supervisor.Events.{rounds, on_event}
use svlopp.Supervisor.Events.Invariant.{rounds-EndsValid}
use svlopp.Supervisor.Events.{round, on_events, on_sfd}
use svlopp.Supervisor.Events.Ending.{rounds-exit}
use svlopp.Supervisor.Signals.{on_signals, on_signal, on_shutdown, on_sigchld}
use svlopp.Supervisor.State.{out_of_fuel, stop_all, flush_status_file}
use svlopp.Supervisor.Invariant.{IsLawful}
use svlopp.Reap.{handle_sigchld}
use svlopp.Registry.Defs.{take_by_pid}
use svlopp.Service.Types.{from_wait_status, from_exit_reason_and_service_state}
use svlopp.Service.Config.{to_signal}
use svlopp.Signalfd.{read_signalfd_batch}
use svlopp.Prelude.Maps.{remove}
use svlopp.Examples.Machine.{Script, machine, machine-IsLawful, config_of}

abbrev pub two_services : Map Text ServiceConfig
two_services = (codes "web", config_of "httpd") ∷ (codes "db", config_of "postgres") ∷ []

-- The three descriptors are ready in every round; the signals are SIGTERM and two SIGCHLD, at
-- which both children have ended.
abbrev pub script : Script
script = record {
  time = 100;
  children = 1 ∷ 2 ∷ [];
  signals = 15 ∷ 17 ∷ [];
  events = 1 ∷ [];
  configs = two_services;
}

abbrev pub here : Os
here = machine script

pub two_services-Distinct : Distinct two_services
unfolding contains_key list_beq
two_services-Distinct = (refl, (refl, tt))

pub here-IsLawful : IsLawful here
here-IsLawful = machine-IsLawful script two_services-Distinct

abbrev pub web : Service
web = record {
  id = 0;
  name = codes "web";
  config = config_of "httpd";
  argv = codes "httpd" ∷ [];
  envp = none;
  state = running 1;
  pending_action = nothing;
}

abbrev pub db : Service
db = record {
  id = 1;
  name = codes "db";
  config = config_of "postgres";
  argv = codes "postgres" ∷ [];
  envp = none;
  state = running 2;
  pending_action = nothing;
}

abbrev pub both : ServiceRegistry
both = record { services_map = (0, web) ∷ (1, db) ∷ []; pids_map = (1, 0) ∷ (2, 1) ∷ [] }

abbrev nowhere : Supervisor
nowhere = record { registry = both; id_gen = 0; sv_state = State.running; history = [] }

abbrev of_result : Result Supervisor → Supervisor
of_result (ok sv) = sv
of_result (err e) = nowhere

-- The supervisor where the loop begins.
unfoldable pub boot : Supervisor
unfolding from_config_file startup load_services nextval new build_svc_argv build_svc_envp
    insert_service insert start_all start_service retain_with register_started format_status
    flush_status_file
boot = of_result (startup here [] [])

pub boot-startup : startup here [] [] ≡ ok boot
unfolding boot
boot-startup = refl

boot_registry : boot.registry ≡ both
unfolding boot
boot_registry = refl

boot_status : format_status boot.registry ≡ codes "web 0 running 1\ndb 1 running 2\n"
unfolding boot
boot_status = refl

pub boot-IsValid : IsValid boot
boot-IsValid = startup-IsValid here here-IsLawful [] [] boot boot-startup

startup-IsValid_example : IsValid boot
startup-IsValid_example = startup-IsValid here here-IsLawful [] [] boot boot-startup

rounds-EndsValid_example : EndsValid (rounds here [] 3 2 boot)
rounds-EndsValid_example = rounds-EndsValid here here-IsLawful [] 3 2 boot boot-IsValid

abbrev of_flow : Flow → Supervisor
of_flow (continues sv) = sv
of_flow (exits r sv) = sv
of_flow out_of_fuel = nowhere

-- SIGTERM, then the SIGCHLD at which both services are found ended.
pub down : Supervisor
unfolding boot rounds round on_events on_event on_sfd on_signals on_signal on_shutdown on_sigchld
    handle_sigchld stop_all stop_service take_by_pid from_wait_status
    from_exit_reason_and_service_state read_signalfd_batch all_stopped to_signal get remove
down = of_flow (rounds here [] 3 2 boot)

pub rounds-down : rounds here [] 3 2 boot ≡ exits (ok tt) down
unfolding down
rounds-down = refl

rounds-exit_example :
    (down.sv_state ≡ State.shutdown_requested)
    × (all_stopped down.registry ≡ true)
    × ((p : ℕ) → get p down.registry.pids_map ≡ none)
rounds-exit_example = rounds-exit here here-IsLawful [] 3 2 boot down boot-IsValid rounds-down
