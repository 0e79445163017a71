-- ===== src/Examples/LateRestart.antt =====
-- After a request to shut down, the timer still restarts a service that had crashed before.
use svlopp.Prelude.{◌≡◌, refl, none, some, Option, [], ◌∷◌, nat_eq}
use svlopp.Prelude.Maps.{get}
use svlopp.Prelude.Maps.Loop.{retain_with}
use svlopp.Service.Types.{ServiceState, stopped, crashed, running}
use svlopp.Service.Types
use svlopp.Service.Methods.{Service, take_pending_action}
use svlopp.Service.Process.{start_service}
use svlopp.Registry.Defs.{service, register_started}
use svlopp.Timerfd.{read_timerfd}
use svlopp.Tick.{tick, turn, pending_or_fallback}
use svlopp.Supervisor.State.{
  Supervisor, shutdown_requested, flush_status_file, Flow, continues, exits, out_of_fuel,
}
use svlopp.Supervisor.Events.{on_tfd}
use svlopp.Examples.Machine.{config_of}
use svlopp.Examples.Runs.{here, web}

abbrev crashing : Service
crashing = record web {
  config = record (config_of "httpd") { fallback_pending_action = Types.restart };
  state = stopped (crashed 11);
}

abbrev closing : Supervisor
closing = record {
  registry = record { services_map = (0, crashing) ∷ []; pids_map = [] };
  id_gen = 1;
  sv_state = shutdown_requested;
  history = [];
}

abbrev state_after : Flow → Option ServiceState
state_after (continues sv) = elim (service 0 sv.registry) [ none ↦ none | some s ↦ some s.state ]
state_after (exits r sv) = none
state_after out_of_fuel = none

late_restart : state_after (on_tfd here [] 1 closing) ≡ some (running 1)
unfolding on_tfd tick turn retain_with start_service take_pending_action pending_or_fallback get
    flush_status_file read_timerfd register_started
late_restart = refl
