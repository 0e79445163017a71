-- ===== src/Examples/Stages.antt =====
-- The life of the services in a run, the wait for their end, and lookups by pid.
use svlopp.Prelude.{◌<◌, ◌≡◌, refl, none, inr, arith, []}
use svlopp.Registry.Defs.{get_by_pid, take_by_pid}
use svlopp.Registry.Lookup.{search_pid, taken_service, by_pid-search}
use svlopp.Supervisor.State.{Ends}
use svlopp.Supervisor.Signals.{on_signal}
use svlopp.Supervisor.Stages.{Reaches, rounds-EndsReached}
use svlopp.Supervisor.Events.{rounds}
use svlopp.Supervisor.Events.Liveness.{EndsOrWaits, on_signal-EndsOrWaits}
use svlopp.Examples.Machine.{machine-IsFinite, reports_left}
use svlopp.Examples.Runs.{script, here, here-IsLawful, boot, boot-IsValid}

rounds-EndsReached_example :
    Ends (Reaches boot) (λ r end. Reaches boot end) Unit (rounds here [] 3 2 boot)
rounds-EndsReached_example = rounds-EndsReached here here-IsLawful [] 3 2 boot boot-IsValid

bound : reports_left script boot.history < 3
bound = omega arith

-- SIGTERM, after which both services are still to end.
on_signal-EndsOrWaits_example : EndsOrWaits (on_signal here [] 3 15 boot)
on_signal-EndsOrWaits_example =
    on_signal-EndsOrWaits here here-IsLawful (reports_left script) (machine-IsFinite script) [] 3
      boot boot-IsValid 15 bound (inr (inr refl))

by_pid-search_example :
    (get_by_pid 2 boot.registry ≡ search_pid 2 boot.registry.services_map)
    × (taken_service (take_by_pid 2 boot.registry).0 ≡ search_pid 2 boot.registry.services_map)
    × (get_by_pid 2 (take_by_pid 2 boot.registry).1 ≡ none)
by_pid-search_example = by_pid-search boot.registry boot.id_gen boot.history boot-IsValid 2
