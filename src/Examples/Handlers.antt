-- ===== src/Examples/Handlers.antt =====
-- The handlers on the services that `Runs` started: a reload, a late turn of the timer, SIGCHLD.
use svlopp.Prelude.{
  ◌+◌, ◌≡◌, refl, none, some, Option, [], ◌∷◌, arith, Text, codes, nat_eq, list_eq, list_beq, ok,
  err, panic, ◌≢◌,
}
use svlopp.Prelude.Maps.{get, remove, Map, Distinct, get, contains_key}
use svlopp.Os.{Os, History}
use svlopp.Service.Types.{from_wait_status}
use svlopp.Service.Config.{ServiceConfig}
use svlopp.Registry.Defs.{take_by_pid, ServiceRegistry, Handled, new_registry}
use svlopp.Registry.Invariant.{IsConsistent}
use svlopp.Reload.{Reloaded, reload_services}
use svlopp.Reload.Additions.{reload_services-IsConsistent}
use svlopp.Tick.{tick}
use svlopp.Tick.Invariant.{tick-IsConsistent}
use svlopp.Tick.Deadlines.{kills, overdue, tick-kills}
use svlopp.Reap.{handle_sigchld}
use svlopp.Reap.Reported.{IsReaped}
use svlopp.Reap.Services.{handle_sigchld-IsReaped}
use svlopp.Reap.Invariant.{handle_sigchld-IsConsistent, handle_sigchld_total}
use svlopp.Service.Process.Outcomes.{Started, start_service-Started}
use svlopp.Service.Process.{start_service}
use svlopp.Examples.Machine.{
  Script, machine, machine-ForkIsFresh, machine-ConfigIsMap, machine-StatusIsExact,
  machine-IsFinite, reports_left, config_of,
}
use svlopp.Examples.Runs.{script, here, boot, boot-IsValid, web}

-- "web" has a new command, "db" is gone, and "cache" is new.
abbrev pub new_services : Map Text ServiceConfig
new_services = (codes "web", config_of "nginx") ∷ (codes "cache", config_of "redis") ∷ []

pub new_services-Distinct : Distinct new_services
unfolding contains_key list_beq
new_services-Distinct = (refl, (refl, tt))

abbrev pub new_script : Script
new_script = record script { configs = new_services }

abbrev pub there : Os
there = machine new_script

abbrev pub reloaded : Reloaded
reloaded = reload_services there boot.registry boot.id_gen [] boot.history

reloaded-IsConsistent : IsConsistent reloaded.1 reloaded.2 reloaded.3
reloaded-IsConsistent =
    reload_services-IsConsistent there (machine-ForkIsFresh new_script)
      (machine-ConfigIsMap new_script new_services-Distinct) boot.registry boot.id_gen []
      boot.history boot-IsValid

reload_services-IsConsistent_example : IsConsistent reloaded.1 reloaded.2 reloaded.3
reload_services-IsConsistent_example =
    reload_services-IsConsistent there (machine-ForkIsFresh new_script)
      (machine-ConfigIsMap new_script new_services-Distinct) boot.registry boot.id_gen []
      boot.history boot-IsValid

-- Seven seconds later every deadline has passed.
abbrev late_script : Script
late_script = record new_script { time = 7_000_000_000 }

abbrev ticked : ServiceRegistry × History
ticked = tick (machine late_script) [] reloaded.1 reloaded.3

tick-IsConsistent_example : IsConsistent ticked.0 reloaded.2 ticked.1
tick-IsConsistent_example =
    tick-IsConsistent (machine late_script) (machine-ForkIsFresh late_script) [] reloaded.2
      reloaded.1 reloaded.3 reloaded-IsConsistent

tick-kills_example :
    kills 1 ticked.1 ≡ kills 1 reloaded.3 + overdue 7_000_000_000 1 reloaded.1.services_map
tick-kills_example = tick-kills (machine late_script) [] 1 reloaded.1 reloaded.3

abbrev of_option : Option Handled → Handled
of_option none = (ok tt, new_registry, [])
of_option (some out) = out

handle_sigchld-IsConsistent_example :
    let out = of_option (handle_sigchld here 3 boot.registry boot.history) in
    IsConsistent out.1 boot.id_gen out.2 × (out.0 ≢ err panic)
unfolding handle_sigchld boot from_wait_status take_by_pid get remove
handle_sigchld-IsConsistent_example =
    handle_sigchld-IsConsistent here (machine-StatusIsExact script) boot.id_gen 3 boot.registry
      boot.history (of_option (handle_sigchld here 3 boot.registry boot.history)) boot-IsValid refl

handle_sigchld_total_example :
    (out : Handled) × (handle_sigchld here 3 boot.registry boot.history ≡ some out)
unfolding boot
handle_sigchld_total_example =
    handle_sigchld_total here (machine-StatusIsExact script) (reports_left script)
      (machine-IsFinite script) 3 boot.registry boot.history (omega arith)

start_service-Started_example : Started web boot.history (start_service here web [] boot.history)
start_service-Started_example =
    start_service-Started here (machine-ForkIsFresh script) web [] boot.history

handle_sigchld-IsReaped_example :
    let out = of_option (handle_sigchld here 3 boot.registry boot.history) in
    IsReaped 0 web out.1 out.2
unfolding handle_sigchld boot from_wait_status take_by_pid get remove
handle_sigchld-IsReaped_example =
    handle_sigchld-IsReaped here (machine-StatusIsExact script) boot.id_gen 3 boot.registry
      boot.history (of_option (handle_sigchld here 3 boot.registry boot.history)) 0 web boot-IsValid
      refl refl
