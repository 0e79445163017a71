-- ===== src/Supervisor/Startup.antt =====
-- main.rs: the first part of `run`, which loads the configuration and starts every service.
pub mod Invariant
pub mod Masks
pub mod InSync
pub mod Ids
use svlopp.Prelude.{ℕ, Option, none, some, [], ◌∷◌, Text, Result, ok, err, id_overflow}
use svlopp.Prelude.Maps.{Map}
use svlopp.Prelude.Maps.Loop.{retain_with}
use svlopp.Os.{Os, SigSet, History, config_read}
use svlopp.Service.ConfigFile.{from_config_file}
use svlopp.Service.Config.{ServiceConfig}
use svlopp.Service.Methods.{Service, ServiceIdGen, new_id_gen, nextval, new, pid}
use svlopp.Service.Process.{start_service}
use svlopp.Registry.Defs.{ServiceRegistry, new_registry, insert_service, pids_after}
use svlopp.Tick.{Turn}
use svlopp.Supervisor.State.{Supervisor, running, flush_status_file}

-- The registry and the generator, or the error that ends `run`.
abbrev pub Loaded : Type 0
Loaded = Result (ServiceRegistry × ServiceIdGen)

insert_new : Result Service → ServiceRegistry → ServiceIdGen → Loaded
insert_new (err e) registry gen = err e
insert_new (ok svc) registry gen = ok (insert_service svc registry, gen)

load_one : Text → ServiceConfig → Option ℕ × ServiceIdGen → ServiceRegistry → Loaded
unfolding insert_new
load_one name cfg (none, gen) registry = err id_overflow
load_one name cfg (some svc_id, gen) registry = insert_new (new svc_id name cfg) registry gen

abbrev and_load : Loaded → (ServiceRegistry → ServiceIdGen → Loaded) → Loaded
and_load (ok (registry, gen)) next = next registry gen
and_load (err e) next = err e

unfoldable pub load_services : Map Text ServiceConfig → ServiceRegistry → ServiceIdGen → Loaded
unfolding load_one
load_services [] registry gen = ok (registry, gen)
load_services ((name, cfg) ∷ configs) registry gen =
    and_load (load_one name cfg (nextval gen) registry) (load_services configs)

-- `for (svc_id, svc) in services_map.iter_mut()`: an error is logged, and the loop goes on.
unfoldable pub start_each : Os → SigSet → ℕ → Service → Turn → Option Service × Turn
start_each os original_sigset svc_id svc (pids_map, h) =
    let (result, svc', h') = start_service os svc original_sigset h in
    (some svc', (pids_after result (pid svc') svc_id pids_map, h'))

unfoldable pub start_all : Os → SigSet → ServiceRegistry → History → ServiceRegistry × History
unfolding start_each
start_all os original_sigset registry h =
    let (services_map, (pids_map, h')) =
      retain_with (start_each os original_sigset) registry.services_map (registry.pids_map, h) in
    (record { services_map = services_map; pids_map = pids_map }, h')

started : Os → SigSet → ServiceRegistry × ServiceIdGen → History → Supervisor
started os original_sigset (registry, gen) h =
    let (registry', h') = start_all os original_sigset registry h in
    flush_status_file
      (record { registry = registry'; id_gen = gen; sv_state = running; history = h' })

after_load : Os → SigSet → Loaded → History → Result Supervisor
unfolding started
after_load os original_sigset (err e) h = err e
after_load os original_sigset (ok loaded) h = ok (started os original_sigset loaded h)

load_config : Result (Map Text ServiceConfig) → Loaded
load_config (err e) = err e
load_config (ok configs) = load_services configs new_registry new_id_gen

-- From the configuration to the state in which the loop begins.
unfoldable pub startup : Os → SigSet → History → Result Supervisor
unfolding load_config after_load
startup os original_sigset h =
    let config = from_config_file os h in
    after_load os original_sigset (load_config config) (config_read config ∷ h)
