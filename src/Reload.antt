-- ===== src/Reload.antt =====
-- src/service.rs: `reload_services`.
pub mod Ids
pub mod Names
pub mod Preserves
pub mod Invariant
pub mod NewService
pub mod Additions
pub mod Unchanged
pub mod Masks
pub mod Outcome
pub mod Kept
pub mod Leaving
pub mod Known
pub mod SecondLoop
pub mod Convergence
use svlopp.Prelude.{
  ℕ, Bool, true, false, not, Option, none, some, List, [], ◌∷◌, nat_eq, list_eq, if◌then◌else◌,
  Text, Result, ok, err, Error, id_overflow,
}
use svlopp.Prelude.Maps.{Map, get, insert, contains_key}
use svlopp.Os.{Os, SigSet, History, config_read}
use svlopp.Service.ConfigFile.{from_config_file}
use svlopp.Service.Types.{ServiceState, stopped, running, stopping, nothing, restart, remove}
use svlopp.Service.Config.{ServiceConfig, config_beq}
use svlopp.Service.Methods.{ServiceIdGen, nextval, Service, new, pid, update_config}
use svlopp.Service.Process.{start_service}
use svlopp.Registry.Defs.{
  ServiceRegistry, Handled, service, put_service, insert_service, register_started, remove_service,
  start_registered, stop_registered,
}

-- `service_ids`: the id of each name.
ids_from : Map ℕ Service → Map Text ℕ → Map Text ℕ
ids_from [] ids = ids
ids_from ((k, svc) ∷ m) ids = ids_from m (insert svc.name svc.id ids)

unfoldable pub service_ids : ServiceRegistry → Map Text ℕ
unfolding ids_from
service_ids registry = ids_from registry.services_map []

-- The first loop: one service that is no longer configured.
remove_in : Os → ServiceState → ℕ → Service → ServiceRegistry → History → Handled
remove_in os (stopped _) svc_id svc registry h = (
  ok tt,
  remove_service svc_id (put_service svc_id (record svc { pending_action = nothing }) registry),
  h,
)
remove_in os (stopping _ _) svc_id svc registry h =
    (ok tt, put_service svc_id (record svc { pending_action = remove }) registry, h)
remove_in os (running _) svc_id svc registry h =
    stop_registered os svc_id (record svc { pending_action = remove }) registry h

pub remove_one : Os → ℕ → Option Service → ServiceRegistry → History → Handled
unfolding remove_in
remove_one os svc_id none registry h = (ok tt, registry, h)
remove_one os svc_id (some svc) registry h = remove_in os svc.state svc_id svc registry h

-- `?` in a loop over handlers: an error ends it, with what was done before.
abbrev pub and_then : Handled → (ServiceRegistry → History → Handled) → Handled
and_then (ok _, registry, h) next = next registry h
and_then (err e, registry, h) next = (err e, registry, h)

unfoldable pub remove_missing :
    Os → Map Text ServiceConfig → Map Text ℕ → ServiceRegistry → History → Handled
unfolding remove_one
remove_missing os configs [] registry h = (ok tt, registry, h)
remove_missing os configs ((name, svc_id) ∷ ids) registry h =
    and_then
      (if contains_key name configs
        then (ok tt, registry, h)
        else remove_one os svc_id (service svc_id registry) registry h)
      (remove_missing os configs ids)

-- What the second loop also threads: the id generator.
abbrev pub Reloaded : Type 0
Reloaded = Result (Unit {0}) × ServiceRegistry × ServiceIdGen × History

abbrev with_gen : ServiceIdGen → Handled → Reloaded
with_gen gen (result, registry, h) = (result, registry, gen, h)

-- The new service is inserted and its pid registered after it has started.
insert_started :
    ℕ → Result (Unit {0}) × Service × History → ServiceRegistry → ServiceIdGen → Reloaded
insert_started svc_id (err e, svc, h) registry gen = (err e, registry, gen, h)
insert_started svc_id (ok _, svc, h) registry gen =
    let inserted = insert_service svc registry in
    (
      ok tt,
      record inserted { pids_map = register_started (pid svc) svc_id inserted.pids_map },
      gen,
      h,
    )

start_new : Os → SigSet → ℕ → Result Service → ServiceRegistry → ServiceIdGen → History → Reloaded
unfolding insert_started
start_new os sigset svc_id (err e) registry gen h = (err e, registry, gen, h)
start_new os sigset svc_id (ok svc) registry gen h =
    insert_started svc_id (start_service os svc sigset h) registry gen

pub add_new :
    Os
    → SigSet
    → Text
    → ServiceConfig
    → Option ℕ × ServiceIdGen
    → ServiceRegistry
    → History
    → Reloaded
unfolding start_new
add_new os sigset name cfg (none, gen) registry h = (err id_overflow, registry, gen, h)
add_new os sigset name cfg (some svc_id, gen) registry h =
    start_new os sigset svc_id (new svc_id name cfg) registry gen h

change_in : Os → SigSet → ServiceState → ℕ → Service → ServiceRegistry → History → Handled
change_in os sigset (stopped _) svc_id svc registry h =
    start_registered os svc_id svc_id svc sigset registry h
change_in os sigset (stopping _ _) svc_id svc registry h =
    (ok tt, put_service svc_id (record svc { pending_action = restart }) registry, h)
change_in os sigset (running _) svc_id svc registry h =
    stop_registered os svc_id (record svc { pending_action = restart }) registry h

change_updated : Os → SigSet → ℕ → Result (Unit {0}) × Service → ServiceRegistry → History → Handled
unfolding change_in
change_updated os sigset svc_id (err e, svc) registry h =
    (err e, put_service svc_id svc registry, h)
change_updated os sigset svc_id (ok _, svc) registry h =
    change_in os sigset svc.state svc_id svc registry h

pub change_one :
    Os → SigSet → ServiceConfig → ℕ → Option Service → ServiceRegistry → History → Handled
unfolding change_updated
change_one os sigset cfg svc_id none registry h = (ok tt, registry, h)
change_one os sigset cfg svc_id (some svc) registry h =
    if config_beq svc.config cfg
    then (ok tt, registry, h)
    else change_updated os sigset svc_id (update_config svc cfg) registry h

-- The second loop: one service of the new configuration.
pub apply_config :
    Os
    → SigSet
    → Text
    → ServiceConfig
    → Option ℕ
    → ServiceRegistry
    → ServiceIdGen
    → History
    → Reloaded
unfolding add_new change_one
apply_config os sigset name cfg none registry gen h =
    add_new os sigset name cfg (nextval gen) registry h
apply_config os sigset name cfg (some svc_id) registry gen h =
    with_gen gen (change_one os sigset cfg svc_id (service svc_id registry) registry h)

abbrev and_reload : Reloaded → (ServiceRegistry → ServiceIdGen → History → Reloaded) → Reloaded
and_reload (ok _, registry, gen, h) next = next registry gen h
and_reload (err e, registry, gen, h) next = (err e, registry, gen, h)

unfoldable pub apply_configs :
    Os
    → SigSet
    → Map Text ℕ
    → Map Text ServiceConfig
    → ServiceRegistry
    → ServiceIdGen
    → History
    → Reloaded
unfolding apply_config
apply_configs os sigset ids [] registry gen h = (ok tt, registry, gen, h)
apply_configs os sigset ids ((name, cfg) ∷ configs) registry gen h =
    and_reload (apply_config os sigset name cfg (get name ids) registry gen h)
      (apply_configs os sigset ids configs)

reload_with :
    Os
    → SigSet
    → Result (Map Text ServiceConfig)
    → ServiceRegistry
    → ServiceIdGen
    → History
    → Reloaded
reload_with os sigset (err e) registry gen h = (err e, registry, gen, h)
reload_with os sigset (ok configs) registry gen h =
    let ids = service_ids registry in
    and_reload (with_gen gen (remove_missing os configs ids registry h))
      (apply_configs os sigset ids configs)

unfoldable pub reload_services : Os → ServiceRegistry → ServiceIdGen → SigSet → History → Reloaded
unfolding reload_with
reload_services os registry gen sigset h =
    let service_configs = from_config_file os h in
    reload_with os sigset service_configs registry gen (config_read service_configs ∷ h)
