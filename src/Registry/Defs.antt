-- ===== src/Registry/Defs.antt =====
-- service.rs: `ServiceRegistry` and its methods.
use svlopp.Prelude.{
  ◌≡◌, arith, Result, ok, err, ℕ, Bool, true, ◌&&◌, Option, none, some, [], ◌∷◌, nat_eq,
}
use svlopp.Prelude.Maps
use svlopp.Prelude.Maps.{Map}
use svlopp.Os.{Os, SigSet, History}
use svlopp.Service.Methods.{Service, pid, is_stopped}
use svlopp.Service.Process.{start_service, stop_service}

pub record ServiceRegistry : Type 0 where
  pub services_map : Map ℕ Service
  pub pids_map : Map ℕ ℕ

abbrev pub new_registry : ServiceRegistry
new_registry = record { services_map = []; pids_map = [] }

unfoldable pub insert_service : Service → ServiceRegistry → ServiceRegistry
insert_service svc registry = record registry {
  services_map = Maps.insert svc.id svc registry.services_map;
}

-- `service` and `service_mut`; what is done to the service is put back by `put_service`.
abbrev pub service : ℕ → ServiceRegistry → Option Service
service svc_id registry = Maps.get svc_id registry.services_map

abbrev pub put_service : ℕ → Service → ServiceRegistry → ServiceRegistry
put_service svc_id svc registry = record registry {
  services_map = Maps.insert svc_id svc registry.services_map;
}

unfoldable pub register_pid : ℕ → ℕ → ServiceRegistry → ServiceRegistry
register_pid pid svc_id registry = record registry {
  pids_map = Maps.insert pid svc_id registry.pids_map;
}

-- `register_pid` of the pid that a started service has; the code's `expect` never finds `none`.
unfoldable pub register_started : Option ℕ → ℕ → Map ℕ ℕ → Map ℕ ℕ
register_started none svc_id pids_map = pids_map
register_started (some pid) svc_id pids_map = Maps.insert pid svc_id pids_map

lookup_id : Option ℕ → ServiceRegistry → Option Service
lookup_id none registry = none
lookup_id (some svc_id) registry = service svc_id registry

unfoldable pub get_by_pid : ℕ → ServiceRegistry → Option Service
unfolding lookup_id
get_by_pid pid registry = lookup_id (Maps.get pid registry.pids_map) registry

-- The id and the service; the pid is gone also when there is no such service.
take_id : ℕ → Option ℕ → ServiceRegistry → Option (ℕ × Service) × ServiceRegistry
take_id pid none registry = (none, registry)
take_id pid (some svc_id) registry =
    let rest = record registry { pids_map = Maps.remove pid registry.pids_map } in
    (elim (service svc_id rest) [ none ↦ none | some svc ↦ some (svc_id, svc) ], rest)

unfoldable pub take_by_pid : ℕ → ServiceRegistry → Option (ℕ × Service) × ServiceRegistry
unfolding take_id
take_by_pid pid registry = take_id pid (Maps.get pid registry.pids_map) registry

unfoldable pub remove_service : ℕ → ServiceRegistry → ServiceRegistry
remove_service svc_id registry = record registry {
  services_map = Maps.remove svc_id registry.services_map;
}

unfoldable pub all_values_stopped : Map ℕ Service → Bool
all_values_stopped [] = true
all_values_stopped ((k, svc) ∷ m) = is_stopped svc && all_values_stopped m

-- `services().all(|svc| svc.is_stopped())`
unfoldable pub all_stopped : ServiceRegistry → Bool
unfolding all_values_stopped
all_stopped registry = all_values_stopped registry.services_map

-- What a handler leaves: its result, the registry and the calls made.
abbrev pub Handled : Type 0
Handled = Result (Unit {0}) × ServiceRegistry × History

-- `?` after `start_service`: the pid is registered only if it succeeded.
abbrev pub pids_after : Result (Unit {0}) → Option ℕ → ℕ → Map ℕ ℕ → Map ℕ ℕ
pids_after (ok _) pid svc_id pids_map = register_started pid svc_id pids_map
pids_after (err _) pid svc_id pids_map = pids_map

-- `start_service(svc, sigset)?` on the service that stands under `key`, then
-- `registry.register_pid(svc_pid, svc_id)`.
unfoldable pub start_registered :
    Os → ℕ → ℕ → Service → SigSet → ServiceRegistry → History → Handled
start_registered os key svc_id svc sigset registry h =
    let (result, svc', h') = start_service os svc sigset h in
    (
      result,
      record {
        services_map = Maps.insert key svc' registry.services_map;
        pids_map = pids_after result (pid svc') svc_id registry.pids_map;
      },
      h',
    )

-- `stop_service(svc)?` on the service that stands under `key`.
unfoldable pub stop_registered : Os → ℕ → Service → ServiceRegistry → History → Handled
stop_registered os key svc registry h =
    let (result, svc', h') = stop_service os svc h in (result, put_service key svc' registry, h')

all_values_stopped-get :
    (m : Map ℕ Service) (k : ℕ) (s : Service)
    → all_values_stopped m ≡ true
    → Maps.get k m ≡ some s
    → pid s ≡ none
unfolding all_values_stopped Maps.get
all_values_stopped-get [] k s e f = ground arith
all_values_stopped-get ((j, t) ∷ m) k s e f = ground (arith, all_values_stopped-get m k s)

-- A stopped service has no process.
pub all_stopped-get :
    (registry : ServiceRegistry) (k : ℕ) (s : Service)
    → all_stopped registry ≡ true
    → service k registry ≡ some s
    → pid s ≡ none
unfolding all_stopped
all_stopped-get registry k s e f = all_values_stopped-get registry.services_map k s e f
