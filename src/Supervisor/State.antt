-- ===== src/Supervisor/State.antt =====
-- main.rs: what `run` keeps, and how a step of its loop can end.
use svlopp.Prelude.{ℕ, Bool, true, false, Option, some, ◌∷◌, Result}
use svlopp.Prelude.Maps.Loop.{retain_with}
use svlopp.Os.{Os, History, status_written}
use svlopp.Service.Methods.{Service, ServiceIdGen}
use svlopp.Service.Process.{stop_service}
use svlopp.Service.Display.{format_status}
use svlopp.Registry.Defs.{ServiceRegistry}

pub data SupervisorState : Type 0 where
  running shutdown_requested : SupervisorState

abbrev pub state_is_running : SupervisorState → Bool
state_is_running running = true
state_is_running shutdown_requested = false

pub record Supervisor : Type 0 where
  pub registry : ServiceRegistry
  pub id_gen : ServiceIdGen
  pub sv_state : SupervisorState
  pub history : History

-- A step goes on, ends `run` with its result, or was cut short in the model.
pub data Flow : Type 0 where
  continues : Supervisor → Flow
  exits : Result (Unit {0}) → Supervisor → Flow
  out_of_fuel : Flow

abbrev pub and_flow : Flow → (Supervisor → Flow) → Flow
and_flow (continues sv) next = next sv
and_flow (exits r sv) next = exits r sv
and_flow out_of_fuel next = out_of_fuel

-- What holds where a step goes on, where it ends `run` with a result, and what it says of the
-- fuel's end.
abbrev pub Ends :
    (Supervisor → Type 0) → (Result (Unit {0}) → Supervisor → Type 0) → Type 0 → Flow → Type 0
Ends P E F (continues sv) = P sv
Ends P E F (exits r sv) = E r sv
Ends P E F out_of_fuel = F

module _ (P : Supervisor → Type 0) (E : Result (Unit {0}) → Supervisor → Type 0) (F : Type 0) where
  pub and_flow-Ends :
      (flow : Flow) (next : Supervisor → Flow)
      → Ends P E F flow
      → ((sv : Supervisor) → P sv → Ends P E F (next sv))
      → Ends P E F (and_flow flow next)
  and_flow-Ends (continues sv) next v f = f sv v
  and_flow-Ends (exits r sv) next v f = v
  and_flow-Ends out_of_fuel next v f = v

pub Ends-both :
    (P P' : Supervisor → Type 0) (E E' : Result (Unit {0}) → Supervisor → Type 0) (flow : Flow)
    → Ends P E Unit flow
    → Ends P' E' Unit flow
    → Ends (λ sv. P sv × P' sv) (λ r sv. E r sv × E' r sv) Unit flow
Ends-both P P' E E' (continues sv) v w = (v, w)
Ends-both P P' E E' (exits r sv) v w = (v, w)
Ends-both P P' E E' out_of_fuel v w = tt

-- `flush_status_file`: errors are only logged.
unfoldable pub flush_status_file : Supervisor → Supervisor
flush_status_file sv = record sv {
  history = status_written (format_status sv.registry) ∷ sv.history;
}

-- `for svc in services_mut()`: an error is logged, and the loop goes on.
unfoldable pub stop_each : Os → ℕ → Service → History → Option Service × History
stop_each os k svc h = let (result, svc', h') = stop_service os svc h in (some svc', h')

unfoldable pub stop_all : Os → Supervisor → Supervisor
unfolding stop_each
stop_all os sv =
    let (services_map, h') = retain_with (stop_each os) sv.registry.services_map sv.history in
    record sv { registry = record sv.registry { services_map = services_map }; history = h' }
