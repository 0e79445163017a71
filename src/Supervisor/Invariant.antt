-- ===== src/Supervisor/Invariant.antt =====
-- Whatever the events, the registry stays consistent.
use svlopp.Prelude.{nat_eq, ◌≢◌, refl, err, panic}
use svlopp.Prelude.Maps.Loop.{retain_with_inv}
use svlopp.Os.{Os, ForkIsFresh}
use svlopp.Registry.Invariant.{Inv, IsConsistent}
use svlopp.Registry.Steps.{stop-step}
use svlopp.Service.ConfigFile.{ConfigIsMap}
use svlopp.Reap.Invariant.{StatusIsExact}
use svlopp.Supervisor.State.{Supervisor, Flow, Ends, stop_each, stop_all}

-- What the proofs rely on of the operating system and of the parser of the configuration.
pub record IsLawful (os : Os) : Type 0 where
  pub fresh : ForkIsFresh os
  pub exact : StatusIsExact os
  pub is_map : ConfigIsMap os

abbrev pub IsValid : Supervisor → Type 0
IsValid sv = IsConsistent sv.registry sv.id_gen sv.history

-- Where a step ends, the supervisor is valid; `run` does not end by a panic.
abbrev pub EndsValid : Flow → Type 0
EndsValid = Ends IsValid (λ r sv. IsValid sv × (r ≢ err panic)) Unit

pub stop_all-IsValid : (os : Os) (sv : Supervisor) → IsValid sv → IsValid (stop_all os sv)
unfolding stop_all
stop_all-IsValid os sv v =
    let (distinct, inv) =
      retain_with_inv (λ m h. Inv m sv.id_gen sv.registry.pids_map h) (stop_each os)
        (λ m m' k s h i here c. stop-step k s s m' i here refl refl os refl c)
        sv.registry.services_map sv.history v.distinct v.inv in
    record { distinct = distinct; inv = inv }
