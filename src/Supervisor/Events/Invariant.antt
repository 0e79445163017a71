-- ===== src/Supervisor/Events/Invariant.antt =====
-- Every event, and so every run of the loop, keeps the supervisor valid.
use svlopp.Prelude.{◌∷◌, ℕ, ◌≢◌, err, panic}
use svlopp.Os.{Os, SigSet, History, Keeps, is_plain-Keeps}
use svlopp.Registry.Invariant.{history-Inv}
use svlopp.ControlOps.Invariant.{apply_control_op-IsConsistent}
use svlopp.Tick.Invariant.{tick-IsConsistent}
use svlopp.Supervisor.State.{Supervisor}
use svlopp.Supervisor.Signals.Invariant.{
  on_sighup-IsValid, on_sigchld-EndsValid, on_shutdown-EndsValid,
}
use svlopp.Supervisor.Events.{rounds}
use svlopp.Supervisor.Events.Rule.{IsKept, rounds-Ends}
use svlopp.Supervisor.Invariant.{IsLawful, IsValid, EndsValid}

history-IsValid :
    (sv : Supervisor) (h : History)
    → Keeps sv.history h
    → IsValid sv
    → IsValid (record sv { history = h })
history-IsValid sv h kept v = record { distinct = v.distinct; inv = history-Inv v.inv h kept }

module _ (os : Os) (laws : IsLawful os) (original_sigset : SigSet) (fuel : ℕ) where
  pub IsValid-kept :
      IsKept os original_sigset fuel IsValid (λ r sv. IsValid sv × (r ≢ err panic)) Unit
  IsValid-kept = record {
    logged = λ sv c e v. history-IsValid sv (c ∷ sv.history) (is_plain-Keeps c sv.history e) v;
    failed = λ sv e n v. (v, λ q. n (cc));
    reloaded = on_sighup-IsValid os laws original_sigset fuel;
    reaped = on_sigchld-EndsValid os laws original_sigset fuel;
    shut = on_shutdown-EndsValid os laws original_sigset fuel;
    turned =
        λ sv v. tick-IsConsistent os laws.fresh original_sigset sv.id_gen sv.registry sv.history v;
    requested = λ sv k op v.
        apply_control_op-IsConsistent os laws.fresh sv.id_gen sv.registry k op original_sigset
          sv.history v;
  }

  -- On a lawful operating system (forked pids are fresh, wait statuses exact, a parsed
  -- configuration is a map), from a valid supervisor, any number of rounds of the loop (signals,
  -- timer, control requests, reloads) that the fuel does not cut short leaves ids and names
  -- distinct and pids_map the exact inverse of the services' pids, all of them children not yet
  -- reaped, and run does not end by a panic.
  pub rounds-EndsValid :
      (n : ℕ) (sv : Supervisor) → IsValid sv → EndsValid (rounds os original_sigset fuel n sv)
  rounds-EndsValid n sv v = rounds-Ends os original_sigset fuel IsValid _ _ IsValid-kept n sv v
