-- ===== src/Supervisor/Events/Ids.antt =====
-- The id generator over the loop: only a reload advances it, and it stays a 64-bit number.
use svlopp.Prelude.{ℕ, Option, none, some, ok, err, if_cases}
use svlopp.Os.{Os, SigSet}
use svlopp.Reload.Ids.{IsU64, reload_services-gen}
use svlopp.Supervisor.State.{Supervisor, Flow, Ends, stop_all, state_is_running}
use svlopp.Supervisor.Signals.{on_sighup, on_sigchld, on_shutdown, after_reaping, exit_if_stopped}
use svlopp.Registry.Defs.{Handled, all_stopped}
use svlopp.Supervisor.Events.{rounds}
use svlopp.Supervisor.Events.Rule.{IsKept, rounds-Ends}

abbrev pub HasU64 : Supervisor → Type 0
HasU64 sv = IsU64 sv.id_gen

abbrev pub EndsU64 : Flow → Type 0
EndsU64 = Ends HasU64 (λ _ _. Unit) Unit

exit_if_stopped-EndsU64 : (sv : Supervisor) → HasU64 sv → EndsU64 (exit_if_stopped sv)
exit_if_stopped-EndsU64 sv v = if_cases EndsU64 (all_stopped sv.registry) _ _ (λ _. tt) (λ _. v)

after_reaping-EndsU64 :
    (sv : Supervisor) (out : Option Handled) → HasU64 sv → EndsU64 (after_reaping sv out)
unfolding after_reaping
after_reaping-EndsU64 sv none v = tt
after_reaping-EndsU64 sv (some (err e, registry, h)) v = tt
after_reaping-EndsU64 sv (some (ok _, registry, h)) v =
    if_cases EndsU64 (state_is_running sv.sv_state) _ _ (λ _. v) (λ _. exit_if_stopped-EndsU64 _ v)

module _ (os : Os) (sigset : SigSet) (fuel : ℕ) where
  HasU64-kept : IsKept os sigset fuel HasU64 (λ _ _. Unit) Unit
  unfolding on_sighup on_sigchld on_shutdown stop_all
  HasU64-kept = record {
    logged = λ sv c e v. v;
    failed = λ sv e n v. tt;
    reloaded = λ sv v. reload_services-gen os sigset sv.registry sv.id_gen sv.history v;
    reaped = λ sv v. after_reaping-EndsU64 sv _ v;
    shut = λ sv v.
        exit_if_stopped-EndsU64 _
          (if_cases HasU64 (state_is_running sv.sv_state) _ _ (λ _. v) (λ _. v));
    turned = λ sv v. v;
    requested = λ sv k op v. v;
  }

  pub rounds-IsU64 :
      (n : ℕ) (sv : Supervisor) → IsU64 sv.id_gen → EndsU64 (rounds os sigset fuel n sv)
  rounds-IsU64 n sv v = rounds-Ends os sigset fuel HasU64 (λ _ _. Unit) Unit HasU64-kept n sv v
