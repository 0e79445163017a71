-- ===== src/Supervisor/Stages.antt =====
-- The supervisor refines the specification of a service's life.
use svlopp.Prelude.{ℕ, ◌≡◌, ◌≢◌, refl, err, panic, if_cases, Option, none, some, Result, ok, nat_eq}
use svlopp.Prelude.Maps.Loop.{retain_with_inv}
use svlopp.Os.{Os, SigSet}
use svlopp.Registry.Defs.{Handled, all_stopped}
use svlopp.Lifecycle.{next, call, Follows}
use svlopp.Lifecycle.Changes.{
  Follows-refl, Follows-trans, IsOnCourse, loop_turn-IsOnCourse, Inv-AreGiven,
}
use svlopp.Service.Process.Life.{stop_service-Stops}
use svlopp.Reload.Additions.{reload_services-Follows}
use svlopp.Reap.{handle_sigchld}
use svlopp.Reap.Stages.{handle_sigchld-Follows}
use svlopp.Tick.{tick}
use svlopp.ControlOps.{apply_control_op}
use svlopp.Tick.Stages.{tick-Follows}
use svlopp.ControlOps.Stages.{apply_control_op-Follows}
use svlopp.Supervisor.State.{
  Supervisor, shutdown_requested, state_is_running, stop_each, stop_all, Flow, continues, exits,
  out_of_fuel, Ends, Ends-both,
}
use svlopp.Supervisor.Signals.{on_sighup, after_reaping, on_sigchld, exit_if_stopped, on_shutdown}
use svlopp.Supervisor.Events.{rounds}
use svlopp.Supervisor.Events.Invariant.{IsValid-kept}
use svlopp.Supervisor.Events.Rule.{IsKept, rounds-Ends}
use svlopp.Supervisor.Invariant.{IsLawful, IsValid}

-- Each id of the second supervisor is where the life of the service leads it from the first.
abbrev pub Reaches : Supervisor → Supervisor → Type 0
Reaches sv sv' =
    Follows sv.id_gen sv.registry.services_map sv.history sv'.id_gen sv'.registry.services_map
      sv'.history

stop_all-Reaches : (os : Os) (sv : Supervisor) → IsValid sv → Reaches sv (stop_all os sv)
unfolding stop_all stop_each
stop_all-Reaches os sv v =
    let m0 = sv.registry.services_map in
    (retain_with_inv (λ m h. IsOnCourse sv.id_gen m0 sv.history m h) (stop_each os)
      (λ m m' k s h f entry c.
        let (steps, pass) = stop_service-Stops os s h in
        loop_turn-IsOnCourse sv.id_gen k s _ m0 m m' f entry c steps pass)
      m0 sv.history v.distinct (Inv-AreGiven v.inv, Follows-refl sv.id_gen m0)).1.1

module _ (os : Os) (laws : IsLawful os) (original_sigset : SigSet) (fuel : ℕ)
    (sv0 : Supervisor) where
  abbrev EndsReached : Flow → Type 0
  EndsReached = Ends (Reaches sv0) (λ r sv. Reaches sv0 sv) Unit

  Reaches-trans : (sv sv' : Supervisor) → Reaches sv0 sv → Reaches sv sv' → Reaches sv0 sv'
  Reaches-trans sv sv' f g = Follows-trans sv0.id_gen sv.id_gen sv'.id_gen _ _ _ f g

  on_sighup-Reaches : (sv : Supervisor) → IsValid sv → Reaches sv (on_sighup os original_sigset sv)
  unfolding on_sighup
  on_sighup-Reaches sv v =
      reload_services-Follows os laws.fresh laws.is_map sv.registry sv.id_gen original_sigset
        sv.history v

  exit_if_stopped-EndsReached :
      (sv : Supervisor) → Reaches sv0 sv → EndsReached (exit_if_stopped sv)
  exit_if_stopped-EndsReached sv f =
      if_cases EndsReached (all_stopped sv.registry) _ _ (λ _. f) (λ _. f)

  after_reaping-EndsReached :
      (sv : Supervisor) (o : Option Handled)
      → Reaches sv0 sv
      → ((out : Handled)
          → o ≡ some out
          → Follows sv.id_gen sv.registry.services_map sv.history sv.id_gen out.1.services_map
              out.2)
      → EndsReached (after_reaping sv o)
  unfolding after_reaping
  after_reaping-EndsReached sv none f g = tt
  after_reaping-EndsReached sv (some (err e, registry, h)) f g =
      Reaches-trans sv (record sv { registry = registry; history = h }) f (g _ refl)
  after_reaping-EndsReached sv (some (ok _, registry, h)) f g =
      let sv' : Supervisor = record sv { registry = registry; history = h } in
      let f' : Reaches sv0 sv' = Reaches-trans sv sv' f (g _ refl) in
      if_cases EndsReached (state_is_running sv.sv_state) _ _ (λ _. f')
        (λ _. exit_if_stopped-EndsReached sv' f')

  on_sigchld-EndsReached :
      (sv : Supervisor) → IsValid sv → Reaches sv0 sv → EndsReached (on_sigchld os fuel sv)
  unfolding on_sigchld
  on_sigchld-EndsReached sv v f =
      after_reaping-EndsReached sv (handle_sigchld os fuel sv.registry sv.history) f (λ out e.
        handle_sigchld-Follows os laws.exact sv.id_gen fuel sv.registry sv.history out v e)

  on_shutdown-EndsReached :
      (sv : Supervisor) → IsValid sv → Reaches sv0 sv → EndsReached (on_shutdown os sv)
  unfolding on_shutdown
  on_shutdown-EndsReached sv v f = exit_if_stopped-EndsReached _ (
      if_cases (Reaches sv0) (state_is_running sv.sv_state) _ _
        (λ _.
          let sv' : Supervisor = record sv { sv_state = shutdown_requested } in
          Reaches-trans sv (stop_all os sv') f (stop_all-Reaches os sv' v))
        (λ _. f))

  abbrev OnCourse : Supervisor → Type 0
  OnCourse sv = IsValid sv × Reaches sv0 sv

  abbrev EndsOnCourse : Result (Unit {0}) → Supervisor → Type 0
  EndsOnCourse r sv = (IsValid sv × (r ≢ err panic)) × Reaches sv0 sv

  OnCourse-kept : IsKept os original_sigset fuel OnCourse EndsOnCourse Unit
  OnCourse-kept =
      let valid = IsValid-kept os laws original_sigset fuel in
      record {
        logged = λ sv c e (v, f). (valid.logged sv c e v, λ k. next (f k) (call c));
        failed = λ sv e n (v, f). (valid.failed sv e n v, f);
        reloaded = λ sv (v, f). (
          valid.reloaded sv v,
          Reaches-trans sv (on_sighup os original_sigset sv) f (on_sighup-Reaches sv v),
        );
        reaped =
            λ sv (v, f). Ends-both _ _ _ _ _ (valid.reaped sv v) (on_sigchld-EndsReached sv v f);
        shut = λ sv (v, f). Ends-both _ _ _ _ _ (valid.shut sv v) (on_shutdown-EndsReached sv v f);
        turned = λ sv (v, f). (
          valid.turned sv v,
          Reaches-trans sv
              (let out = tick os original_sigset sv.registry sv.history in
                record sv { registry = out.0; history = out.1 })
              f (tick-Follows os original_sigset sv.id_gen sv.registry sv.history v),
        );
        requested = λ sv k op (v, f). (
          valid.requested sv k op v,
          Reaches-trans sv
              (let out = apply_control_op os sv.registry k op original_sigset sv.history in
                record sv { registry = out.1; history = out.2 })
              f
              (apply_control_op-Follows os sv.id_gen sv.registry k op original_sigset sv.history v),
        );
      }

Ends-second :
    (P P' : Supervisor → Type 0) (E E' : Result (Unit {0}) → Supervisor → Type 0) (flow : Flow)
    → Ends (λ sv. P sv × P' sv) (λ r sv. E r sv × E' r sv) Unit flow
    → Ends P' E' Unit flow
Ends-second P P' E E' (continues sv) v = v.1
Ends-second P P' E E' (exits r sv) v = v.1
Ends-second P P' E E' out_of_fuel v = tt

-- On a lawful operating system, from a valid supervisor, any number of rounds of the loop that the
-- fuel does not cut short takes every service id through steps of the specification Lifecycle
-- alone, each at calls that were made in these rounds and in their order: an id is given once; its
-- service starts only when stopped, as the process of a fork that succeeded; is asked to stop only
-- while running, by a signal to its process that the kernel accepted; is stopped only by an answer
-- of waitpid that its process has ended, with the reason that this answer and the state give; and
-- is dropped only when stopped, after which the id is never used again.
pub rounds-EndsReached :
    (os : Os)
    → IsLawful os
    → (original_sigset : SigSet) (fuel n : ℕ) (sv : Supervisor) → IsValid sv
    → Ends (Reaches sv) (λ r end. Reaches sv end) Unit (rounds os original_sigset fuel n sv)
rounds-EndsReached os laws original_sigset fuel n sv v = Ends-second _ _ _ _ _ (
    rounds-Ends os original_sigset fuel _ _ Unit (OnCourse-kept os laws original_sigset fuel sv) n
      sv (v, Follows-refl sv.id_gen sv.registry.services_map))
