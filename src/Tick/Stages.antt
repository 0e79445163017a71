-- ===== src/Tick/Stages.antt =====
-- A turn of the timer follows the life of each service.
use svlopp.Prelude.{ℕ, ◌≡◌, refl, Option, nat_eq, ◌∷◌, leb, if_cases, sym, subst}
use svlopp.Prelude.Maps.Loop.{retain_with_inv}
use svlopp.Os.{Os, SigSet, History, clock_read}
use svlopp.Service.Types.{
  ServiceState, stopped, running, stopping, ServiceStopReason, ServicePendingAction, nothing,
  restart, remove,
}
use svlopp.Service.Methods.{Service}
use svlopp.Service.Process.Life.{start_service-Goes}
use svlopp.Service.Process.{force_kill_service_process}
use svlopp.Registry.Defs.{ServiceRegistry}
use svlopp.Registry.Invariant.{IsConsistent}
use svlopp.Lifecycle.{Steps, Passes, live, removed, here, next, call, drop, Follows}
use svlopp.Lifecycle.Changes.{after, IsOnCourse, loop_turn-IsOnCourse, Inv-AreGiven, Passes-Follows}
use svlopp.Tick.{Turn, apply_pending, turn_in, turn, tick}

module _ (os : Os) (original_sigset : SigSet) where
  -- A step of the service, and none of any other.
  abbrev Turns : Service → Turn → Option Service × Turn → Type 0
  Turns s t (o, t') = Steps (live s.state) t.1 (after o) t'.1 × Passes t.1 t'.1

  apply_pending-Turns :
      (action : ServicePendingAction) (k : ℕ) (s : Service) (t : Turn) (r : ServiceStopReason)
      → s.state ≡ stopped r
      → Turns s t (apply_pending os original_sigset action k s t)
  unfolding apply_pending
  apply_pending-Turns nothing k s t r e = (here, λ a. here)
  apply_pending-Turns remove k s t r e =
      (subst (λ x. Steps (live x) t.1 removed t.1) (sym e) (next here (drop r)), λ a. here)
  apply_pending-Turns restart k s t r e =
      let (steps, pass) = start_service-Goes os s original_sigset t.1 in (steps r e, pass)

  turn_in-Turns :
      (now : ℕ) (state : ServiceState) (k : ℕ) (s : Service) (t : Turn)
      → s.state ≡ state
      → Turns s t (turn_in os original_sigset now state k s t)
  unfolding turn_in force_kill_service_process
  turn_in-Turns now (stopping p d) k s t e =
      if_cases (Turns s t) (leb d now) _ _ (λ _. (next here (call _), λ a. next here (call _)))
        (λ _. (here, λ a. here))
  turn_in-Turns now (stopped r) k s t e = apply_pending-Turns _ k _ t r e
  turn_in-Turns now (running p) k s t e = (here, λ a. here)

  pub tick-Follows :
      (n : ℕ) (registry : ServiceRegistry) (h : History)
      → IsConsistent registry n h
      → let out = tick os original_sigset registry h in
        Follows n registry.services_map h n out.0.services_map out.1
  unfolding tick turn
  tick-Follows n registry h c =
      let m0 = registry.services_map in
      (retain_with_inv (λ m t. IsOnCourse n m0 h m t.1) (turn os original_sigset (os.now h))
        (λ m m' k s t f entry ch.
          let (steps, pass) = turn_in-Turns (os.now h) s.state k s t refl in
          loop_turn-IsOnCourse n k s _ m0 m m' f entry ch steps pass)
        m0 (registry.pids_map, clock_read (os.now h) ∷ h) c.distinct
        (Inv-AreGiven c.inv, Passes-Follows n m0 (λ a. next here (call _)))).1.1
