-- ===== src/ControlOps/Stages.antt =====
-- A control request follows the life of each service.
use svlopp.Prelude.{
  ℕ, ◌≡◌, refl, ◌&&◌, some, nat_eq, Option-cases, inl, inr, if_cases, true, arith, Bool,
}
use svlopp.Os.{Os, SigSet, History}
use svlopp.Control.{ControlOp, stop, start, restart}
use svlopp.Service.Types.{ServiceState, stopped, running, stopping, is_none, ServiceStopReason}
use svlopp.Service.Methods.{Service, state_is_stopped}
use svlopp.Registry.Defs.{ServiceRegistry, Handled, service, start_registered, stop_registered}
use svlopp.Registry.Invariant.{IsConsistent}
use svlopp.Lifecycle.Registry.{start_registered-Follows, stop_registered-Follows}
use svlopp.Lifecycle.{Follows}
use svlopp.Lifecycle.Changes.{Inv-AreGiven, Follows-refl}
use svlopp.ControlOps.{is_running, restart_in, apply_to, apply_control_op}

is_stopped-reason :
    (s : ServiceState) (b : Bool)
    → (state_is_stopped s && b) ≡ true
    → (r : ServiceStopReason) × (s ≡ stopped r)
is_stopped-reason (stopped r) b e = (r, refl)
is_stopped-reason (running p) b e = ground arith
is_stopped-reason (stopping p d) b e = ground arith

module _ (os : Os) (n k : ℕ) (svc : Service) (sigset : SigSet) (registry : ServiceRegistry)
    (h : History) (c : IsConsistent registry n h) (entry : service k registry ≡ some svc) where
  -- What a handler leaves follows the registry it was given.
  abbrev FollowsHere : Handled → Type 0
  FollowsHere out = Follows n registry.services_map h n out.1.services_map out.2

  starts :
      (id : ℕ) (r : ServiceStopReason)
      → svc.state ≡ stopped r
      → FollowsHere (start_registered os k id svc sigset registry h)
  starts id r e =
      start_registered-Follows n k svc svc registry (Inv-AreGiven c.inv) entry refl os id sigset h r
        e

  stops : (s : Service) → s.state ≡ svc.state → FollowsHere (stop_registered os k s registry h)
  stops s e = stop_registered-Follows n k svc s registry (Inv-AreGiven c.inv) entry e os h

  restart_in-Follows :
      (state : ServiceState)
      → svc.state ≡ state
      → FollowsHere (restart_in os k svc sigset registry h state)
  unfolding restart_in
  restart_in-Follows (stopped r) e =
      if_cases FollowsHere (is_none svc.pending_action) _ _ (λ _. starts svc.id r e)
        (λ _. Follows-refl n _)
  restart_in-Follows (running p) e =
      if_cases FollowsHere (is_none svc.pending_action) _ _ (λ _. stops _ refl)
        (λ _. Follows-refl n _)
  restart_in-Follows (stopping p d) e = Follows-refl n _

  apply_to-Follows : (op : ControlOp) → FollowsHere (apply_to os k svc sigset registry h op)
  unfolding apply_to
  apply_to-Follows stop =
      if_cases FollowsHere (is_running svc.state) _ _ (λ _. stops svc refl) (λ _. Follows-refl n _)
  apply_to-Follows start =
      if_cases FollowsHere (state_is_stopped svc.state && is_none svc.pending_action) _ _
        (λ e. let (r, q) = is_stopped-reason svc.state _ e in starts svc.id r q)
        (λ _. Follows-refl n _)
  apply_to-Follows restart = restart_in-Follows svc.state refl

pub apply_control_op-Follows :
    (os : Os) (n : ℕ) (registry : ServiceRegistry) (k : ℕ) (op : ControlOp) (sigset : SigSet)
    (h : History)
    → IsConsistent registry n h
    → let out = apply_control_op os registry k op sigset h in
      Follows n registry.services_map h n out.1.services_map out.2
unfolding apply_control_op
apply_control_op-Follows os n registry k op sigset h c = elim (Option-cases (service k registry)) [
  | inl e ↦ rw (e, apply_control_op) (Follows-refl n _)
  | inr (svc, e) ↦ rw (e, apply_control_op) (apply_to-Follows os n k svc sigset registry h c e op)
]
