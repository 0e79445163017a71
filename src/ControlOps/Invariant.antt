-- ===== src/ControlOps/Invariant.antt =====
-- Control requests keep the registry consistent.
use svlopp.Prelude.{
  ℕ, ◌≡◌, refl, inl, inr, none, some, arith, nat_eq, sym, ap, subst, Option-cases, Bool-cases,
  if_cases, Bool, true, ◌&&◌,
}
use svlopp.Os.{Os, SigSet, History, ForkIsFresh}
use svlopp.Control.{ControlOp, stop, start, restart}
use svlopp.Service.Types.{ServiceState, stopped, running, stopping, is_none}
use svlopp.Service.Methods.{Service, pid, state_pid, state_is_stopped}
use svlopp.Registry.Defs.{ServiceRegistry, Handled, service, start_registered, stop_registered}
use svlopp.Registry.Invariant.{IsConsistent}
use svlopp.Registry.Steps.{start_registered-IsConsistent, stop_registered-IsConsistent}
use svlopp.ControlOps.{is_running, apply_to, restart_in, apply_control_op}

no_pid : (s : ServiceState) (b : Bool) → state_is_stopped s && b ≡ true → state_pid s ≡ none
no_pid s b e = ground arith

module _ (os : Os) (fresh : ForkIsFresh os) (next : ℕ) (svc_id : ℕ) (svc : Service)
    (sigset : SigSet) (registry : ServiceRegistry) (h : History) (c : IsConsistent registry next h)
    (here : service svc_id registry ≡ some svc) where
  starts :
      pid svc ≡ none
      → let out = start_registered os svc_id svc.id svc sigset registry h in
        IsConsistent out.1 next out.2
  starts idle =
      subst
        (λ j.
          let out = start_registered os svc_id j svc sigset registry h in
          IsConsistent out.1 next out.2)
        (sym (c.inv.keyed svc_id svc here).0)
        (start_registered-IsConsistent svc_id svc svc registry c here refl refl os sigset fresh idle
          idle)

  -- A request to stop, of the service as it is or with a pending restart.
  stops :
      (s : Service)
      → s.id ≡ svc.id
      → s.name ≡ svc.name
      → pid s ≡ pid svc
      → let out = stop_registered os svc_id s registry h in IsConsistent out.1 next out.2
  stops s same_id same_name same_pid =
      stop_registered-IsConsistent svc_id svc s registry c here same_id same_name os same_pid

  restart_in-IsConsistent :
      (state : ServiceState)
      → svc.state ≡ state
      → let out = restart_in os svc_id svc sigset registry h state in IsConsistent out.1 next out.2
  unfolding restart_in
  restart_in-IsConsistent (stopped r) e = elim (Bool-cases (is_none svc.pending_action)) [
    | inl p ↦ rw p (starts (ap state_pid e))
    | inr p ↦ rw p c
  ]
  restart_in-IsConsistent (running p) e = elim (Bool-cases (is_none svc.pending_action)) [
    | inl p ↦ rw p (stops _ refl refl refl)
    | inr p ↦ rw p c
  ]
  restart_in-IsConsistent (stopping p d) e = c

  apply_to-IsConsistent :
      (op : ControlOp)
      → let out = apply_to os svc_id svc sigset registry h op in IsConsistent out.1 next out.2
  unfolding apply_to
  apply_to-IsConsistent stop =
      if_cases (λ (out : Handled). IsConsistent out.1 next out.2) (is_running svc.state) _ _
        (λ _. stops svc refl refl refl) (λ _. c)
  apply_to-IsConsistent start =
      if_cases (λ (out : Handled). IsConsistent out.1 next out.2)
        (state_is_stopped svc.state && is_none svc.pending_action) _ _
        (λ e. starts (no_pid svc.state (is_none svc.pending_action) e)) (λ _. c)
  apply_to-IsConsistent restart = restart_in-IsConsistent svc.state refl

-- Where forked pids are fresh, from a consistent registry, every request on every id leaves a
-- consistent registry.
pub apply_control_op-IsConsistent :
    (os : Os)
    → ForkIsFresh os
    → (next : ℕ) (registry : ServiceRegistry) (svc_id : ℕ) (op : ControlOp) (sigset : SigSet)
      (h : History)
    → IsConsistent registry next h
    → let out = apply_control_op os registry svc_id op sigset h in IsConsistent out.1 next out.2
unfolding apply_control_op
apply_control_op-IsConsistent os fresh next registry svc_id op sigset h c =
    elim (Option-cases (service svc_id registry)) [
      | inl e ↦ rw (e, apply_control_op) c
      | inr (svc, e) ↦
          rw (e, apply_control_op)
            (apply_to-IsConsistent os fresh next svc_id svc sigset registry h c e op)
    ]
