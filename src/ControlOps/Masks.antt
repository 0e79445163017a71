-- ===== src/ControlOps/Masks.antt =====
-- The children that a control request forks.
use svlopp.Service.Types
use svlopp.Service.Methods.{Service}
use svlopp.Prelude.{ℕ, inl, inr, Option-cases, arith, nat_eq}
use svlopp.Os.{Os, SigSet, History}
use svlopp.Control.{ControlOp}
use svlopp.Service.Process.Masks.{AllMasked, start_service-AllMasked, stop_service-AllMasked}
use svlopp.Registry.Defs.{service, ServiceRegistry, start_registered, stop_registered}
use svlopp.ControlOps.{restart_in, apply_to, apply_control_op}

module _ (os : Os) (sigset : SigSet) where
  apply_to-AllMasked :
      (registry : ServiceRegistry) (k : ℕ) (op : ControlOp) (h : History)
      → AllMasked sigset h
      → (s : Service) → AllMasked sigset (apply_to os k s sigset registry h op).2
  unfolding apply_to restart_in start_registered stop_registered
  apply_to-AllMasked registry k op h a s = ground (
    arith,
    start_service-AllMasked os sigset s h a,
    stop_service-AllMasked os sigset s h a,
    stop_service-AllMasked os sigset (record s { pending_action = Types.restart }) h a,
  )

  pub apply_control_op-AllMasked :
      (registry : ServiceRegistry) (k : ℕ) (op : ControlOp) (h : History)
      → AllMasked sigset h
      → AllMasked sigset (apply_control_op os registry k op sigset h).2
  unfolding apply_control_op
  apply_control_op-AllMasked registry k op h a = elim (Option-cases (service k registry)) [
    | inl e ↦ rw (e, AllMasked) a
    | inr (s, e) ↦ rw (e, AllMasked) (apply_to-AllMasked registry k op h a s)
  ]
