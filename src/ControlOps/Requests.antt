-- ===== src/ControlOps/Requests.antt =====
-- What a control request may and may not change.
use svlopp.Prelude.{
  ℕ, ◌≡◌, ◌≢◌, false, Option, none, some, Option-cases, inl, inr, arith, nat_eq, nat_beq_iff, ok,
  ◌==◌, ◌+◌, ◌∷◌, if◌then◌else◌,
}
use svlopp.Prelude.Maps.{get-insert}
use svlopp.Os.{Os, SigSet, History, killed}
use svlopp.Control.{ControlOp, stop, start, restart}
use svlopp.Service.Types.{
  ServiceState, stopped, running, stopping, is_none, ServicePendingAction, nothing,
}
use svlopp.Service.Types
use svlopp.Service.Methods.{Service, stop_signal, stop_timeout}
use svlopp.Service.Process.{start_service, stop_service}
use svlopp.Registry.Defs.{ServiceRegistry, service, start_registered, stop_registered}
use svlopp.ControlOps.{is_running, apply_to, apply_control_op}

-- The pending action of the service of an id, if there is one.
abbrev pub entry_pending : Option Service → Option ServicePendingAction
entry_pending none = none
entry_pending (some s) = some s.pending_action

start_registered-get :
    (os : Os) (k j : ℕ) (s : Service) (sigset : SigSet) (registry : ServiceRegistry) (h : History)
    → service j (start_registered os k s.id s sigset registry h).1
      ≡ (if k == j then some (start_service os s sigset h).1 else service j registry)
unfolding start_registered
start_registered-get os k j s sigset registry h = get-insert j k _ registry.services_map

stop_registered-get :
    (os : Os) (k j : ℕ) (s : Service) (registry : ServiceRegistry) (h : History)
    → service j (stop_registered os k s registry h).1
      ≡ (if k == j then some (stop_service os s h).1 else service j registry)
unfolding stop_registered
stop_registered-get os k j s registry h = get-insert j k _ registry.services_map

stop_service-pending :
    (os : Os) (s : Service) (h : History)
    → (stop_service os s h).1.pending_action ≡ s.pending_action
unfolding stop_service
stop_service-pending os s h = ground arith

module _ (os : Os) (k : ℕ) (svc : Service) (sigset : SigSet) (registry : ServiceRegistry)
    (h : History) where
  apply_to-other :
      (j : ℕ) (op : ControlOp)
      → k ≢ j
      → service j (apply_to os k svc sigset registry h op).1 ≡ service j registry
  unfolding apply_to
  apply_to-other j start n = ground (arith, start_registered-get os k j svc sigset registry h)
  apply_to-other j stop n = ground (arith, stop_registered-get os k j svc registry h)
  apply_to-other j restart n = ground (
    arith,
    start_registered-get os k j svc sigset registry h,
    stop_registered-get os k j (record svc { pending_action = Types.restart }) registry h,
  )

  apply_to-pending :
      (op : ControlOp)
      → service k registry ≡ some svc
      → svc.pending_action ≢ nothing
      → entry_pending (service k (apply_to os k svc sigset registry h op).1)
        ≡ some svc.pending_action
  unfolding apply_to
  apply_to-pending start here n = ground arith
  apply_to-pending stop here n = ground (
    arith,
    nat_beq_iff k k,
    stop_registered-get os k k svc registry h,
    stop_service-pending os svc h,
  )
  apply_to-pending restart here n = ground arith

  apply_to-idle :
      (op : ControlOp)
      → svc.pending_action ≢ nothing
      → is_running svc.state ≡ false
      → apply_to os k svc sigset registry h op ≡ (ok tt, registry, h)
  unfolding apply_to
  apply_to-idle start n r = ground arith
  apply_to-idle stop n r = ground arith
  apply_to-idle restart n r = ground arith

-- A request leaves every service as it is but the one that it names.
pub apply_control_op-other :
    (os : Os) (registry : ServiceRegistry) (k j : ℕ) (op : ControlOp) (sigset : SigSet)
    (h : History)
    → k ≢ j
    → service j (apply_control_op os registry k op sigset h).1 ≡ service j registry
unfolding apply_control_op
apply_control_op-other os registry k j op sigset h n = elim (Option-cases (service k registry)) [
  | inl e ↦ rw (e, apply_control_op)
  | inr (svc, e) ↦ rw (e, apply_control_op) (apply_to-other os k svc sigset registry h j op n)
]

-- For a service with a pending action, every request keeps the action, and if the service is not
-- running the request changes nothing and makes no call.
pub apply_control_op-pending :
    (os : Os) (registry : ServiceRegistry) (k : ℕ) (svc : Service) (op : ControlOp)
    (sigset : SigSet) (h : History)
    → service k registry ≡ some svc
    → svc.pending_action ≢ nothing
    → (entry_pending (service k (apply_control_op os registry k op sigset h).1)
        ≡ some svc.pending_action)
      × (is_running svc.state ≡ false
          → apply_control_op os registry k op sigset h ≡ (ok tt, registry, h))
unfolding apply_control_op
apply_control_op-pending os registry k svc op sigset h here n = (
  rw (here, apply_control_op) (apply_to-pending os k svc sigset registry h op here n),
  λ r. rw (here, apply_control_op) (apply_to-idle os k svc sigset registry h op n r),
)

-- A service that was asked to stop, to be restarted.
abbrev pub asked : Service → ℕ → ℕ → Service
asked s p deadline = record s { state = stopping p deadline; pending_action = Types.restart }

stop_service-running :
    (os : Os) (s : Service) (p : ℕ) (h : History)
    → s.state ≡ running p
    → os.kill h p (stop_signal s) ≡ none
    → (deadline : ℕ) × ((stop_service os s h).1 ≡ record s { state = stopping p deadline })
unfolding stop_service
stop_service-running os s p h run sent =
    (os.now (killed p (stop_signal s) none ∷ h) + stop_timeout s, ground (arith, run, sent))

apply_to-restart :
    (os : Os) (k p : ℕ) (s : Service) (sigset : SigSet) (registry : ServiceRegistry) (h : History)
    → s.state ≡ running p
    → s.pending_action ≡ nothing
    → apply_to os k s sigset registry h restart
      ≡ stop_registered os k (record s { pending_action = Types.restart }) registry h
unfolding apply_to
apply_to-restart os k p s sigset registry h run quiet = ground (arith, run, quiet)

-- A request to restart a running service asks it to stop and leaves the restart pending.
pub apply_control_op-restart :
    (os : Os) (registry : ServiceRegistry) (k p : ℕ) (s : Service) (sigset : SigSet) (h : History)
    → service k registry ≡ some s
    → s.state ≡ running p
    → s.pending_action ≡ nothing
    → os.kill h p (stop_signal s) ≡ none
    → (deadline : ℕ) × (service k (apply_control_op os registry k restart sigset h).1
        ≡ some (asked s p deadline))
unfolding apply_control_op
apply_control_op-restart os registry k p s sigset h here run quiet sent =
    let to_restart : Service = record s { pending_action = Types.restart } in
    let (deadline, e) = stop_service-running os to_restart p h run sent in
    (
      deadline,
      rw (here, apply_control_op, apply_to-restart os k p s sigset registry h run quiet)
          (ground (arith, stop_registered-get os k k to_restart registry h, nat_beq_iff k k, e)),
    )
