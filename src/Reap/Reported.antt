-- ===== src/Reap/Reported.antt =====
-- What one child that is reaped does to each service.
use svlopp.Prelude.{
  ℕ, ◌≡◌, false, ◌⊎◌, inl, inr, none, some, [], ◌∷◌, arith, nat_eq, nat_beq_iff, ok, Option-cases,
  ap,
}
use svlopp.Prelude.Maps.{get, get-insert}
use svlopp.Os.{Os, History, reaped, waited, is_child}
use svlopp.Service.Types.{ExitReason, from_wait_status, from_exit_reason_and_service_state, stopped}
use svlopp.Service.Methods.{Service, pid}
use svlopp.Registry.Defs.{ServiceRegistry, Handled, service, take_by_pid}
use svlopp.Registry.Invariant.{IsConsistent}
use svlopp.Reap.{stop_reaped}

-- The service as it is when its process has ended.
abbrev pub after_exit : ExitReason → Service → Service
after_exit er s = record s { state = stopped (from_exit_reason_and_service_state er s.state) }

-- The result that a finished loop holds.
pub result_of : (out out' : Handled) → some out ≡ some out' → out ≡ out'
result_of out out' e = ap (λ o. elim o [ none ↦ out | some x ↦ x ]) e

-- `waitpid` reported that the process ended so.
abbrev pub IsReported : ℕ → ExitReason → History → Type 0
IsReported p er [] = ⊥
IsReported p er (waited (reaped q status) ∷ h) =
    ((q ≡ p) × (from_wait_status status ≡ ok (some er))) ⊎ IsReported p er h
IsReported p er (_ ∷ h) = IsReported p er h

-- A service is as it was, or it had a process that is reaped now, and it is stopped for the
-- reason that the reported end of the process and its own state give.
abbrev pub IsReaped : ℕ → Service → ServiceRegistry → History → Type 0
IsReaped k s registry h =
    (service k registry ≡ some s)
    ⊎ ((p : ℕ) × (er : ExitReason) × (pid s ≡ some p)
        × (is_child p h ≡ false)
        × IsReported p er h
        × (service k registry ≡ some (after_exit er s)))

-- What is stated of all services, and that no child and no service is made.
abbrev pub Post : ServiceRegistry → History → Handled → Type 0
Post registry h out =
    ((p : ℕ) → is_child p h ≡ false → is_child p out.2 ≡ false)
    × ((p : ℕ) (er : ExitReason) → IsReported p er h → IsReported p er out.2)
    × ((k : ℕ) → service k registry ≡ none → service k out.1 ≡ none)
    × ((k : ℕ) (s : Service) → service k registry ≡ some s → IsReaped k s out.1 out.2)

module _ (os : Os) (p : ℕ) (er : ExitReason) (registry : ServiceRegistry) where
  pub stop_reaped-is_child :
      (q : ℕ) (h : History)
      → is_child q (stop_reaped os p er (take_by_pid p registry) h).1 ≡ is_child q h
  unfolding stop_reaped take_by_pid
  stop_reaped-is_child q h = ground arith

  pub stop_reaped-IsReported :
      (q : ℕ) (er' : ExitReason) (h : History)
      → IsReported q er' h
      → IsReported q er' (stop_reaped os p er (take_by_pid p registry) h).1
  unfolding stop_reaped take_by_pid
  stop_reaped-IsReported q er' h r = elim (Option-cases (get p registry.pids_map)) [
    | inl e ↦ rw e r
    | inr (j, e) ↦ elim (Option-cases (get j registry.services_map)) [
      | inl f ↦ rw (e, f) r
      | inr (t, f) ↦ rw (e, f) r
    ]
  ]

  pub stop_reaped-absent :
      (k : ℕ) (h : History)
      → service k registry ≡ none
      → service k (stop_reaped os p er (take_by_pid p registry) h).0 ≡ none
  unfolding stop_reaped take_by_pid
  stop_reaped-absent k h e = elim (Option-cases (get p registry.pids_map)) [
    | inl a ↦ rw a e
    | inr (j, a) ↦ elim (Option-cases (get j registry.services_map)) [
      | inl f ↦ rw (a, f) e
      | inr (t, f) ↦
          rw (a, f)
            (ground (
              arith,
              e,
              f,
              nat_beq_iff j k,
              get-insert k j (after_exit er t) registry.services_map,
            ))
    ]
  ]

  -- A service stays, or it is the one that had the process.
  pub stop_reaped-service :
      (next : ℕ) (h h' : History) (k : ℕ) (s : Service)
      → IsConsistent registry next h
      → service k registry ≡ some s
      → let out = stop_reaped os p er (take_by_pid p registry) h' in
        (service k out.0 ≡ some s) ⊎ ((pid s ≡ some p) × (service k out.0 ≡ some (after_exit er s)))
  unfolding stop_reaped take_by_pid
  stop_reaped-service next h h' k s c here = elim (Option-cases (get p registry.pids_map)) [
    | inl e ↦ rw e (inl here)
    | inr (j, e) ↦ elim (Option-cases (get j registry.services_map)) [
      | inl f ↦ rw (e, f) (inl here)
      | inr (t, f) ↦
          rw (e, f)
            (ground (
              arith,
              nat_beq_iff j k,
              here,
              f,
              c.inv.owned j p e,
              get-insert k j (after_exit er t) registry.services_map,
            ))
    ]
  ]
