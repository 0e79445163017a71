-- ===== src/Reap/Invariant.antt =====
-- `handle_sigchld` keeps the registry consistent, comes to an end, and never panics.
use svlopp.Prelude.{
  ℕ, zero, suc, ◌<◌, ◌≤◌, ◌≡◌, ◌≢◌, refl, true, false, ◌⊎◌, inl, inr, Bool, Option, none, some, ◌∷◌,
  arith, nat_eq, nat_beq_iff, ok, err, panic, Option-cases,
}
use svlopp.Prelude.Maps.{get, get-insert, insert-Distinct}
use svlopp.Utils.{sigkill}
use svlopp.Os.{
  Os, History, WaitReply, reaped, none_ready, wait_failed, waited, group_killed, is_child, ended,
}
use svlopp.Service.Types.{WaitStatus, ExitReason, exited, signaled, from_wait_status}
use svlopp.Service.Methods.{Service, pid}
use svlopp.Registry.Defs.{ServiceRegistry, Handled, take_by_pid}
use svlopp.Registry.Invariant.{IsConsistent, reap-Inv, forget-Inv, history-Inv}
use svlopp.Reap.{stop_reaped, reap_reply, handle_sigchld}

abbrev pub has {ℓ} : {A : Type ℓ} → Option A → Bool
has none = false
has (some _) = true

-- rustix: `exit_status()` is `Some` exactly when `exited()`, `terminating_signal()` when
-- `signaled()`.
abbrev pub StatusIsExact : Os → Type 0
StatusIsExact os =
    (h : History) (p : ℕ) (status : WaitStatus)
    → os.wait h ≡ reaped p status
    → (has status.exit_status ≡ status.exited) × (has status.terminating_signal ≡ status.signaled)

module _ (os : Os) (next : ℕ) (p : ℕ) (h h' : History)
    (kept : (q : ℕ) → q ≢ p → is_child q h ≡ true → is_child q h' ≡ true) where
  take-unknown :
      (exit_reason : ExitReason) (registry : ServiceRegistry)
      → IsConsistent registry next h
      → get p registry.pids_map ≡ none
      → let out = stop_reaped os p exit_reason (take_by_pid p registry) h' in
        IsConsistent out.0 next out.1
  unfolding stop_reaped take_by_pid
  take-unknown er registry c e =
      rw e (record { distinct = c.distinct; inv = forget-Inv p h' c.inv e kept })

  take-known :
      (exit_reason : ExitReason) (registry : ServiceRegistry) (k : ℕ) (s : Service)
      → IsConsistent registry next h
      → get p registry.pids_map ≡ some k
      → get k registry.services_map ≡ some s
      → pid s ≡ some p
      → let out = stop_reaped os p exit_reason (take_by_pid p registry) h' in
        IsConsistent out.0 next out.1
  unfolding stop_reaped take_by_pid
  take-known er registry k s c e f g =
      rw (e, f)
        (record {
          distinct = insert-Distinct k _ registry.services_map c.distinct;
          inv =
              reap-Inv k s _ _ c.inv f refl refl (λ j. get-insert j k _ registry.services_map) _ p g
                refl kept;
        })

-- A status either ends the process, with a reason, or does not.
pub from_wait_status-cases :
    (status : WaitStatus)
    → has status.exit_status ≡ status.exited
    → has status.terminating_signal ≡ status.signaled
    → ((er : ExitReason) × (from_wait_status status ≡ ok (some er)) × (ended status ≡ true))
      ⊎ ((from_wait_status status ≡ ok none) × (ended status ≡ false))
unfolding from_wait_status
from_wait_status-cases status e f = elim (Option-cases status.exit_status) [
  | inr (x, a) ↦ inl (exited x, ground arith, ground arith)
  | inl a ↦ elim (Option-cases status.terminating_signal) [
    | inr (y, b) ↦ inl (signaled y, ground arith, ground arith)
    | inl b ↦ inr (ground arith, ground arith)
  ]
]

-- What every result of the handler satisfies.
abbrev Good : ℕ → Handled → Type 0
Good next out = IsConsistent out.1 next out.2 × (out.0 ≢ err panic)

module _ (os : Os) (exact : StatusIsExact os) (next : ℕ) where
  pub stop_reaped-IsConsistent :
      (p : ℕ) (exit_reason : ExitReason) (registry : ServiceRegistry) (h h' : History)
      → ((q : ℕ) → q ≢ p → is_child q h ≡ true → is_child q h' ≡ true)
      → IsConsistent registry next h
      → let out = stop_reaped os p exit_reason (take_by_pid p registry) h' in
        IsConsistent out.0 next out.1
  stop_reaped-IsConsistent p er registry h h' kept c =
      elim (Option-cases (get p registry.pids_map)) [
        | inl e ↦ take-unknown os next p h h' kept er registry c e
        | inr (k, e) ↦ elim (Option-cases (get k registry.services_map)) [
          | inl f ↦ ground (arith, f, c.inv.owned k p e)
          | inr (s, f) ↦
              take-known os next p h h' kept er registry k s c e f (rw f at (c.inv.owned k p e))
        ]
      ]

  module _ (loop : ServiceRegistry → History → Option Handled)
      (ih : (registry : ServiceRegistry) (h : History) (out : Handled)
        → IsConsistent registry next h
        → loop registry h ≡ some out
        → Good next out) where
    reaped-Good :
        (p : ℕ) (status : WaitStatus) (registry : ServiceRegistry) (h : History) (out : Handled)
        → os.wait h ≡ reaped p status
        → IsConsistent registry next h
        → reap_reply os loop (reaped p status) registry (waited (reaped p status) ∷ h) ≡ some out
        → Good next out
    unfolding reap_reply
    reaped-Good p status registry h out w c e =
        elim (from_wait_status-cases status (exact h p status w).0 (exact h p status w).1) [
          | inl (er, f, g) ↦
              ih _ _ out
                (stop_reaped-IsConsistent p er registry h _
                  (λ q n a. ground (arith, nat_beq_iff p q)) c)
                (rw f at e)
          | inr (f, g) ↦
              ih _ _ out
                (record { distinct = c.distinct; inv = history-Inv c.inv _ (λ q a. ground arith) })
                (rw f at e)
        ]

    reap_reply-Good :
        (r : WaitReply) (registry : ServiceRegistry) (h : History) (out : Handled)
        → os.wait h ≡ r
        → IsConsistent registry next h
        → reap_reply os loop r registry (waited r ∷ h) ≡ some out
        → Good next out
    unfolding reap_reply
    reap_reply-Good (reaped p status) registry h out w c e =
        reaped-Good p status registry h out w c e
    reap_reply-Good none_ready registry h out w c e =
        ground (arith, c.distinct, history-Inv c.inv (waited none_ready ∷ h) (λ q a. a))
    reap_reply-Good (wait_failed x) registry h out w c e =
        ground (arith, c.distinct, history-Inv c.inv (waited (wait_failed x) ∷ h) (λ q a. a))

  -- Where wait statuses are exact, from a consistent registry, handle_sigchld leaves a consistent
  -- registry where it ends, and it does not panic.
  pub handle_sigchld-IsConsistent :
      (fuel : ℕ) (registry : ServiceRegistry) (h : History) (out : Handled)
      → IsConsistent registry next h
      → handle_sigchld os fuel registry h ≡ some out
      → IsConsistent out.1 next out.2 × (out.0 ≢ err panic)
  unfolding handle_sigchld
  handle_sigchld-IsConsistent zero registry h out c e = cc
  handle_sigchld-IsConsistent (suc fuel) registry h out c e =
      reap_reply-Good (handle_sigchld os fuel) (handle_sigchld-IsConsistent fuel) (os.wait h)
        registry h out refl c e

-- The kernel has finitely many children to report: each report of an ended one uses it up, and a
-- signal to a process group makes none.
pub record IsFinite (os : Os) (processes : History → ℕ) : Type 0 where
  pub uses_up :
      (h : History) (p : ℕ) (status : WaitStatus)
      → os.wait h ≡ reaped p status
      → processes (waited (reaped p status) ∷ h) < processes h
  pub makes_none :
      (h : History) (p sig : ℕ) (answer : Option ℕ)
      → processes (group_killed p sig answer ∷ h) ≤ processes h

module _ (os : Os) (exact : StatusIsExact os) (processes : History → ℕ)
    (finite : IsFinite os processes) where
  stop_reaped-processes :
      (p : ℕ) (er : ExitReason) (registry : ServiceRegistry) (h : History)
      → processes (stop_reaped os p er (take_by_pid p registry) h).1 ≤ processes h
  unfolding stop_reaped take_by_pid
  stop_reaped-processes p er registry h =
      ground (arith, finite.makes_none h p sigkill (os.kill_group h p sigkill))

  reap_reply-total :
      (loop : ServiceRegistry → History → Option Handled) (r : WaitReply)
      (registry : ServiceRegistry) (h : History)
      → ((registry : ServiceRegistry) (h' : History)
          → processes h' < processes h
          → (out : Handled) × (loop registry h' ≡ some out))
      → os.wait h ≡ r
      → (out : Handled) × (reap_reply os loop r registry (waited r ∷ h) ≡ some out)
  unfolding reap_reply
  reap_reply-total loop (reaped p status) registry h ih w =
      elim (from_wait_status-cases status (exact h p status w).0 (exact h p status w).1) [
        | inl (er, f, g) ↦ rw f (
            ih _ _ (
              omega (
                arith,
                stop_reaped-processes p er registry (waited (reaped p status) ∷ h),
                finite.uses_up h p status w,
              )))
        | inr (f, g) ↦ rw f (ih registry _ (finite.uses_up h p status w))
      ]
  reap_reply-total loop none_ready registry h ih w = (_, refl)
  reap_reply-total loop (wait_failed e) registry h ih w = (_, refl)

  -- Where wait statuses are exact and the kernel has finitely many children to report,
  -- handle_sigchld ends with more fuel than there are processes to report.
  pub handle_sigchld_total :
      (fuel : ℕ) (registry : ServiceRegistry) (h : History)
      → processes h < fuel
      → (out : Handled) × (handle_sigchld os fuel registry h ≡ some out)
  unfolding handle_sigchld
  handle_sigchld_total zero registry h lt = absurd (omega arith)
  handle_sigchld_total (suc fuel) registry h lt =
      reap_reply-total (handle_sigchld os fuel) (os.wait h) registry h
        (λ r h' l. handle_sigchld_total fuel r h' (omega arith)) refl
