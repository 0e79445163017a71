-- ===== src/Reap/Stages.antt =====
-- `handle_sigchld` lets each service follow its life, at the reports of `waitpid`.
use svlopp.Prelude.{
  ℕ, zero, suc, ◌≡◌, refl, sym, subst, inl, inr, Option, none, some, ◌∷◌, nat_eq, nat_beq_iff,
  Option-cases, ltb, ok, arith,
}
use mathlib.Core.Path.{subst₂}
use svlopp.Prelude.Maps.{get}
use svlopp.Os.{Os, History, WaitReply, reaped, none_ready, wait_failed, waited}
use svlopp.Service.Types.{WaitStatus, ExitReason, from_wait_status}
use svlopp.Registry.Defs.{ServiceRegistry, Handled, service, take_by_pid}
use svlopp.Registry.Invariant.{IsConsistent, history-Inv}
use svlopp.Lifecycle.{Stage, Steps, Steps-trans, Passes, here, next, call, exit, stage_of, Follows}
use svlopp.Lifecycle.Changes.{Follows-trans, Passes-Follows}
use svlopp.Reap.{stop_reaped, reap_reply, handle_sigchld}
use svlopp.Reap.Invariant.{StatusIsExact, from_wait_status-cases, stop_reaped-IsConsistent}
use svlopp.Reap.Reported.{result_of, stop_reaped-absent, stop_reaped-service}

-- Each service is where its life leads it.
abbrev FollowsTo : ℕ → ServiceRegistry → History → Handled → Type 0
FollowsTo n registry h out = Follows n registry.services_map h n out.1.services_map out.2

module _ (os : Os) (p : ℕ) (er : ExitReason) (registry : ServiceRegistry) where
  -- At most the group of the process is killed.
  stop_reaped-Passes : (h : History) → Passes h (stop_reaped os p er (take_by_pid p registry) h).1
  unfolding stop_reaped take_by_pid
  stop_reaped-Passes h a = elim (Option-cases (get p registry.pids_map)) [
    | inl e ↦ rw e here
    | inr (j, e) ↦ elim (Option-cases (get j registry.services_map)) [
      | inl f ↦ rw (e, f) here
      | inr (t, f) ↦ rw (e, f) (next here (call _))
    ]
  ]

  stop_reaped-Follows :
      (n : ℕ) (status : WaitStatus) (h : History)
      → IsConsistent registry n h
      → from_wait_status status ≡ ok (some er)
      → let h' = waited (reaped p status) ∷ h in
        let out = stop_reaped os p er (take_by_pid p registry) h' in
        Follows n registry.services_map h n out.0.services_map out.1
  stop_reaped-Follows n status h c ended k =
      let h' = waited (reaped p status) ∷ h in
      let out = stop_reaped os p er (take_by_pid p registry) h' in
      let between : (a : Stage) → Steps a h a out.1 =
        λ a. Steps-trans (next here (call (waited (reaped p status)))) (stop_reaped-Passes h' a) in
      elim (Option-cases (service k registry)) [
        | inl absent ↦
            subst₂ (λ a b. Steps (stage_of a (ltb k n)) h (stage_of b (ltb k n)) out.1) (sym absent)
              (sym (stop_reaped-absent os p er registry k h' absent))
              (between (stage_of none (ltb k n)))
        | inr (s, entry) ↦ elim (stop_reaped-service os p er registry n h h' k s c entry) [
          | inl stays ↦
              subst₂ (λ a b. Steps (stage_of a (ltb k n)) h (stage_of b (ltb k n)) out.1)
                (sym entry) (sym stays) (between (stage_of (some s) (ltb k n)))
          | inr (had, ends) ↦
              subst₂ (λ a b. Steps (stage_of a (ltb k n)) h (stage_of b (ltb k n)) out.1)
                (sym entry) (sym ends)
                (Steps-trans (next here (exit s.state p status er had ended))
                  (stop_reaped-Passes h' _))
        ]
      ]

module _ (os : Os) (exact : StatusIsExact os) (n : ℕ) where
  module _ (loop : ServiceRegistry → History → Option Handled)
      (ih : (registry : ServiceRegistry) (h : History) (out : Handled)
        → IsConsistent registry n h
        → loop registry h ≡ some out
        → FollowsTo n registry h out) where
    reaped-Follows :
        (p : ℕ) (status : WaitStatus) (registry : ServiceRegistry) (h : History) (out : Handled)
        → os.wait h ≡ reaped p status
        → IsConsistent registry n h
        → reap_reply os loop (reaped p status) registry (waited (reaped p status) ∷ h) ≡ some out
        → FollowsTo n registry h out
    unfolding reap_reply
    reaped-Follows p status registry h out w c e =
        let h' = waited (reaped p status) ∷ h in
        elim (from_wait_status-cases status (exact h p status w).0 (exact h p status w).1) [
          | inl (er, f, g) ↦
              let step = stop_reaped os p er (take_by_pid p registry) h' in
              Follows-trans n n n registry.services_map step.0.services_map out.1.services_map
                (stop_reaped-Follows os p er registry n status h c f)
                (ih step.0 step.1 out
                  (stop_reaped-IsConsistent os exact n p er registry h h'
                    (λ q d a. ground (arith, nat_beq_iff p q)) c)
                  (rw f at e))
          | inr (f, g) ↦
              Follows-trans n n n registry.services_map registry.services_map out.1.services_map
                (Passes-Follows n registry.services_map (λ a. next here (call _)))
                (ih registry h' out
                  (record {
                    distinct = c.distinct;
                    inv = history-Inv c.inv h' (λ q a. ground arith);
                  })
                  (rw f at e))
        ]

    reap_reply-Follows :
        (r : WaitReply) (registry : ServiceRegistry) (h : History) (out : Handled)
        → os.wait h ≡ r
        → IsConsistent registry n h
        → reap_reply os loop r registry (waited r ∷ h) ≡ some out
        → FollowsTo n registry h out
    unfolding reap_reply
    reap_reply-Follows (reaped p status) registry h out w c e =
        reaped-Follows p status registry h out w c e
    reap_reply-Follows none_ready registry h out w c e =
        subst (FollowsTo n registry h) (result_of _ out e) (λ k. next here (call _))
    reap_reply-Follows (wait_failed x) registry h out w c e =
        subst (FollowsTo n registry h) (result_of _ out e) (λ k. next here (call _))

  pub handle_sigchld-Follows :
      (fuel : ℕ) (registry : ServiceRegistry) (h : History) (out : Handled)
      → IsConsistent registry n h
      → handle_sigchld os fuel registry h ≡ some out
      → FollowsTo n registry h out
  unfolding handle_sigchld
  handle_sigchld-Follows zero registry h out c e = cc
  handle_sigchld-Follows (suc fuel) registry h out c e =
      reap_reply-Follows (handle_sigchld os fuel) (handle_sigchld-Follows fuel) (os.wait h) registry
        h out refl c e
