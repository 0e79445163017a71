-- ===== src/Reap/Services.antt =====
-- What `handle_sigchld` does to each service.
use svlopp.Prelude.{
  ℕ, zero, suc, ◌≡◌, refl, false, inl, inr, Option, none, some, ◌∷◌, arith, nat_eq, nat_beq_iff,
  subst, ◌∙◌,
}
use svlopp.Os.{Os, History, WaitReply, reaped, none_ready, wait_failed, waited, is_child}
use svlopp.Service.Types.{WaitStatus, ExitReason}
use svlopp.Service.Methods.{Service}
use svlopp.Registry.Defs.{ServiceRegistry, Handled, service, take_by_pid}
use svlopp.Registry.Invariant.{IsConsistent, history-Inv}
use svlopp.Reap.{stop_reaped, reap_reply, handle_sigchld}
use svlopp.Reap.Invariant.{StatusIsExact, from_wait_status-cases, stop_reaped-IsConsistent}
use svlopp.Reap.Reported.{
  after_exit, result_of, IsReported, IsReaped, Post, stop_reaped-is_child, stop_reaped-IsReported,
  stop_reaped-absent, stop_reaped-service,
}

-- One more child is reaped before the rest.
Post-reaped :
    (os : Os) (next p : ℕ) (er : ExitReason) (registry : ServiceRegistry) (h h' : History)
    (out : Handled)
    → IsConsistent registry next h
    → ((q : ℕ) → is_child q h ≡ false → is_child q h' ≡ false)
    → is_child p h' ≡ false
    → ((q : ℕ) (er' : ExitReason) → IsReported q er' h → IsReported q er' h')
    → IsReported p er h'
    → (let step = stop_reaped os p er (take_by_pid p registry) h' in Post step.0 step.1 out)
    → Post registry h out
Post-reaped os next p er registry h h' out c gone gone_p kept known
      (made_none, keeps, absent, rest) =
    let same = stop_reaped-is_child os p er registry in
    let said = stop_reaped-IsReported os p er registry in
    (
      λ q e. made_none q (same q h' ∙ gone q e),
      λ q er' r. keeps q er' (said q er' h' (kept q er' r)),
      λ k e. absent k (stop_reaped-absent os p er registry k h' e),
      λ k s here. elim (stop_reaped-service os p er registry next h h' k s c here) [
        | inl stays ↦ rest k s stays
        | inr (had, ends) ↦ elim (rest k (after_exit er s) ends) [
          | inl final ↦
              inr (
                p,
                er,
                had,
                made_none p (same p h' ∙ gone_p),
                keeps p er (said p er h' known),
                final,
              )
          | inr (q, er', has_pid, x, y, z) ↦ ground arith
        ]
      ],
    )

module _ (os : Os) (exact : StatusIsExact os) (next : ℕ) where
  module _ (loop : ServiceRegistry → History → Option Handled)
      (ih : (registry : ServiceRegistry) (h : History) (out : Handled)
        → IsConsistent registry next h
        → loop registry h ≡ some out
        → Post registry h out) where
    reaped-Post :
        (p : ℕ) (status : WaitStatus) (registry : ServiceRegistry) (h : History) (out : Handled)
        → os.wait h ≡ reaped p status
        → IsConsistent registry next h
        → reap_reply os loop (reaped p status) registry (waited (reaped p status) ∷ h) ≡ some out
        → Post registry h out
    unfolding reap_reply
    reaped-Post p status registry h out w c e =
        let h' = waited (reaped p status) ∷ h in
        elim (from_wait_status-cases status (exact h p status w).0 (exact h p status w).1) [
          | inl (er, f, g) ↦
              Post-reaped os next p er registry h h' out c (λ q a. ground arith)
                (ground (arith, nat_beq_iff p p)) (λ q er' r. inr r) (inl (refl, f))
                (ih _ _ out
                  (stop_reaped-IsConsistent os exact next p er registry h h'
                    (λ q n a. ground (arith, nat_beq_iff p q)) c)
                  (rw f at e))
          | inr (f, g) ↦
              let (made_none, keeps, absent, rest) =
                ih registry h' out
                  (record {
                    distinct = c.distinct;
                    inv = history-Inv c.inv h' (λ q a. ground arith);
                  })
                  (rw f at e) in
              (λ q a. made_none q (ground arith), λ q er' r. keeps q er' (inr r), absent, rest)
        ]

    reap_reply-Post :
        (r : WaitReply) (registry : ServiceRegistry) (h : History) (out : Handled)
        → os.wait h ≡ r
        → IsConsistent registry next h
        → reap_reply os loop r registry (waited r ∷ h) ≡ some out
        → Post registry h out
    unfolding reap_reply
    reap_reply-Post (reaped p status) registry h out w c e =
        reaped-Post p status registry h out w c e
    reap_reply-Post none_ready registry h out w c e =
        subst (Post registry h) (result_of _ out e)
          (λ q a. a, λ q er' r. r, λ k a. a, λ k s here. inl here)
    reap_reply-Post (wait_failed x) registry h out w c e =
        subst (Post registry h) (result_of _ out e)
          (λ q a. a, λ q er' r. r, λ k a. a, λ k s here. inl here)

  handle_sigchld-Post :
      (fuel : ℕ) (registry : ServiceRegistry) (h : History) (out : Handled)
      → IsConsistent registry next h
      → handle_sigchld os fuel registry h ≡ some out
      → Post registry h out
  unfolding handle_sigchld
  handle_sigchld-Post zero registry h out c e = cc
  handle_sigchld-Post (suc fuel) registry h out c e =
      reap_reply-Post (handle_sigchld os fuel) (handle_sigchld-Post fuel) (os.wait h) registry h out
        refl c e

  -- Where wait statuses are exact, from a consistent registry, handle_sigchld leaves each service
  -- as it was, or the service had a process that is now reaped and is stopped for the reason that
  -- its reported end and its own state give, with nothing else of it changed.
  pub handle_sigchld-IsReaped :
      (fuel : ℕ) (registry : ServiceRegistry) (h : History) (out : Handled) (k : ℕ) (s : Service)
      → IsConsistent registry next h
      → handle_sigchld os fuel registry h ≡ some out
      → service k registry ≡ some s
      → IsReaped k s out.1 out.2
  handle_sigchld-IsReaped fuel registry h out k s c e =
      (handle_sigchld-Post fuel registry h out c e).3 k s

  pub handle_sigchld-absent :
      (fuel : ℕ) (registry : ServiceRegistry) (h : History) (out : Handled) (k : ℕ)
      → IsConsistent registry next h
      → handle_sigchld os fuel registry h ≡ some out
      → service k registry ≡ none
      → service k out.1 ≡ none
  handle_sigchld-absent fuel registry h out k c e =
      (handle_sigchld-Post fuel registry h out c e).2 k
