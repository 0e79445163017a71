-- ===== src/Tick/Outcomes.antt =====
-- What a turn of the timer leaves of each service.
use svlopp.Prelude.{
  ℕ, ◌≡◌, ◌⊎◌, inl, inr, refl, ap, sym, subst, false, Option, none, some, arith, nat_eq, ◌∷◌, Error,
  err,
}
use svlopp.Prelude.Maps.{Distinct}
use svlopp.Prelude.Maps.Visited.{retain_with-get, retain_with-absent}
use svlopp.Os.{Os, SigSet, History, ForkIsFresh, is_child, Keeps, clock_read}
use svlopp.Service.Types.{
  never_started, supervisor_terminated, ServiceState, stopped, running, stopping, ServiceStopReason,
  ServicePendingAction, nothing, restart, remove,
}
use svlopp.Service.Methods.{Service, fallback_pending_action}
use svlopp.Service.Process.{start_service, force_kill_service_process}
use svlopp.Service.Process.Outcomes.{start_service-Started, start_service-Keeps}
use svlopp.Registry.Defs.{ServiceRegistry, service}
use svlopp.Tick.{Turn, pending_or_fallback, apply_pending, turn_in, turn, tick}
use svlopp.Tick.Actions.{falls_back, IsDue, taken, pending_or_fallback-IsDue}

-- No action is pending, and none is configured for the stop.
abbrev pub IsIdle : Service → ServiceStopReason → Type 0
IsIdle s reason =
    (s.pending_action ≡ nothing)
    × ((falls_back reason ≡ false) ⊎ (fallback_pending_action s ≡ nothing))

abbrev IsChosen : ServicePendingAction → Service → ServiceStopReason → Type 0
IsChosen nothing s reason = IsIdle s reason
IsChosen action s reason = IsDue action s reason

idle :
    (s : Service) (pending : ServicePendingAction) (reason : ServiceStopReason)
    → pending_or_fallback (taken s) pending reason ≡ nothing
    → (pending ≡ nothing) × ((falls_back reason ≡ false) ⊎ (fallback_pending_action s ≡ nothing))
unfolding pending_or_fallback
idle s nothing never_started e = (refl, inl refl)
idle s nothing (supervisor_terminated er) e = (refl, inl refl)
idle s nothing reason e = (refl, inr e)
idle s pending reason e = absurd (ground arith)

pending_or_fallback-IsChosen :
    (s : Service) (reason : ServiceStopReason) (action : ServicePendingAction)
    → pending_or_fallback (taken s) s.pending_action reason ≡ action
    → IsChosen action s reason
pending_or_fallback-IsChosen s reason nothing e = idle s s.pending_action reason e
pending_or_fallback-IsChosen s reason restart e =
    (pending_or_fallback-IsDue s reason restart (ground arith)).0 e
pending_or_fallback-IsChosen s reason remove e =
    (pending_or_fallback-IsDue s reason remove (ground arith)).0 e

module _ (os : Os) (original_sigset : SigSet) (h : History) where
  -- The service runs as a process that was no child before, or its start failed.
  abbrev pub IsRestarted : Service → Option Service → Type 0
  IsRestarted s o =
      ((p : ℕ) × (is_child p h ≡ false) × (o ≡ some (record (taken s) { state = running p })))
      ⊎ ((h' : History) × (e : Error) × ((start_service os (taken s) original_sigset h').0 ≡ err e)
          × (o ≡ some (taken s)))

  -- What becomes of a service in each state.
  abbrev pub AfterIn : ServiceState → Service → Option Service → Type 0
  AfterIn (stopped reason) s o =
      (IsDue remove s reason × (o ≡ none))
      ⊎ ((IsDue restart s reason × IsRestarted s o) ⊎ (IsIdle s reason × (o ≡ some s)))
  AfterIn _ s o = o ≡ some s

  not_before : (p : ℕ) (h' : History) → Keeps h h' → is_child p h' ≡ false → is_child p h ≡ false
  not_before p h' kept new = ground (arith, kept p)

  apply_pending-AfterIn :
      (reason : ServiceStopReason) (action : ServicePendingAction) (k : ℕ) (s : Service) (t : Turn)
      → ForkIsFresh os
      → Keeps h t.1
      → IsChosen action s reason
      → AfterIn (stopped reason) s (apply_pending os original_sigset action k (taken s) t).0
  unfolding apply_pending
  apply_pending-AfterIn reason remove k s t fresh kept due = inl (due, refl)
  apply_pending-AfterIn reason nothing k s t fresh kept due = inr (inr (due, ground arith))
  apply_pending-AfterIn reason restart k s t fresh kept due = inr (
      inl (
        due,
        elim (start_service-Started os fresh (taken s) original_sigset t.1) [
          | inl (p, done, runs, new, made, more) ↦ inl (p, not_before p t.1 kept new, ap some runs)
          | inr (e, failed, same, more) ↦ inr (t.1, e, failed, ap some same)
        ],
      ))

  turn_in-AfterIn :
      (now : ℕ) (state : ServiceState) (k : ℕ) (s : Service) (t : Turn)
      → ForkIsFresh os
      → Keeps h t.1
      → AfterIn state s (turn_in os original_sigset now state k s t).0
  unfolding turn_in
  turn_in-AfterIn now (running p) k s t fresh kept = refl
  turn_in-AfterIn now (stopping p d) k s t fresh kept = ground arith
  turn_in-AfterIn now (stopped reason) k s t fresh kept =
      apply_pending-AfterIn reason _ k s t fresh kept (pending_or_fallback-IsChosen s reason _ refl)

  apply_pending-Keeps :
      (action : ServicePendingAction) (k : ℕ) (s : Service) (t : Turn)
      → ForkIsFresh os
      → Keeps h t.1
      → Keeps h (apply_pending os original_sigset action k s t).1.1
  unfolding apply_pending
  apply_pending-Keeps nothing k s t fresh kept = kept
  apply_pending-Keeps remove k s t fresh kept = kept
  apply_pending-Keeps restart k s t fresh kept =
      λ p c. start_service-Keeps os fresh s original_sigset t.1 p (kept p c)

  turn_in-Keeps :
      (now : ℕ) (state : ServiceState) (k : ℕ) (s : Service) (t : Turn)
      → ForkIsFresh os
      → Keeps h t.1
      → Keeps h (turn_in os original_sigset now state k s t).1.1
  unfolding turn_in force_kill_service_process
  turn_in-Keeps now (running p) k s t fresh kept = kept
  turn_in-Keeps now (stopping p d) k s t fresh kept = λ q c. ground (arith, kept q)
  turn_in-Keeps now (stopped reason) k s t fresh kept =
      apply_pending-Keeps _ k (taken s) t fresh kept

  turn-Keeps :
      (now k : ℕ) (s : Service) (t : Turn)
      → ForkIsFresh os
      → Keeps h t.1
      → Keeps h (turn os original_sigset now k s t).1.1
  unfolding turn
  turn-Keeps now k s t fresh kept = turn_in-Keeps now s.state k s t fresh kept

  -- What becomes of the entry of an id; none is made.
  abbrev pub AfterTurn : Option Service → Option Service → Type 0
  AfterTurn none o = o ≡ none
  AfterTurn (some s) o = AfterIn s.state s o

  tick-entry :
      (registry : ServiceRegistry) (k : ℕ) (before : Option Service)
      → ForkIsFresh os
      → Distinct registry.services_map
      → service k registry ≡ before
      → AfterTurn before (service k (tick os original_sigset registry h).0)
  unfolding tick turn
  tick-entry registry k none fresh d absent =
      retain_with-absent (turn os original_sigset (os.now h)) registry.services_map _ k absent
  tick-entry registry k (some s) fresh d here =
      let (t, kept, e) =
        retain_with-get (turn os original_sigset (os.now h)) (λ t. Keeps h t.1)
          (λ j v t kept. turn-Keeps (os.now h) j v t fresh kept) registry.services_map
          (registry.pids_map, clock_read (os.now h) ∷ h) k s d here (λ q x. x) in
      subst (AfterIn s.state s) (sym e) (turn_in-AfterIn (os.now h) s.state k s t fresh kept)

  -- Where forked pids are fresh and no id stands twice, a turn of the timer leaves an id without a
  -- service as it is, and a service that is running or stopping as it is; a stopped service it
  -- drops if Remove is due, and if Restart is due gives it a process that was no child before, or
  -- leaves it stopped where its start fails, with nothing pending; otherwise nothing is pending,
  -- nothing is configured for the stop, and it stays as it is.
  pub tick-AfterTurn :
      (registry : ServiceRegistry) (k : ℕ)
      → ForkIsFresh os
      → Distinct registry.services_map
      → AfterTurn (service k registry) (service k (tick os original_sigset registry h).0)
  tick-AfterTurn registry k fresh d = tick-entry registry k (service k registry) fresh d refl
