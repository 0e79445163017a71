-- ===== src/Tick/Invariant.antt =====
-- The timer's turn keeps the registry consistent.
use svlopp.Prelude.{ℕ, ◌≡◌, refl, none, some, nat_eq, sym, ap, ◌∙◌, Bool-cases, inl, inr, leb, ◌∷◌}
use svlopp.Prelude.Maps.{Map, get}
use svlopp.Prelude.Maps.Loop.{Changed, retain_with_inv}
use svlopp.Os.{Os, SigSet, History, ForkIsFresh, clock_read}
use svlopp.Service.Types.{
  ServiceState, stopped, running, stopping, ServicePendingAction, nothing, restart, remove,
}
use svlopp.Service.Methods.{Service, pid, state_pid}
use svlopp.Service.Process.{force_kill_service_process}
use svlopp.Registry.Defs.{ServiceRegistry}
use svlopp.Registry.Invariant.{Inv, IsConsistent, keep-Inv, drop-Inv, history-Inv}
use svlopp.Registry.Steps.{start-step}
use svlopp.Tick.{Turn, apply_pending, turn_in, turn, tick}

module _ (os : Os) (fresh : ForkIsFresh os) (original_sigset : SigSet) (next : ℕ) where
  -- The statement that the loop keeps.
  abbrev TurnInv : Map ℕ Service → Turn → Type 0
  TurnInv m t = Inv m next t.0 t.1

  module _ (m m' : Map ℕ Service) (k : ℕ) (s : Service) (t : Turn) (i : TurnInv m t)
      (here : get k m ≡ some s) where
    apply_pending-Inv :
        (action : ServicePendingAction) (s' : Service)
        → s'.id ≡ s.id
        → s'.name ≡ s.name
        → pid s' ≡ none
        → pid s ≡ none
        → let out = apply_pending os original_sigset action k s' t in
          Changed k out.0 m m' → TurnInv m' out.1
    unfolding apply_pending
    apply_pending-Inv nothing s' same_id same_name idle' idle c =
        keep-Inv k s s' m' i here same_id same_name c _ (idle' ∙ sym idle) (λ q x. x)
    apply_pending-Inv remove s' same_id same_name idle' idle c = drop-Inv i k s m' here idle c
    apply_pending-Inv restart s' same_id same_name idle' idle c =
        start-step k s s' m' i here same_id same_name os original_sigset fresh idle idle' c

    turn_in-Inv :
        (now : ℕ) (state : ServiceState)
        → s.state ≡ state
        → let out = turn_in os original_sigset now state k s t in
          Changed k out.0 m m' → TurnInv m' out.1
    unfolding turn_in force_kill_service_process
    turn_in-Inv now (stopping p d) e c = elim (Bool-cases (leb d now)) [
      | inl q ↦ rw q (keep-Inv k s s m' i here refl refl (rw q at c) _ refl (λ _ x. x))
      | inr q ↦ rw q (keep-Inv k s s m' i here refl refl (rw q at c) _ refl (λ _ x. x))
    ]
    turn_in-Inv now (stopped reason) e c =
        apply_pending-Inv _ _ refl refl (ap state_pid e) (ap state_pid e) c
    turn_in-Inv now (running p) e c = keep-Inv k s s m' i here refl refl c _ refl (λ _ x. x)

-- Where forked pids are fresh, from a consistent registry, a turn of the timer leaves a consistent
-- registry, through kills, removals, restarts and failed restarts.
pub tick-IsConsistent :
    (os : Os)
    → ForkIsFresh os
    → (original_sigset : SigSet) (next : ℕ) (registry : ServiceRegistry) (h : History)
    → IsConsistent registry next h
    → let out = tick os original_sigset registry h in IsConsistent out.0 next out.1
unfolding tick turn
tick-IsConsistent os fresh original_sigset next registry h c =
    let (distinct, inv) =
      retain_with_inv (TurnInv os fresh original_sigset next) (turn os original_sigset (os.now h))
        (λ m m' k s t i here ch.
          turn_in-Inv os fresh original_sigset next m m' k s t i here (os.now h) s.state refl ch)
        registry.services_map (registry.pids_map, clock_read (os.now h) ∷ h) c.distinct
        (history-Inv c.inv _ (λ q x. x)) in
    record { distinct = distinct; inv = inv }
