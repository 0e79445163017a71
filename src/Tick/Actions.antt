-- ===== src/Tick/Actions.antt =====
-- What a turn of the timer does to a stopped service, and to one that was asked to stop.
use svlopp.Prelude.{
  ℕ, suc, ◌+◌, ◌≡◌, ◌≢◌, ◌↔◌, ◌⊎◌, Bool, true, false, none, ◌∷◌, arith, nat_eq, if◌then◌else◌, leb,
}
use svlopp.Prelude.Maps.{Map}
use svlopp.Os.{Os, SigSet, History, killed}
use svlopp.Service.Types.{
  running, ServiceStopReason, never_started, supervisor_terminated, ServicePendingAction, nothing,
}
use svlopp.Service.Methods.{Service, fallback_pending_action, stop_timeout, stop_signal}
use svlopp.Service.Process.{stop_service, force_kill_service_process}
use svlopp.Tick.{pending_or_fallback, turn}
use svlopp.Tick.Deadlines.{kills}

-- The stops after which the configured action is taken: all but those that the supervisor made.
abbrev pub falls_back : ServiceStopReason → Bool
falls_back never_started = false
falls_back (supervisor_terminated _) = false
falls_back _ = true

-- The action is due: it is pending, or configured for the stop where none is pending.
abbrev pub IsDue : ServicePendingAction → Service → ServiceStopReason → Type 0
IsDue action s reason =
    (s.pending_action ≡ action)
    ⊎ ((s.pending_action ≡ nothing)
        × (falls_back reason ≡ true)
        × (fallback_pending_action s ≡ action))

-- The service as `take_pending_action` leaves it.
abbrev pub taken : Service → Service
taken s = record s { pending_action = nothing }

pub pending_or_fallback-IsDue :
    (s : Service) (reason : ServiceStopReason) (action : ServicePendingAction)
    → action ≢ nothing
    → (pending_or_fallback (taken s) s.pending_action reason ≡ action) ↔ IsDue action s reason
unfolding pending_or_fallback
pending_or_fallback-IsDue s reason action n = (λ e. ground arith, λ e. ground arith)

module _ (os : Os) (original_sigset : SigSet) where
  -- A running service whose stop signal was sent is sent SIGKILL by a later turn of the timer
  -- exactly if its timeout has passed since the request.
  pub stop_service-turn :
      (s : Service) (p : ℕ) (h h' : History) (pids : Map ℕ ℕ) (now k : ℕ)
      → s.state ≡ running p
      → os.kill h p (stop_signal s) ≡ none
      → let asked = stop_service os s h in
        let asked_at = os.now (killed p (stop_signal s) none ∷ h) in
        kills p (turn os original_sigset now k asked.1 (pids, h')).1.1
        ≡ (if leb (asked_at + stop_timeout s) now then suc (kills p h') else kills p h')
  unfolding stop_service turn force_kill_service_process
  stop_service-turn s p h h' pids now k run sent = ground (arith, run, sent)
