-- ===== src/Tick/Deadlines.antt =====
-- Whom a turn of the timer kills.
use svlopp.Prelude.{
  ℕ, suc, ◌+◌, ◌≡◌, refl, Bool, false, ◌&&◌, [], ◌∷◌, arith, nat_eq, ◌==◌, if◌then◌else◌, leb,
}
use svlopp.Prelude.Maps.{Map}
use svlopp.Prelude.Maps.Loop.{retain_with}
use svlopp.Utils.{sigkill}
use svlopp.Os.{Os, SigSet, History, killed, clock_read}
use svlopp.Service.Types.{
  ServiceState, stopped, running, stopping, ServicePendingAction, nothing, restart, remove,
}
use svlopp.Service.Methods.{Service}
use svlopp.Service.Process.{start_service, force_kill_service_process}
use svlopp.Registry.Defs.{ServiceRegistry}
use svlopp.Tick.{Turn, apply_pending, turn_in, turn, tick}

-- How many times `SIGKILL` was sent to a process.
abbrev pub kills : ℕ → History → ℕ
kills p [] = 0
kills p (killed q sig _ ∷ h) =
    let rest = kills p h in if q == p && sig == sigkill then suc rest else rest
kills p (_ ∷ h) = kills p h

abbrev state_overdue : ℕ → ℕ → ServiceState → Bool
state_overdue now p (stopping q deadline) = q == p && leb deadline now
state_overdue now p _ = false

-- How many services are stopping with this process and have passed their deadline.
abbrev pub overdue : ℕ → ℕ → Map ℕ Service → ℕ
overdue now p [] = 0
overdue now p ((k, s) ∷ m) =
    let rest = overdue now p m in if state_overdue now p s.state then suc rest else rest

module _ (os : Os) (original_sigset : SigSet) where
  start_service-kills :
      (p : ℕ) (s : Service) (h : History)
      → kills p (start_service os s original_sigset h).2 ≡ kills p h
  unfolding start_service
  start_service-kills p s h = ground arith

  apply_pending-kills :
      (p : ℕ) (action : ServicePendingAction) (k : ℕ) (s : Service) (t : Turn)
      → kills p (apply_pending os original_sigset action k s t).1.1 ≡ kills p t.1
  unfolding apply_pending
  apply_pending-kills p nothing k s t = refl
  apply_pending-kills p remove k s t = refl
  apply_pending-kills p restart k s t = start_service-kills p s t.1

  turn_in-kills :
      (now p : ℕ) (state : ServiceState) (k : ℕ) (s : Service) (t : Turn)
      → kills p (turn_in os original_sigset now state k s t).1.1
        ≡ (if state_overdue now p state then suc (kills p t.1) else kills p t.1)
  unfolding turn_in force_kill_service_process
  turn_in-kills now p (stopping q deadline) k s t = ground arith
  turn_in-kills now p (stopped reason) k s t = apply_pending-kills p _ k _ t
  turn_in-kills now p (running q) k s t = refl

  retain-kills :
      (now p : ℕ) (m : Map ℕ Service) (t : Turn)
      → kills p (retain_with (turn os original_sigset now) m t).1.1 ≡ kills p t.1 + overdue now p m
  unfolding retain_with turn
  retain-kills now p [] t = omega arith
  retain-kills now p ((k, s) ∷ m) t =
      let (o, t') = turn os original_sigset now k s t in
      ground (arith, retain-kills now p m t', turn_in-kills now p s.state k s t)

  -- A turn of the timer sends SIGKILL to a process once for each service that is stopping with it
  -- and whose deadline has passed, and to no other process.
  pub tick-kills :
      (p : ℕ) (registry : ServiceRegistry) (h : History)
      → kills p (tick os original_sigset registry h).1
        ≡ kills p h + overdue (os.now h) p registry.services_map
  unfolding tick
  tick-kills p registry h =
      retain-kills (os.now h) p registry.services_map (registry.pids_map, clock_read (os.now h) ∷ h)
