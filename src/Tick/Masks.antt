-- ===== src/Tick/Masks.antt =====
-- The children that a turn of the timer forks.
use svlopp.Prelude.{ℕ, ◌∷◌, arith, nat_eq}
use svlopp.Prelude.Maps.Loop.{retain_with_state}
use svlopp.Os.{Os, SigSet, History, clock_read}
use svlopp.Service.Types.{ServiceState}
use svlopp.Service.Methods.{Service, take_pending_action}
use svlopp.Service.Process.{force_kill_service_process}
use svlopp.Service.Process.Masks.{AllMasked, start_service-AllMasked}
use svlopp.Registry.Defs.{ServiceRegistry}
use svlopp.Tick.{Turn, apply_pending, turn_in, turn, tick}

module _ (os : Os) (sigset : SigSet) where
  turn_in-AllMasked :
      (now : ℕ) (state : ServiceState) (k : ℕ) (s : Service) (t : Turn)
      → AllMasked sigset t.1
      → AllMasked sigset (turn_in os sigset now state k s t).1.1
  unfolding turn_in apply_pending take_pending_action force_kill_service_process
  turn_in-AllMasked now state k s t a =
      ground (arith, start_service-AllMasked os sigset (take_pending_action s).1 t.1 a)

  pub tick-AllMasked :
      (registry : ServiceRegistry) (h : History)
      → AllMasked sigset h
      → AllMasked sigset (tick os sigset registry h).1
  unfolding tick turn
  tick-AllMasked registry h a =
      retain_with_state (λ (t : Turn). AllMasked sigset t.1) (turn os sigset (os.now h))
        (λ k s t b. turn_in-AllMasked (os.now h) s.state k s t b) registry.services_map
        (registry.pids_map, clock_read (os.now h) ∷ h) a
