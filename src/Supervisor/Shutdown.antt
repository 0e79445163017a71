-- ===== src/Supervisor/Shutdown.antt =====
-- What the first request to shut down does to the services: `on_shutdown` while the state is Running.
use svlopp.Prelude.{
  ℕ, suc, ◌+◌, ◌≡◌, ◌≤◌, ◌<◌, ◌&&◌, ◌⊎◌, Bool, true, false, Option, none, some, [], ◌∷◌, nat_eq,
  ◌==◌, if◌then◌else◌,
}
use svlopp.Prelude.Maps.{Map, get}
use svlopp.Prelude.Maps.Loop.{retain_with}
use svlopp.Os.{Os, History, killed}
use svlopp.Service.Types.{running, stopping, ServiceState}
use svlopp.Service.Methods.{Service, stop_signal, stop_timeout}
use svlopp.Registry.Defs.{service}
use svlopp.Supervisor.State.{Supervisor, shutdown_requested, stop_each}

abbrev pub accepted : Option ℕ → Bool
accepted none = true
accepted (some _) = false

abbrev pub refused : Option ℕ → Bool
refused none = false
refused (some _) = true

-- How many times a signal was sent to a process with such an answer of the kernel.
abbrev pub signals : (Option ℕ → Bool) → ℕ → ℕ → History → ℕ
signals such p sig [] = 0
signals such p sig (killed q n answer ∷ h) =
    let before = signals such p sig h in
    if q == p && n == sig && such answer then suc before else before
signals such p sig (_ ∷ h) = signals such p sig h

-- The stop signal of a running service was sent to its process since then: it was accepted and the
-- service is stopping, with its timeout counted from some reading of the clock; or it was refused
-- and the service is as it was. A service that does not run is as it was.
abbrev pub AskedIn : ServiceState → History → History → Service → Service → Type 0
AskedIn (running p) before h s s' =
    ((now : ℕ) × (s' ≡ record s { state = stopping p (now + stop_timeout s) })
      × (signals accepted p (stop_signal s) before < signals accepted p (stop_signal s) h))
    ⊎ ((s' ≡ s) × (signals refused p (stop_signal s) before < signals refused p (stop_signal s) h))
AskedIn _ before h s s' = s' ≡ s

abbrev Grows : History → History → Type 0
Grows h h' = (such : Option ℕ → Bool) (p sig : ℕ) → signals such p sig h ≤ signals such p sig h'

module _ (os : Os) where
  -- The entry of an id after the loop.
  abbrev IsAskedAt : Map ℕ Service → History → ℕ → Service → Type 0
  IsAskedAt m h k s =
      let out = retain_with (stop_each os) m h in
      (s' : Service) × (get k out.0 ≡ some s') × AskedIn s.state h out.1 s s'

-- What the request leaves: it is noted, and each service was asked.
abbrev pub AreAsked : Supervisor → Supervisor → Type 0
AreAsked sv end =
    (end.sv_state ≡ shutdown_requested)
    × ((k : ℕ) (s : Service)
        → service k sv.registry ≡ some s
        → (s' : Service) × (service k end.registry ≡ some s')
          × AskedIn s.state sv.history end.history s s')
