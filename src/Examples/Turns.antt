-- ===== src/Examples/Turns.antt =====
-- Turns of the timer, a reload of the same file, and a shutdown, on concrete services.
use svlopp.Service.ConfigFile.{from_config_file}
use svlopp.Prelude.{
  ℕ, suc, ◌*◌, ◌+◌, ◌%◌, ◌≤◌, ◌<◌, ◌≡◌, ◌≢◌, ◌↔◌, refl, true, none, some, [], ◌∷◌, arith, nat_eq,
  list_eq, list_beq, option_beq, option_eq, ok, err, errno, if◌then◌else◌, leb, Text,
}
use svlopp.Prelude.Maps.{get, contains_key}
use svlopp.Os.{config_read, killed, History}
use svlopp.Service.Config.{ServiceConfig, config_beq}
use svlopp.Service.Methods.{Service, stop_signal, stop_timeout}
use svlopp.Service.Process.{stop_service}
use svlopp.Registry.Defs.{service}
use svlopp.Reload.{reload_services}
use svlopp.Reload.Unchanged.{AllEntries-get, IsConfigured, IsUpToDate, reload_services-same}
use svlopp.Tick.{turn}
use svlopp.Tick.Deadlines.{kills}
use svlopp.Tick.Actions.{stop_service-turn}
use svlopp.Signalfd.{siginfo_size, siginfo_bytes, read_signalfd_batch, eio}
use svlopp.Signalfd.Bounds.{read_signalfd_batch-fits}
use svlopp.Supervisor.Events.{rounds}
use svlopp.Supervisor.Events.Fuel.{IsWhole, rounds-IsWhole}
use svlopp.Examples.Machine.{siginfo, machine-StatusIsExact, machine-IsFinite, reports_left}
use svlopp.Examples.Runs.{
  script, two_services, two_services-Distinct, here, web, db, boot, boot-IsValid,
}

boot-IsConfigured : IsConfigured boot.registry two_services
unfolding boot contains_key list_beq
boot-IsConfigured k s e =
    AllEntries-get (λ (j : ℕ) (t : Service). contains_key t.name two_services ≡ true)
      boot.registry.services_map (refl, (refl, tt)) k s e

boot-IsUpToDate : IsUpToDate boot.registry two_services
unfolding boot get config_beq list_beq option_beq
boot-IsUpToDate name cfg e =
    AllEntries-get
      (λ (x : Text) (c : ServiceConfig).
        (k : ℕ) × (s : Service) × (service k boot.registry ≡ some s)
        × (s.name ≡ x)
        × (config_beq s.config c ≡ true))
      two_services ((0, web, refl, refl, refl), ((1, db, refl, refl, refl), tt)) name cfg e

reload_services-same_example :
    reload_services here boot.registry boot.id_gen [] boot.history
    ≡ (ok tt, boot.registry, boot.id_gen, config_read (ok two_services) ∷ boot.history)
unfolding from_config_file
reload_services-same_example =
    reload_services-same here boot.registry boot.id_gen [] boot.history two_services boot-IsValid
      two_services-Distinct refl boot-IsConfigured boot-IsUpToDate

stop_service-turn_example :
    let asked = stop_service here web boot.history in
    let asked_at = here.now (killed 1 (stop_signal web) none ∷ boot.history) in
    kills 1 (turn here [] 9_000_000_000 0 asked.1 ([], asked.2)).1.1 ≡ (
      if leb (asked_at + stop_timeout web) 9_000_000_000
      then suc (kills 1 asked.2)
      else kills 1 asked.2)
stop_service-turn_example =
    stop_service-turn here [] web 1 boot.history (stop_service here web boot.history).2 []
      9_000_000_000 0 refl refl

read_signalfd_batch-fits_example :
    ((n : ℕ)
      → (read_signalfd_batch 16 (siginfo_bytes 256 (siginfo 17 ∷ siginfo 15 ∷ [])) ≡ ok n)
        ↔ ((n ≤ 16) × (256 ≡ n * siginfo_size)))
    × (256 % siginfo_size ≢ 0
        → read_signalfd_batch 16 (siginfo_bytes 256 (siginfo 17 ∷ siginfo 15 ∷ []))
          ≡ err (errno eio))
read_signalfd_batch-fits_example =
    read_signalfd_batch-fits 16 256 (siginfo 17 ∷ siginfo 15 ∷ []) (omega arith)

reports_left-bound : (h : History) → reports_left script h < 3
reports_left-bound h = omega arith

rounds-IsWhole_example : IsWhole (rounds here [] 3 9 boot)
rounds-IsWhole_example =
    rounds-IsWhole here (machine-StatusIsExact script) (reports_left script)
      (machine-IsFinite script) [] 3 reports_left-bound 9 boot
