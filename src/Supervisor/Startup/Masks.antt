-- ===== src/Supervisor/Startup/Masks.antt =====
-- The children that the startup forks.
use svlopp.Prelude.{◌≡◌, [], ◌∷◌, nat_eq, Result, ok, err, subst}
use svlopp.Prelude.Maps.Loop.{retain_with_state}
use svlopp.Os.{Os, SigSet, History, config_read}
use svlopp.Service.ConfigFile.{from_config_file}
use svlopp.Service.Process.Masks.{AllMasked, start_service-AllMasked}
use svlopp.Registry.Defs.{ServiceRegistry}
use svlopp.Tick.{Turn}
use svlopp.Supervisor.State.{Supervisor, flush_status_file}
use svlopp.Supervisor.Startup.{Loaded, start_each, start_all, after_load, load_config, startup}

module _ (os : Os) (sigset : SigSet) where
  start_all-AllMasked :
      (registry : ServiceRegistry) (h : History)
      → AllMasked sigset h
      → AllMasked sigset (start_all os sigset registry h).1
  unfolding start_all
  start_all-AllMasked registry h a =
      retain_with_state (λ (t : Turn). AllMasked sigset t.1) (start_each os sigset)
        (λ k s t b. start_service-AllMasked os sigset s t.1 b) registry.services_map
        (registry.pids_map, h) a

  abbrev MaskedIfOk : Result Supervisor → Type 0
  MaskedIfOk (ok sv) = AllMasked sigset sv.history
  MaskedIfOk (err e) = Unit

  after_load-AllMasked :
      (r : Loaded) (h : History) → AllMasked sigset h → MaskedIfOk (after_load os sigset r h)
  unfolding after_load flush_status_file
  after_load-AllMasked (err e) h a = tt
  after_load-AllMasked (ok (registry, gen)) h a = start_all-AllMasked registry h a

  pub startup-AllMasked :
      (sv : Supervisor) → startup os sigset [] ≡ ok sv → AllMasked sigset sv.history
  unfolding startup
  startup-AllMasked sv e = subst MaskedIfOk e (
      after_load-AllMasked (load_config (from_config_file os []))
        (config_read (from_config_file os []) ∷ []) tt)
