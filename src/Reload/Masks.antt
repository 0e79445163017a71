-- ===== src/Reload/Masks.antt =====
-- The children that a reload forks.
use svlopp.Prelude.{
  ℕ, Option, none, some, [], ◌∷◌, arith, nat_eq, list_eq, Text, Result, ok, err, if_cases,
  if◌then◌else◌,
}
use svlopp.Prelude.Maps.{Map, get, contains_key}
use svlopp.Os.{Os, SigSet, History, config_read}
use svlopp.Service.ConfigFile.{from_config_file}
use svlopp.Service.Config.{ServiceConfig, config_beq}
use svlopp.Service.Types.{remove, restart}
use svlopp.Service.Methods.{Service, update_config, ServiceIdGen, nextval, new}
use svlopp.Service.Process.Masks.{AllMasked, start_service-AllMasked, stop_service-AllMasked}
use svlopp.Registry.Defs.{ServiceRegistry, Handled, service, start_registered, stop_registered}
use svlopp.Reload.{
  Reloaded, remove_in, remove_one, remove_missing, and_then, with_gen, and_reload, insert_started,
  start_new, add_new, change_in, change_updated, change_one, apply_config, apply_configs,
  reload_with, reload_services, service_ids,
}

module _ (os : Os) (sigset : SigSet) where
  remove_one-AllMasked :
      (k : ℕ) (o : Option Service) (registry : ServiceRegistry) (h : History)
      → AllMasked sigset h
      → AllMasked sigset (remove_one os k o registry h).2
  unfolding remove_one remove_in stop_registered
  remove_one-AllMasked k none registry h a = a
  remove_one-AllMasked k (some s) registry h a =
      ground (arith, stop_service-AllMasked os sigset (record s { pending_action = remove }) h a)

  and_then-AllMasked :
      (out : Handled) (then_do : ServiceRegistry → History → Handled)
      → AllMasked sigset out.2
      → ((registry : ServiceRegistry) (h : History)
          → AllMasked sigset h
          → AllMasked sigset (then_do registry h).2)
      → AllMasked sigset (and_then out then_do).2
  and_then-AllMasked (ok _, registry, h) then_do a f = f registry h a
  and_then-AllMasked (err e, registry, h) then_do a f = a

  remove_missing-AllMasked :
      (configs : Map Text ServiceConfig) (ids : Map Text ℕ) (registry : ServiceRegistry)
      (h : History)
      → AllMasked sigset h
      → AllMasked sigset (remove_missing os configs ids registry h).2
  unfolding remove_missing
  remove_missing-AllMasked configs [] registry h a = a
  remove_missing-AllMasked configs ((name, k) ∷ ids) registry h a =
      let one : Handled =
        if contains_key name configs
        then (ok tt, registry, h)
        else remove_one os k (service k registry) registry h in
      and_then-AllMasked one (remove_missing os configs ids)
        (ground (arith, remove_one-AllMasked k (service k registry) registry h a))
        (remove_missing-AllMasked configs ids)

  start_new-AllMasked :
      (k : ℕ) (r : Result Service) (registry : ServiceRegistry) (gen : ServiceIdGen) (h : History)
      → AllMasked sigset h
      → AllMasked sigset (start_new os sigset k r registry gen h).3
  unfolding start_new insert_started
  start_new-AllMasked k (err e) registry gen h a = a
  start_new-AllMasked k (ok s) registry gen h a =
      ground (arith, start_service-AllMasked os sigset s h a)

  add_new-AllMasked :
      (name : Text) (cfg : ServiceConfig) (n : Option ℕ × ServiceIdGen) (registry : ServiceRegistry)
      (h : History)
      → AllMasked sigset h
      → AllMasked sigset (add_new os sigset name cfg n registry h).3
  unfolding add_new
  add_new-AllMasked name cfg (none, gen) registry h a = a
  add_new-AllMasked name cfg (some k, gen) registry h a =
      start_new-AllMasked k (new k name cfg) registry gen h a

  change_updated-AllMasked :
      (k : ℕ) (r : Result (Unit {0})) (s : Service) (registry : ServiceRegistry) (h : History)
      → AllMasked sigset h
      → AllMasked sigset (change_updated os sigset k (r, s) registry h).2
  unfolding change_updated change_in start_registered stop_registered
  change_updated-AllMasked k r s registry h a = ground (
    arith,
    start_service-AllMasked os sigset s h a,
    stop_service-AllMasked os sigset (record s { pending_action = restart }) h a,
  )

  change_one-AllMasked :
      (cfg : ServiceConfig) (k : ℕ) (o : Option Service) (registry : ServiceRegistry) (h : History)
      → AllMasked sigset h
      → AllMasked sigset (change_one os sigset cfg k o registry h).2
  unfolding change_one
  change_one-AllMasked cfg k none registry h a = a
  change_one-AllMasked cfg k (some s) registry h a =
      if_cases (λ (out : Handled). AllMasked sigset out.2) (config_beq s.config cfg)
        (ok tt, registry, h) (change_updated os sigset k (update_config s cfg) registry h) (λ _. a)
        (λ _.
          change_updated-AllMasked k (update_config s cfg).0 (update_config s cfg).1 registry h a)

  apply_config-AllMasked :
      (name : Text) (cfg : ServiceConfig) (o : Option ℕ) (registry : ServiceRegistry)
      (gen : ServiceIdGen) (h : History)
      → AllMasked sigset h
      → AllMasked sigset (apply_config os sigset name cfg o registry gen h).3
  unfolding apply_config
  apply_config-AllMasked name cfg none registry gen h a =
      add_new-AllMasked name cfg (nextval gen) registry h a
  apply_config-AllMasked name cfg (some k) registry gen h a =
      change_one-AllMasked cfg k (service k registry) registry h a

  and_reload-AllMasked :
      (out : Reloaded) (then_do : ServiceRegistry → ServiceIdGen → History → Reloaded)
      → AllMasked sigset out.3
      → ((registry : ServiceRegistry) (gen : ServiceIdGen) (h : History)
          → AllMasked sigset h
          → AllMasked sigset (then_do registry gen h).3)
      → AllMasked sigset (and_reload out then_do).3
  and_reload-AllMasked (ok _, registry, gen, h) then_do a f = f registry gen h a
  and_reload-AllMasked (err e, registry, gen, h) then_do a f = a

  apply_configs-AllMasked :
      (ids : Map Text ℕ) (configs : Map Text ServiceConfig) (registry : ServiceRegistry)
      (gen : ServiceIdGen) (h : History)
      → AllMasked sigset h
      → AllMasked sigset (apply_configs os sigset ids configs registry gen h).3
  unfolding apply_configs
  apply_configs-AllMasked ids [] registry gen h a = a
  apply_configs-AllMasked ids ((name, cfg) ∷ configs) registry gen h a =
      and_reload-AllMasked (apply_config os sigset name cfg (get name ids) registry gen h)
        (apply_configs os sigset ids configs)
        (apply_config-AllMasked name cfg (get name ids) registry gen h a)
        (apply_configs-AllMasked ids configs)

  reload_with-AllMasked :
      (r : Result (Map Text ServiceConfig)) (registry : ServiceRegistry) (gen : ServiceIdGen)
      (h : History)
      → AllMasked sigset h
      → AllMasked sigset (reload_with os sigset r registry gen h).3
  unfolding reload_with
  reload_with-AllMasked (err e) registry gen h a = a
  reload_with-AllMasked (ok configs) registry gen h a =
      and_reload-AllMasked
        (with_gen gen (remove_missing os configs (service_ids registry) registry h))
        (apply_configs os sigset (service_ids registry) configs)
        (remove_missing-AllMasked configs (service_ids registry) registry h a)
        (apply_configs-AllMasked (service_ids registry) configs)

  pub reload_services-AllMasked :
      (registry : ServiceRegistry) (gen : ServiceIdGen) (h : History)
      → AllMasked sigset h
      → AllMasked sigset (reload_services os registry gen sigset h).3
  unfolding reload_services
  reload_services-AllMasked registry gen h a =
      reload_with-AllMasked (from_config_file os h) registry gen
        (config_read (from_config_file os h) ∷ h) a
