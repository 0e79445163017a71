-- ===== src/Reload/Ids.antt =====
-- The id generator over a reload: the next id stays a 64-bit number.
use svlopp.Prelude.{
  ℕ, ◌^◌, ◌<◌, Option, none, some, [], ◌∷◌, Text, Result, ok, err, arith, nat_eq, list_eq,
}
use svlopp.Prelude.Maps.{Map, get}
use svlopp.Os.{Os, SigSet, History}
use svlopp.Service.Config.{ServiceConfig}
use svlopp.Service.ConfigFile.{from_config_file}
use svlopp.Service.Methods.{Service, ServiceIdGen, nextval, new}
use svlopp.Service.Process.{start_service}
use svlopp.Registry.Defs.{ServiceRegistry}
use svlopp.Reload.{
  Reloaded, with_gen, insert_started, start_new, add_new, apply_config, and_reload, apply_configs,
  service_ids, remove_missing, reload_with, reload_services,
}

abbrev pub IsU64 : ℕ → Type 0
IsU64 n = n < 2 ^ 64

pub nextval-IsU64 : (gen : ServiceIdGen) → IsU64 gen → IsU64 (nextval gen).1
unfolding nextval
nextval-IsU64 gen b = ground arith

insert_started-gen :
    (k : ℕ) (out : Result (Unit {0}) × Service × History) (registry : ServiceRegistry)
    (gen : ServiceIdGen)
    → IsU64 gen
    → IsU64 (insert_started k out registry gen).2
unfolding insert_started
insert_started-gen k (err e, s, h) registry gen b = b
insert_started-gen k (ok _, s, h) registry gen b = b

module _ (os : Os) (sigset : SigSet) where
  start_new-gen :
      (k : ℕ) (s : Result Service) (registry : ServiceRegistry) (gen : ServiceIdGen) (h : History)
      → IsU64 gen
      → IsU64 (start_new os sigset k s registry gen h).2
  unfolding start_new
  start_new-gen k (err e) registry gen h b = b
  start_new-gen k (ok s) registry gen h b =
      insert_started-gen k (start_service os s sigset h) registry gen b

  add_new-gen :
      (name : Text) (cfg : ServiceConfig) (given : Option ℕ × ServiceIdGen)
      (registry : ServiceRegistry) (h : History)
      → IsU64 given.1
      → IsU64 (add_new os sigset name cfg given registry h).2
  unfolding add_new
  add_new-gen name cfg (none, gen) registry h b = b
  add_new-gen name cfg (some k, gen) registry h b =
      start_new-gen k (new k name cfg) registry gen h b

  apply_config-gen :
      (name : Text) (cfg : ServiceConfig) (known : Option ℕ) (registry : ServiceRegistry)
      (gen : ServiceIdGen) (h : History)
      → IsU64 gen
      → IsU64 (apply_config os sigset name cfg known registry gen h).2
  unfolding apply_config
  apply_config-gen name cfg none registry gen h b =
      add_new-gen name cfg (nextval gen) registry h (nextval-IsU64 gen b)
  apply_config-gen name cfg (some k) registry gen h b = b

  and_reload-gen :
      (r : Reloaded) (next : ServiceRegistry → ServiceIdGen → History → Reloaded)
      → IsU64 r.2
      → ((registry : ServiceRegistry) (gen : ServiceIdGen) (h : History)
          → IsU64 gen
          → IsU64 (next registry gen h).2)
      → IsU64 (and_reload r next).2
  and_reload-gen (ok _, registry, gen, h) next b f = f registry gen h b
  and_reload-gen (err e, registry, gen, h) next b f = b

  apply_configs-gen :
      (ids : Map Text ℕ) (configs : Map Text ServiceConfig) (registry : ServiceRegistry)
      (gen : ServiceIdGen) (h : History)
      → IsU64 gen
      → IsU64 (apply_configs os sigset ids configs registry gen h).2
  unfolding apply_configs
  apply_configs-gen ids [] registry gen h b = b
  apply_configs-gen ids ((name, cfg) ∷ configs) registry gen h b =
      and_reload-gen (apply_config os sigset name cfg (get name ids) registry gen h)
        (apply_configs os sigset ids configs)
        (apply_config-gen name cfg (get name ids) registry gen h b) (apply_configs-gen ids configs)

  reload_with-gen :
      (configs : Result (Map Text ServiceConfig)) (registry : ServiceRegistry) (gen : ServiceIdGen)
      (h : History)
      → IsU64 gen
      → IsU64 (reload_with os sigset configs registry gen h).2
  unfolding reload_with
  reload_with-gen (err e) registry gen h b = b
  reload_with-gen (ok configs) registry gen h b =
      and_reload-gen (with_gen gen (remove_missing os configs (service_ids registry) registry h))
        (apply_configs os sigset (service_ids registry) configs) b
        (apply_configs-gen (service_ids registry) configs)

  pub reload_services-gen :
      (registry : ServiceRegistry) (gen : ServiceIdGen) (h : History)
      → IsU64 gen
      → IsU64 (reload_services os registry gen sigset h).2
  unfolding reload_services
  reload_services-gen registry gen h b = reload_with-gen (from_config_file os h) registry gen _ b
