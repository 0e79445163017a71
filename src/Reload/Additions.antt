-- ===== src/Reload/Additions.antt =====
-- The second loop of a reload: new services get new ids, new names and pids of their own.
use svlopp.Prelude.{
  ℕ, ◌≡◌, refl, true, false, Option, none, some, [], ◌∷◌, arith, nat_eq, list_eq, Text, ap, Result,
  ok, err,
}
use svlopp.Prelude.Maps.{Map, Distinct, get, contains_key, contains_key-cons_self}
use svlopp.Os.{Os, SigSet, History, ForkIsFresh, config_read}
use svlopp.Service.ConfigFile.{from_config_file, ConfigIsMap, from_config_file-Distinct}
use svlopp.Service.Config.{ServiceConfig}
use svlopp.Service.Methods.{Service, ServiceIdGen}
use svlopp.Lifecycle
use svlopp.Lifecycle.{here, call, Follows}
use svlopp.Lifecycle.Changes.{Follows-refl, Follows-trans, Passes-Follows}
use svlopp.Registry.Defs.{ServiceRegistry, service}
use svlopp.Registry.Invariant.{IsConsistent, history-Inv}
use svlopp.Reload.{
  Reloaded, remove_missing, with_gen, and_reload, apply_config, apply_configs, reload_with,
  reload_services, service_ids,
}
use svlopp.Reload.Names.{IsFree, NoNewNames-IsFree, service_ids-none}
use svlopp.Reload.NewService.{Adds, add_new-Adds}
use svlopp.Reload.Invariant.{remove_missing-Preserves, change_one-Preserves}

-- The names of the configuration that have no id are not yet in use.
abbrev pub AreFree : Map Text ℕ → Map Text ServiceConfig → Map ℕ Service → Type 0
AreFree ids configs m =
    (name : Text) → contains_key name configs ≡ true → get name ids ≡ none → IsFree name m

pub AreFree-tail :
    (ids : Map Text ℕ) (name : Text) (cfg : ServiceConfig) (configs : Map Text ServiceConfig)
    (next : ℕ) (m : Map ℕ Service) (h : History) (out : Reloaded)
    → contains_key name configs ≡ false
    → AreFree ids ((name, cfg) ∷ configs) m
    → Adds name next m h out
    → AreFree ids configs out.1.services_map
unfolding contains_key
AreFree-tail ids name cfg configs next m h out d free adds x inside new_name j e =
    free x (ground (arith, inside)) new_name j
      (adds.names j x (λ q. ground (arith, inside, d, ap (λ y. contains_key y configs) q)) e)

-- Where the second loop leads to from an id generator and a map.
abbrev pub Leads : ℕ → Map ℕ Service → History → Reloaded → Type 0
Leads next m h out =
    IsConsistent out.1 out.2 out.3 × Follows next m h out.2 out.1.services_map out.3

module _ (os : Os) (fresh : ForkIsFresh os) (sigset : SigSet) (ids : Map Text ℕ) where
  pub apply_config-Adds :
      (name : Text) (cfg : ServiceConfig) (o : Option ℕ) (registry : ServiceRegistry)
      (next : ServiceIdGen) (h : History)
      → IsConsistent registry next h
      → (o ≡ none → IsFree name registry.services_map)
      → Adds name next registry.services_map h (apply_config os sigset name cfg o registry next h)
  unfolding apply_config
  apply_config-Adds name cfg none registry next h c free =
      add_new-Adds name next registry os fresh sigset cfg h c (free refl)
  apply_config-Adds name cfg (some k) registry next h c free =
      let kept =
        change_one-Preserves os fresh next sigset cfg k (service k registry) registry h c refl in
      record {
        consistent = kept.consistent;
        names = λ j x ne e. kept.names j x e;
        stages = kept.stages;
      }

  and_reload-Leads :
      (next : ℕ) (m : Map ℕ Service) (h : History) (out : Reloaded)
      (loop : ServiceRegistry → ServiceIdGen → History → Reloaded)
      → Leads next m h out
      → Leads out.2 out.1.services_map out.3 (loop out.1 out.2 out.3)
      → Leads next m h (and_reload out loop)
  and_reload-Leads next m h (ok _, registry, next', h') loop (c, f) (d, g) =
      (d, Follows-trans next next' _ m registry.services_map _ f g)
  and_reload-Leads next m h (err e, registry, next', h') loop c d = c

  apply_configs-Leads :
      (configs : Map Text ServiceConfig) (registry : ServiceRegistry) (next : ServiceIdGen)
      (h : History)
      → Distinct configs
      → AreFree ids configs registry.services_map
      → IsConsistent registry next h
      → Leads next registry.services_map h (apply_configs os sigset ids configs registry next h)
  unfolding apply_configs
  apply_configs-Leads [] registry next h d free c = (c, Follows-refl next registry.services_map)
  apply_configs-Leads ((name, cfg) ∷ configs) registry next h d free c =
      let out = apply_config os sigset name cfg (get name ids) registry next h in
      let adds : Adds name next registry.services_map h out =
        apply_config-Adds name cfg (get name ids) registry next h c
          (free name (contains_key-cons_self name cfg configs)) in
      and_reload-Leads next registry.services_map h out (apply_configs os sigset ids configs)
        (adds.consistent, adds.stages)
        (apply_configs-Leads configs out.1 out.2 out.3 d.1
          (AreFree-tail ids name cfg configs next registry.services_map h out d.0 free adds)
          adds.consistent)

reload_with-Leads :
    (os : Os)
    → ForkIsFresh os
    → (sigset : SigSet) (r : Result (Map Text ServiceConfig)) (registry : ServiceRegistry)
      (next : ServiceIdGen) (h : History)
    → ((configs : Map Text ServiceConfig) → r ≡ ok configs → Distinct configs)
    → IsConsistent registry next h
    → Leads next registry.services_map h (reload_with os sigset r registry next h)
unfolding reload_with
reload_with-Leads os fresh sigset (err e) registry next h d c =
    (c, Follows-refl next registry.services_map)
reload_with-Leads os fresh sigset (ok configs) registry next h d c =
    let ids = service_ids registry in
    let removed = remove_missing os configs ids registry h in
    let kept = remove_missing-Preserves os fresh next configs ids registry h c in
    and_reload-Leads os fresh sigset ids next registry.services_map h (with_gen next removed)
      (apply_configs os sigset ids configs) (kept.consistent, kept.stages)
      (apply_configs-Leads os fresh sigset ids configs removed.1 next removed.2 (d configs refl)
        (λ name inside new_name.
          NoNewNames-IsFree name _ _ kept.names (service_ids-none registry name new_name))
        kept.consistent)

module _ (os : Os) (fresh : ForkIsFresh os) (is_map : ConfigIsMap os) (registry : ServiceRegistry)
    (next : ServiceIdGen) (sigset : SigSet) (h : History) (c : IsConsistent registry next h) where
  reload_services-Leads :
      Leads next registry.services_map h (reload_services os registry next sigset h)
  unfolding reload_services
  reload_services-Leads =
      let r = from_config_file os h in
      let (consistent, follows) =
        reload_with-Leads os fresh sigset r registry next (config_read r ∷ h)
          (from_config_file-Distinct os is_map h)
          (record { distinct = c.distinct; inv = history-Inv c.inv _ (λ q x. x) }) in
      (
        consistent,
        Follows-trans next next _ registry.services_map registry.services_map _
            (Passes-Follows next registry.services_map (λ a. Lifecycle.next here (call _))) follows,
      )

  -- Where forked pids are fresh and a parsed configuration is a map, from a consistent registry, a
  -- reload leaves a consistent registry and id generator, however far it gets before an error.
  pub reload_services-IsConsistent :
      let out = reload_services os registry next sigset h in IsConsistent out.1 out.2 out.3
  reload_services-IsConsistent = reload_services-Leads.0

  pub reload_services-Follows :
      let out = reload_services os registry next sigset h in
      Follows next registry.services_map h out.2 out.1.services_map out.3
  reload_services-Follows = reload_services-Leads.1
