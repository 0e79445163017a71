-- ===== src/Supervisor/Startup/Invariant.antt =====
-- The loop begins with a consistent registry.
use svlopp.Prelude.{
  ℕ, ◌+◌, ◌^◌, ltb, ◌≡◌, ◌≢◌, refl, true, false, Option, none, some, [], ◌∷◌, arith, nat_eq,
  list_eq, Text, Result, ok, err, ap, sym, ◌∙◌, subst, if_cases,
}
use svlopp.Prelude.Maps.{
  Map, Distinct, get, get-insert, insert, insert-Distinct, contains_key, contains_key-cons_self,
}
use svlopp.Prelude.Maps.Loop.{AllValues, retain_with_all}
use svlopp.Service.ConfigFile.{from_config_file, from_config_file-Distinct}
use svlopp.Os.{Os, SigSet, History, ForkIsFresh, config_read}
use svlopp.Service.Config.{ServiceConfig}
use svlopp.Service.Methods.{Service, ServiceIdGen, nextval, new, pid, new_id_gen}
use svlopp.Service.Created.{new-fields}
use svlopp.Registry.Defs.{ServiceRegistry, new_registry, insert_service}
use svlopp.Registry.Invariant.{Inv, IsConsistent, add-Inv, history-Inv}
use svlopp.Registry.Steps.{start-step}
use svlopp.Reload.Names.{IsFree, entry_name}
use svlopp.Supervisor.State.{Supervisor, flush_status_file}
use svlopp.Supervisor.Invariant.{IsLawful, IsValid}
use svlopp.Supervisor.Startup.{
  Loaded, insert_new, load_one, and_load, load_services, start_each, start_all, after_load,
  load_config, startup,
}

-- A registry in which every service is yet to be started.
record IsLoaded (registry : ServiceRegistry) (gen : ServiceIdGen) (h : History) : Type 0 where
  consistent : IsConsistent registry gen h
  idle : AllValues (λ s. pid s ≡ none) registry.services_map

insert-AllValues :
    (k : ℕ) (s : Service) (m : Map ℕ Service)
    → pid s ≡ none
    → AllValues (λ t. pid t ≡ none) m
    → AllValues (λ t. pid t ≡ none) (insert k s m)
unfolding insert
insert-AllValues k s [] i a = (i, tt)
insert-AllValues k s ((j, t) ∷ m) i a = ground (arith, insert-AllValues k s m)

abbrev AreFree : Map Text ServiceConfig → ServiceRegistry → Type 0
AreFree configs registry =
    (name : Text) → contains_key name configs ≡ true → IsFree name registry.services_map

insert-IsFree :
    (k : ℕ) (s : Service) (m : Map ℕ Service) (x : Text)
    → IsFree x m
    → s.name ≢ x
    → IsFree x (insert k s m)
insert-IsFree k s m x free n j e = ground (arith, get-insert j k s m, free j)

-- What a loading that succeeds gives.
abbrev LoadsWell : Loaded → (ServiceRegistry → ServiceIdGen → Type 0) → Type 0
LoadsWell (ok (registry, gen)) P = P registry gen
LoadsWell (err e) P = Unit

module _ (h : History) where
  insert_new-IsLoaded :
      (name : Text) (cfg : ServiceConfig) (configs : Map Text ServiceConfig) (r : Result Service)
      (registry : ServiceRegistry) (next : ServiceIdGen)
      → new next name cfg ≡ r
      → contains_key name configs ≡ false
      → AreFree ((name, cfg) ∷ configs) registry
      → IsLoaded registry next h
      → LoadsWell
          (insert_new r registry (next + 1))
          (λ registry' gen. IsLoaded registry' gen h × AreFree configs registry')
  unfolding insert_new insert_service contains_key
  insert_new-IsLoaded name cfg configs (err e) registry next made d free l = tt
  insert_new-IsLoaded name cfg configs (ok s) registry next made d free l =
      let (i, n, idle) = new-fields next name cfg s made in
      let c = l.consistent in
      (
        record {
          consistent = record {
            distinct = insert-Distinct s.id s registry.services_map c.distinct;
            inv =
                subst (λ l. Inv (insert s.id s registry.services_map) l registry.pids_map h)
                  (omega arith)
                  (add-Inv c.inv s (insert s.id s registry.services_map) i idle
                    (λ j t e q.
                      free name (contains_key-cons_self name cfg configs) j
                        (ap entry_name e ∙ ap some (q ∙ n)))
                    (λ j. ground (arith, get-insert j s.id s registry.services_map)));
          };
          idle = insert-AllValues s.id s registry.services_map idle l.idle;
        },
        λ x inside.
            insert-IsFree s.id s registry.services_map x (free x (ground (arith, inside)))
              (λ q. ground (arith, inside, d, ap (λ y. contains_key y configs) (sym q ∙ n))),
      )

  load_one-IsLoaded :
      (name : Text) (cfg : ServiceConfig) (configs : Map Text ServiceConfig)
      (registry : ServiceRegistry) (next : ServiceIdGen)
      → contains_key name configs ≡ false
      → AreFree ((name, cfg) ∷ configs) registry
      → IsLoaded registry next h
      → LoadsWell
          (load_one name cfg (nextval next) registry)
          (λ registry' gen. IsLoaded registry' gen h × AreFree configs registry')
  unfolding load_one nextval
  load_one-IsLoaded name cfg configs registry next d free l =
      if_cases
        (λ (t : Option ℕ × ServiceIdGen).
          LoadsWell (load_one name cfg t registry)
            (λ registry' gen. IsLoaded registry' gen h × AreFree configs registry'))
        (ltb (next + 1) (2 ^ 64)) _ _
        (λ _. insert_new-IsLoaded name cfg configs (new next name cfg) registry next refl d free l)
        (λ _. tt)

  and_load-IsLoaded :
      (configs : Map Text ServiceConfig) (r : Loaded)
      (next : ServiceRegistry → ServiceIdGen → Loaded)
      → LoadsWell r (λ registry gen. IsLoaded registry gen h × AreFree configs registry)
      → ((registry : ServiceRegistry) (gen : ServiceIdGen)
          → AreFree configs registry
          → IsLoaded registry gen h
          → LoadsWell (next registry gen) (λ registry' gen'. IsLoaded registry' gen' h))
      → LoadsWell (and_load r next) (λ registry' gen'. IsLoaded registry' gen' h)
  and_load-IsLoaded configs (ok (registry, gen)) next l f = f registry gen l.1 l.0
  and_load-IsLoaded configs (err e) next l f = tt

  load_services-IsLoaded :
      (configs : Map Text ServiceConfig) (registry : ServiceRegistry) (next : ServiceIdGen)
      → Distinct configs
      → AreFree configs registry
      → IsLoaded registry next h
      → LoadsWell (load_services configs registry next) (λ registry' gen. IsLoaded registry' gen h)
  unfolding load_services
  load_services-IsLoaded [] registry next d free l = l
  load_services-IsLoaded ((name, cfg) ∷ configs) registry next d free l =
      and_load-IsLoaded configs (load_one name cfg (nextval next) registry) (load_services configs)
        (load_one-IsLoaded name cfg configs registry next d.0 free l)
        (λ registry' gen free' l'. load_services-IsLoaded configs registry' gen d.1 free' l')

  new_registry-IsLoaded : IsLoaded new_registry 0 h
  unfolding get
  new_registry-IsLoaded = record {
    consistent = record {
      distinct = tt;
      inv = record {
        keyed = λ k s e. ground arith;
        named = λ k j s t e f q. ground arith;
        indexed = λ k p e. ground arith;
        owned = λ k p e. ground arith;
        live = λ p k e. ground arith;
      };
    };
    idle = tt;
  }

start_all-IsConsistent :
    (os : Os)
    → ForkIsFresh os
    → (sigset : SigSet) (registry : ServiceRegistry) (gen : ServiceIdGen) (h : History)
    → IsLoaded registry gen h
    → let out = start_all os sigset registry h in IsConsistent out.0 gen out.1
unfolding start_all
start_all-IsConsistent os fresh sigset registry gen h l =
    let (distinct, inv) =
      retain_with_all (λ m t. Inv m gen t.0 t.1) (λ s. pid s ≡ none) (start_each os sigset)
        (λ m m' k s t i idle here c.
          start-step k s s m' i here refl refl os sigset fresh idle idle c)
        registry.services_map (registry.pids_map, h) l.idle l.consistent.distinct
        l.consistent.inv in
    record { distinct = distinct; inv = inv }

abbrev ok_or : Supervisor → Result Supervisor → Supervisor
ok_or d (ok sv) = sv
ok_or d (err e) = d

load_config-IsLoaded :
    (h : History) (r : Result (Map Text ServiceConfig))
    → ((configs : Map Text ServiceConfig) → r ≡ ok configs → Distinct configs)
    → LoadsWell (load_config r) (λ registry gen. IsLoaded registry gen h)
unfolding load_config get
load_config-IsLoaded h (err e) d = tt
load_config-IsLoaded h (ok configs) d =
    load_services-IsLoaded h configs new_registry new_id_gen (d configs refl)
      (λ x inside j e. ground arith) (new_registry-IsLoaded h)

module _ (os : Os) (fresh : ForkIsFresh os) (sigset : SigSet) (h : History) where
  after_load-IsValid :
      (r : Loaded) (sv : Supervisor)
      → LoadsWell r (λ registry gen. IsLoaded registry gen h)
      → after_load os sigset r h ≡ ok sv
      → IsValid sv
  unfolding after_load flush_status_file
  after_load-IsValid (err e) sv l q = ground arith
  after_load-IsValid (ok (registry, gen)) sv l q =
      let c = start_all-IsConsistent os fresh sigset registry gen h l in
      subst IsValid (ap (ok_or sv) q)
        (record { distinct = c.distinct; inv = history-Inv c.inv _ (λ p x. x) })

-- On a lawful operating system, a startup that succeeds hands a valid supervisor to the loop.
pub startup-IsValid :
    (os : Os)
    → IsLawful os
    → (sigset : SigSet) (h : History) (sv : Supervisor) → startup os sigset h ≡ ok sv
    → IsValid sv
unfolding startup
startup-IsValid os laws sigset h sv e =
    after_load-IsValid os laws.fresh sigset (config_read (from_config_file os h) ∷ h)
      (load_config (from_config_file os h)) sv
      (load_config-IsLoaded _ (from_config_file os h) (from_config_file-Distinct os laws.is_map h))
      e
