-- ===== src/Supervisor/Startup/Ids.antt =====
-- The id generator after the startup.
use svlopp.Prelude.{ℕ, ◌≡◌, subst, Option, none, some, [], ◌∷◌, Text, Result, ok, err, arith}
use svlopp.Prelude.Maps.{Map}
use svlopp.Os.{Os, SigSet, History}
use svlopp.Service.Config.{ServiceConfig}
use svlopp.Service.Methods.{Service, ServiceIdGen, nextval, new, new_id_gen}
use svlopp.Registry.Defs.{ServiceRegistry}
use svlopp.Reload.Ids.{IsU64, nextval-IsU64}
use svlopp.Supervisor.State.{Supervisor, flush_status_file}
use svlopp.Supervisor.Startup.{
  Loaded, insert_new, load_one, and_load, load_services, load_config, after_load, startup,
}

-- The generator of a load that succeeds.
abbrev HasU64 : Loaded → Type 0
HasU64 (ok (registry, gen)) = IsU64 gen
HasU64 (err e) = Unit

insert_new-HasU64 :
    (s : Result Service) (registry : ServiceRegistry) (gen : ServiceIdGen)
    → IsU64 gen
    → HasU64 (insert_new s registry gen)
unfolding insert_new
insert_new-HasU64 (err e) registry gen b = tt
insert_new-HasU64 (ok s) registry gen b = b

load_one-HasU64 :
    (name : Text) (cfg : ServiceConfig) (given : Option ℕ × ServiceIdGen)
    (registry : ServiceRegistry)
    → IsU64 given.1
    → HasU64 (load_one name cfg given registry)
unfolding load_one
load_one-HasU64 name cfg (none, gen) registry b = tt
load_one-HasU64 name cfg (some k, gen) registry b =
    insert_new-HasU64 (new k name cfg) registry gen b

and_load-HasU64 :
    (loaded : Loaded) (next : ServiceRegistry → ServiceIdGen → Loaded)
    → HasU64 loaded
    → ((registry : ServiceRegistry) (gen : ServiceIdGen) → IsU64 gen → HasU64 (next registry gen))
    → HasU64 (and_load loaded next)
and_load-HasU64 (ok (registry, gen)) next b f = f registry gen b
and_load-HasU64 (err e) next b f = tt

load_services-HasU64 :
    (configs : Map Text ServiceConfig) (registry : ServiceRegistry) (gen : ServiceIdGen)
    → IsU64 gen
    → HasU64 (load_services configs registry gen)
unfolding load_services
load_services-HasU64 [] registry gen b = b
load_services-HasU64 ((name, cfg) ∷ configs) registry gen b =
    and_load-HasU64 (load_one name cfg (nextval gen) registry) (load_services configs)
      (load_one-HasU64 name cfg (nextval gen) registry (nextval-IsU64 gen b))
      (load_services-HasU64 configs)

load_config-HasU64 : (r : Result (Map Text ServiceConfig)) → HasU64 (load_config r)
unfolding load_config
load_config-HasU64 (err e) = tt
load_config-HasU64 (ok configs) = load_services-HasU64 configs _ new_id_gen (omega arith)

abbrev EndsU64 : Result Supervisor → Type 0
EndsU64 (ok sv) = IsU64 sv.id_gen
EndsU64 (err e) = Unit

after_load-EndsU64 :
    (os : Os) (sigset : SigSet) (loaded : Loaded) (h : History)
    → HasU64 loaded
    → EndsU64 (after_load os sigset loaded h)
unfolding after_load flush_status_file
after_load-EndsU64 os sigset (err e) h b = tt
after_load-EndsU64 os sigset (ok loaded) h b = b

pub startup-IsU64 :
    (os : Os) (sigset : SigSet) (h : History) (sv : Supervisor)
    → startup os sigset h ≡ ok sv
    → IsU64 sv.id_gen
unfolding startup
startup-IsU64 os sigset h sv e =
    subst EndsU64 e (after_load-EndsU64 os sigset _ _ (load_config-HasU64 _))
