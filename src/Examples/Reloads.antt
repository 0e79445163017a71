-- ===== src/Examples/Reloads.antt =====
-- The services after the reload of `Handlers`.
use svlopp.Service.ConfigFile.{from_config_file}
use svlopp.Prelude.{false, ◌≡◌, refl, codes, ok, some, nat_eq, list_eq, list_beq, option_beq, []}
use svlopp.Prelude.Maps.{get, contains_key, insert}
use svlopp.Service.Config.{config_beq, build_svc_argv, build_svc_envp}
use svlopp.Service.Methods.{update_config, new, nextval}
use svlopp.Service.Process.{start_service, stop_service}
use svlopp.Registry.Defs.{insert_service, register_started, stop_registered, start_registered}
use svlopp.Reload.{reload_services, service_ids, remove_missing, apply_configs}
use svlopp.Reload.Known.{IsThere}
use svlopp.Reload.Convergence.{reload_services-IsThere, reload_services-IsLeaving}
use svlopp.Reload.Leaving.{IsLeaving}
use svlopp.Registry.Defs.{service}
use svlopp.Service.Methods.{Service}
use svlopp.Service.Types.{remove, stopping}
use svlopp.Examples.Machine.{machine-ForkIsFresh, config_of}
use svlopp.Examples.Runs.{db, boot, boot-IsValid}
use svlopp.Examples.Handlers.{there, new_script, new_services, new_services-Distinct, reloaded}

reloaded-result : reloaded.0 ≡ ok tt
unfolding boot reload_services service_ids remove_missing apply_configs get contains_key insert
    list_beq option_beq config_beq build_svc_argv build_svc_envp update_config new nextval
    start_service stop_service insert_service register_started stop_registered start_registered
reloaded-result = refl

-- "cache" is new.
cache : get (codes "cache") new_services ≡ some (config_of "redis")
unfolding get list_beq
cache = refl

reload_services-IsThere_example :
    IsThere reloaded.1.services_map (codes "cache") (config_of "redis")
unfolding from_config_file
reload_services-IsThere_example =
    reload_services-IsThere there (machine-ForkIsFresh new_script) [] boot.registry boot.id_gen
      boot.history new_services boot-IsValid new_services-Distinct refl reloaded-result
      (codes "cache") (config_of "redis") cache

-- "db" is no longer configured, and was asked to stop.
abbrev leaving : Service
leaving = record db { pending_action = remove; state = stopping 2 5_000_000_100 }

reloaded-leaving : service 1 reloaded.1 ≡ some leaving
unfolding boot reload_services service_ids remove_missing apply_configs get contains_key insert
    list_beq option_beq config_beq build_svc_argv build_svc_envp update_config new nextval
    start_service stop_service insert_service register_started stop_registered start_registered
reloaded-leaving = refl

db-outside : contains_key leaving.name new_services ≡ false
unfolding contains_key list_beq
db-outside = refl

reload_services-IsLeaving_example : IsLeaving leaving
unfolding from_config_file
reload_services-IsLeaving_example =
    reload_services-IsLeaving there (machine-ForkIsFresh new_script) [] boot.registry boot.id_gen
      boot.history new_services boot-IsValid new_services-Distinct refl reloaded-result 1 leaving
      reloaded-leaving db-outside
