-- ===== src/Service/Methods.antt =====
-- service.rs: `ServiceIdGen`, `Service` and its methods.
use svlopp.Prelude.{
  ℕ, ◌+◌, ◌*◌, ◌^◌, Bool, true, false, Option, none, some, List, if◌then◌else◌, ltb, Text, Result,
  ok, err, ◌>>=◌,
}
use svlopp.Service.Types.{
  ServiceState, stopped, running, stopping, never_started, ServicePendingAction, nothing,
}
use svlopp.Service.Config.{ServiceConfig, UserGroup, build_svc_argv, build_svc_envp, to_signal}

-- The next id; a `u64`.
abbrev pub ServiceIdGen : Type 0
ServiceIdGen = ℕ

abbrev pub new_id_gen : ServiceIdGen
new_id_gen = 0

-- `checked_add(1)?` leaves the generator as it was when it fails.
unfoldable pub nextval : ServiceIdGen → Option ℕ × ServiceIdGen
nextval value = if ltb (value + 1) (2 ^ 64) then (some value, value + 1) else (none, value)

pub record Service : Type 0 where
  pub id : ℕ
  pub name : Text
  pub config : ServiceConfig
  pub argv : List Text
  pub envp : Option (List Text)
  pub state : ServiceState
  pub pending_action : ServicePendingAction

unfoldable pub new : ℕ → Text → ServiceConfig → Result Service
new id name config = do
  argv ← build_svc_argv config
  envp ← build_svc_envp config
  ok (record {
    id = id;
    name = name;
    config = config;
    argv = argv;
    envp = envp;
    state = stopped never_started;
    pending_action = nothing;
  })

abbrev pub state_pid : ServiceState → Option ℕ
state_pid (running p) = some p
state_pid (stopping p _) = some p
state_pid (stopped _) = none

abbrev pub pid : Service → Option ℕ
pid svc = state_pid svc.state

abbrev pub state_is_stopped : ServiceState → Bool
state_is_stopped (stopped _) = true
state_is_stopped _ = false

abbrev pub is_stopped : Service → Bool
is_stopped svc = state_is_stopped svc.state

abbrev pub working_directory : Service → Option Text
working_directory svc = svc.config.working_directory

abbrev pub log_file_path : Service → Option Text
log_file_path svc = svc.config.log_file_path

abbrev pub user_group : Service → Option UserGroup
user_group svc = svc.config.user_group

abbrev pub fallback_pending_action : Service → ServicePendingAction
fallback_pending_action svc = svc.config.fallback_pending_action

abbrev pub stop_signal : Service → ℕ
stop_signal svc = to_signal svc.config.stop_signal

-- In nanoseconds, as an `Instant` counts.
abbrev pub stop_timeout : Service → ℕ
stop_timeout svc = svc.config.stop_timeout_ms * 1_000_000

update_envp : Service → ServiceConfig → Result (Option (List Text)) → Result (Unit {0}) × Service
update_envp svc config (err e) = (err e, svc)
update_envp svc config (ok envp) = (ok tt, record svc { envp = envp; config = config })

update_argv : Service → ServiceConfig → Result (List Text) → Result (Unit {0}) × Service
unfolding update_envp
update_argv svc config (err e) = (err e, svc)
update_argv svc config (ok argv) =
    update_envp (record svc { argv = argv }) config (build_svc_envp config)

-- Each field is written as soon as it is built: an `envp` that fails leaves the new `argv`.
unfoldable pub update_config : Service → ServiceConfig → Result (Unit {0}) × Service
unfolding update_argv
update_config svc config = update_argv svc config (build_svc_argv config)

unfoldable pub take_pending_action : Service → ServicePendingAction × Service
take_pending_action svc = (svc.pending_action, record svc { pending_action = nothing })
