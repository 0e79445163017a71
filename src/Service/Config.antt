-- ===== src/Service/Config.antt =====
-- service.rs: `ServiceConfig`, what it is built into, and when two are equal.
use svlopp.Prelude.{
  ℕ, Bool, true, false, ◌&&◌, Option, none, some, List, [], ◌∷◌, ◌++◌, ◌==◌, nat_eq, list_eq,
  option_eq, if◌then◌else◌, Text, length, Result, ok, err, nul_byte, ◌>>=◌,
}
use svlopp.Prelude.Maps.{Map, get}
use svlopp.Service.Types.{
  StopSignal, sig_term, sig_int, sig_quit, sig_hup, sig_usr1, sig_usr2, ServicePendingAction,
  nothing, restart, remove,
}
use svlopp.Service.Paths.{path_beq}
use svlopp.Utils.{sigterm, sigint, sigquit, sighup, sigusr1, sigusr2}

abbrev pub default_stop_timeout_ms : ℕ
default_stop_timeout_ms = 5000

-- `From<StopSignal> for Signal`
unfoldable pub to_signal : StopSignal → ℕ
to_signal sig_term = sigterm
to_signal sig_int = sigint
to_signal sig_quit = sigquit
to_signal sig_hup = sighup
to_signal sig_usr1 = sigusr1
to_signal sig_usr2 = sigusr2

pub record UserGroup : Type 0 where
  pub uid : ℕ
  pub gid : ℕ

pub record ServiceConfig : Type 0 where
  pub command : Text
  pub args : List Text
  pub env : Option (Map Text Text)
  pub working_directory : Option Text
  pub log_file_path : Option Text
  pub user_group : Option UserGroup
  pub fallback_pending_action : ServicePendingAction
  pub stop_signal : StopSignal
  pub stop_timeout_ms : ℕ

has_nul : Text → Bool
has_nul [] = false
has_nul (c ∷ s) = if c == 0 then true else has_nul s

-- `CString::new`
unfoldable pub c_string : Text → Result Text
unfolding has_nul
c_string s = if has_nul s then err nul_byte else ok s

c_strings : List Text → Result (List Text)
c_strings [] = ok []
c_strings (s ∷ ss) = c_string s >>= λ c. c_strings ss >>= λ cs. ok (c ∷ cs)

unfoldable pub build_svc_argv : ServiceConfig → Result (List Text)
unfolding c_string c_strings
build_svc_argv config = c_string config.command >>= λ c. c_strings config.args >>= λ cs. ok (c ∷ cs)

-- `format!("{key}={value}")`
key_values : Map Text Text → List Text
key_values [] = []
key_values ((key, value) ∷ m) = (key ++ b'=' ∷ value) ∷ key_values m

env_strings : Option (Map Text Text) → Result (Option (List Text))
env_strings none = ok none
env_strings (some m) = c_strings (key_values m) >>= λ envp. ok (some envp)

unfoldable pub build_svc_envp : ServiceConfig → Result (Option (List Text))
unfolding c_string c_strings key_values env_strings
build_svc_envp config = env_strings config.env

-- `==` of two `HashMap`s: as many entries, and each of the one is in the other.
map_within : Map Text Text → Map Text Text → Bool
map_within [] b = true
map_within ((k, v) ∷ a) b = (get k b == some v) && map_within a b

env_beq : Option (Map Text Text) → Option (Map Text Text) → Bool
env_beq none none = true
env_beq (some a) (some b) = (length a == length b) && map_within a b
env_beq _ _ = false

user_group_beq : Option UserGroup → Option UserGroup → Bool
user_group_beq none none = true
user_group_beq (some a) (some b) = (a.uid == b.uid) && (a.gid == b.gid)
user_group_beq _ _ = false

pending_beq : ServicePendingAction → ServicePendingAction → Bool
pending_beq nothing nothing = true
pending_beq restart restart = true
pending_beq remove remove = true
pending_beq _ _ = false

option_path_beq : Option Text → Option Text → Bool
option_path_beq none none = true
option_path_beq (some a) (some b) = path_beq a b
option_path_beq _ _ = false

stop_signal_beq : StopSignal → StopSignal → Bool
stop_signal_beq a b = to_signal a == to_signal b

-- The derived `==`: paths by their components.
unfoldable pub config_beq : ServiceConfig → ServiceConfig → Bool
unfolding env_beq map_within option_path_beq path_beq user_group_beq pending_beq stop_signal_beq
    to_signal
config_beq a b =
    (a.command == b.command)
    && (a.args == b.args)
    && env_beq a.env b.env
    && option_path_beq a.working_directory b.working_directory
    && option_path_beq a.log_file_path b.log_file_path
    && user_group_beq a.user_group b.user_group
    && pending_beq a.fallback_pending_action b.fallback_pending_action
    && stop_signal_beq a.stop_signal b.stop_signal
    && (a.stop_timeout_ms == b.stop_timeout_ms)
