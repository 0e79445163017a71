-- ===== src/Examples/Machine.antt =====
-- An operating system that meets every hypothesis of the theorems, and some services.
use svlopp.Prelude.{
  ℕ, zero, suc, ◌-◌, ◌<◌, ◌≡◌, refl, true, false, Option, none, some, List, [], ◌∷◌, String, subst,
  ap, length, if◌then◌else◌, ltb, arith, Text, codes, pos, nat_eq, list_eq,
}
use svlopp.Prelude.Maps.{Map, Distinct}
use svlopp.Os.{
  TomlReply, parsed, refused, file_read, Os, History, parent, forked, waited, reaped, signals_read,
  none_ready, is_child, ForkIsFresh, ready,
}
use svlopp.Control.{bytes_read}
use svlopp.Signalfd.{siginfo_bytes, siginfo_failed}
use svlopp.Signalfd.Siginfo.{SignalfdSiginfo}
use svlopp.Service.Types.{WaitStatus, sig_term, nothing}
use svlopp.Service.Config.{ServiceConfig}
use svlopp.Service.ConfigFile.{ConfigIsMap}
use svlopp.Reap.Invariant.{StatusIsExact, IsFinite}
use svlopp.Supervisor.Invariant.{IsLawful}

-- The highest pid that was ever given.
abbrev pub last_pid : History → ℕ
last_pid [] = 0
last_pid (forked _ _ (parent q) ∷ h) = let last = last_pid h in if ltb last q then q else last
last_pid (_ ∷ h) = last_pid h

last_pid-is_child : (p : ℕ) (h : History) → last_pid h < p → is_child p h ≡ false
last_pid-is_child p [] l = refl
last_pid-is_child p (c ∷ h) l = ground (arith, last_pid-is_child p h)

-- The status of a process that exited with code 0.
abbrev pub exited_status : WaitStatus
exited_status = record {
  exited = true;
  exit_status = some 0;
  signaled = false;
  terminating_signal = none;
}

abbrev pub config_of : String → ServiceConfig
config_of command = record {
  command = codes command;
  args = [];
  env = none;
  working_directory = none;
  log_file_path = none;
  user_group = none;
  fallback_pending_action = nothing;
  stop_signal = sig_term;
  stop_timeout_ms = 5000;
}

-- How often `waitpid` has reported a child.
abbrev pub reports : History → ℕ
reports [] = 0
reports (waited (reaped _ _) ∷ h) = suc (reports h)
reports (_ ∷ h) = reports h

-- How many times the signal descriptor was read.
abbrev signal_reads : History → ℕ
signal_reads [] = 0
signal_reads (signals_read _ ∷ h) = suc (signal_reads h)
signal_reads (_ ∷ h) = signal_reads h

abbrev item {ℓ} : {A : Type ℓ} → List A → ℕ → Option A
item [] i = none
item (x ∷ xs) zero = some x
item (x ∷ xs) (suc i) = item xs i

-- What happens to the program: the time, the children that end, the signals, one to a read, the
-- descriptors that are ready in each round, and the configuration.
pub record Script : Type 0 where
  pub time : ℕ
  pub children : List ℕ
  pub signals : List ℕ
  pub events : List ℕ
  pub configs : Map Text ServiceConfig

-- The record of a signal that the kernel sent.
abbrev pub siginfo : ℕ → SignalfdSiginfo
siginfo signal = record {
  raw = record { ssi_signo = signal; ssi_code = pos 128; ssi_pid = 0; ssi_uid = 0 };
}

-- Forks succeed with a new pid, and signals are delivered. A ready control descriptor holds a
-- request to restart service 0.
abbrev pub machine : Script → Os
machine script = record {
  open_devnull = λ h. none;
  open_log = λ h path. none;
  fork = λ h. parent (suc (last_pid h));
  kill = λ h pid sig. none;
  kill_group = λ h pid sig. none;
  wait = λ h. elim (item script.children (reports h)) [
    | none ↦ none_ready
    | some child ↦ reaped child exited_status
  ];
  now = λ h. script.time;
  read_config = λ h. file_read [];
  toml_from_str = λ content. parsed script.configs;
  epoll_wait = λ h. ready script.events;
  read_signals = λ h. elim (item script.signals (signal_reads h)) [
    | none ↦ siginfo_failed 11
    | some signal ↦ siginfo_bytes 128 (siginfo signal ∷ [])
  ];
  read_timer = λ h. bytes_read (1 ∷ 0 ∷ 0 ∷ 0 ∷ 0 ∷ 0 ∷ 0 ∷ 0 ∷ []);
  read_control = λ h. bytes_read (0x43 ∷ 0 ∷ 0 ∷ 0 ∷ 0 ∷ 0 ∷ 0 ∷ 0 ∷ 0 ∷ []);
}

abbrev services_of : TomlReply → Map Text ServiceConfig
services_of (parsed services) = services
services_of (refused message) = []

module _ (script : Script) where
  pub machine-ForkIsFresh : ForkIsFresh (machine script)
  machine-ForkIsFresh h p e = last_pid-is_child p h (ground arith)

  pub machine-StatusIsExact : StatusIsExact (machine script)
  machine-StatusIsExact h p status e = ground arith

  pub machine-ConfigIsMap : Distinct script.configs → ConfigIsMap (machine script)
  machine-ConfigIsMap d content services e = subst (λ m. Distinct m) (ap services_of e) d

  pub machine-IsLawful : Distinct script.configs → IsLawful (machine script)
  machine-IsLawful d = record {
    fresh = machine-ForkIsFresh;
    exact = machine-StatusIsExact;
    is_map = machine-ConfigIsMap d;
  }

-- The reports that are left to make.
abbrev pub reports_left : Script → History → ℕ
reports_left script h = length script.children - reports h

item-lt {ℓ} : {A : Type ℓ} (xs : List A) (i : ℕ) (x : A) → item xs i ≡ some x → i < length xs
item-lt [] i x e = ground arith
item-lt (y ∷ xs) zero x e = omega arith
item-lt (y ∷ xs) (suc i) x e = omega (arith, item-lt xs i x e)

pub machine-IsFinite : (script : Script) → IsFinite (machine script) (reports_left script)
machine-IsFinite script = record {
  uses_up = λ h p status e. ground (arith, item-lt script.children (reports h) p);
  makes_none = λ h p sig answer. omega arith;
}
