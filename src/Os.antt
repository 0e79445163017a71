-- ===== src/Os.antt =====
-- The operating system, and the crates that call it, as the program sees them. What it answers is
-- a function of the calls made so far, newest first; nothing else is assumed of it here.
use svlopp.Prelude.{
  arith, ℕ, ◌≡◌, Bool, true, false, Option, List, [], ◌∷◌, ◌==◌, nat_eq, if◌then◌else◌, Text,
  Result,
}
use svlopp.Prelude.Maps.{Map}
use svlopp.Control.{ReadReply}
use svlopp.Signalfd.{SignalRead}
use svlopp.Service.Types.{WaitStatus}
use svlopp.Service.Config.{ServiceConfig}
use svlopp.Service.Methods.{Service}

-- A signal mask (`SigSet`), by the numbers that are blocked.
abbrev pub SigSet : Type 0
SigSet = List ℕ

-- What `fork` returns in the supervisor: a positive pid, or -1 with the error number.
pub data Fork : Type 0 where
  parent : ℕ → Fork
  failed : ℕ → Fork

-- What `waitpid(-1, WNOHANG)` returns.
pub data WaitReply : Type 0 where
  reaped : ℕ → WaitStatus → WaitReply
  none_ready : WaitReply
  wait_failed : ℕ → WaitReply

-- What `epoll::wait` returns: the ids of the ready descriptors, or an error number.
pub data EpollReply : Type 0 where
  ready : List ℕ → EpollReply
  epoll_failed : ℕ → EpollReply

-- What `std::fs::read_to_string` returns: the text, or an error number.
pub data FileReply : Type 0 where
  file_read : Text → FileReply
  file_failed : ℕ → FileReply

-- What `toml::from_str` returns: the services of the file by name, or the message of an error.
pub data TomlReply : Type 0 where
  parsed : Map Text ServiceConfig → TomlReply
  refused : Text → TomlReply

-- A call with its answer. An answer `none` of `Option ℕ` is success, `some e` the error number.
-- `forked` holds the copy of the service and the mask that the child process starts from.
pub data Call : Type 0 where
  devnull_opened : Option ℕ → Call
  log_opened : Text → Option ℕ → Call
  forked : Service → SigSet → Fork → Call
  killed : ℕ → ℕ → Option ℕ → Call
  group_killed : ℕ → ℕ → Option ℕ → Call
  waited : WaitReply → Call
  clock_read : ℕ → Call
  config_read : Result (Map Text ServiceConfig) → Call
  epoll_waited : EpollReply → Call
  signals_read : SignalRead → Call
  timer_read control_read : ReadReply → Call
  status_written : Text → Call

abbrev pub History : Type 0
History = List Call

-- `kill` is `kill_process`, `kill_group` `kill_process_group`, `now` `Instant::now` in nanoseconds,
-- `read_config` `std::fs::read_to_string` of the configuration, `epoll_wait` the ids of the ready
-- descriptors, and the last three the reads of the signal, timer and control descriptors.
pub record Os : Type 0 where
  pub open_devnull : History → Option ℕ
  pub open_log : History → Text → Option ℕ
  pub fork : History → Fork
  pub kill : History → ℕ → ℕ → Option ℕ
  pub kill_group : History → ℕ → ℕ → Option ℕ
  pub wait : History → WaitReply
  pub now : History → ℕ
  pub read_config : History → FileReply
  pub toml_from_str : Text → TomlReply
  pub epoll_wait : History → EpollReply
  pub read_signals : History → SignalRead
  pub read_timer : History → ReadReply
  pub read_control : History → ReadReply

-- Whether a wait status ends the process, and so frees its pid.
abbrev pub ended : WaitStatus → Bool
ended status = if status.exited then true else status.signaled

-- Whether a pid is a child that the supervisor forked and has not yet reaped.
abbrev pub is_child : ℕ → History → Bool
is_child p [] = false
is_child p (forked _ _ (parent q) ∷ h) = if q == p then true else is_child p h
is_child p (waited (reaped q status) ∷ h) =
    let before = is_child p h in if q == p then (if ended status then false else before) else before
is_child p (_ ∷ h) = is_child p h

-- POSIX: `fork` returns a pid that no process has, and a child keeps its pid until it is reaped.
abbrev pub ForkIsFresh : Os → Type 0
ForkIsFresh os = (h : History) (p : ℕ) → os.fork h ≡ parent p → is_child p h ≡ false

-- Children stay children.
abbrev pub Keeps : History → History → Type 0
Keeps h h' = (p : ℕ) → is_child p h ≡ true → is_child p h' ≡ true

-- Calls that neither make a child nor reap one: what the loop reads and writes between events.
abbrev pub is_plain : Call → Bool
is_plain (epoll_waited r) = true
is_plain (signals_read r) = true
is_plain (timer_read r) = true
is_plain (control_read r) = true
is_plain (status_written t) = true
is_plain _ = false

pub is_plain-Keeps : (c : Call) (h : History) → is_plain c ≡ true → Keeps h (c ∷ h)
is_plain-Keeps c h e p q = ground arith
