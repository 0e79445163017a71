-- ===== src/Service/Process.antt =====
-- service.rs: `start_service`, `stop_service`, `force_kill_service_process`, as the supervisor runs
-- them. The child's side is in Service.Child.
pub mod Outcomes
pub mod Masks
pub mod Life
use svlopp.Prelude.{ℕ, ◌+◌, Option, none, some, ◌∷◌, Text, Result, ok, err, errno}
use svlopp.Utils.{sigkill}
use svlopp.Os.{
  Os, SigSet, History, Fork, parent, failed, devnull_opened, log_opened, forked, killed, clock_read,
}
use svlopp.Service.Types.{ServiceState, running, stopping}
use svlopp.Service.Methods.{Service, log_file_path, stop_signal, stop_timeout}

-- What a function on `&mut Service` leaves: its result, the service, and the calls made.
abbrev pub Outcome : Type 0
Outcome = Result (Unit {0}) × Service × History

-- `Result` from a system call's answer.
abbrev pub checked : Option ℕ → Result (Unit {0})
checked none = ok tt
checked (some e) = err (errno e)

module _ (os : Os) where
  after_fork : Service → Fork → History → Outcome
  after_fork svc (parent pid) h = (ok tt, record svc { state = running pid }, h)
  after_fork svc (failed e) h = (err (errno e), svc, h)

  do_fork : Service → SigSet → History → Outcome
  unfolding after_fork
  do_fork svc sigset h = let raw = os.fork h in after_fork svc raw (forked svc sigset raw ∷ h)

  after_log : Service → SigSet → Option ℕ → History → Outcome
  unfolding do_fork
  after_log svc sigset none h = do_fork svc sigset h
  after_log svc sigset (some e) h = (err (errno e), svc, h)

  open_log : Service → SigSet → Option Text → History → Outcome
  unfolding after_log
  open_log svc sigset none h = do_fork svc sigset h
  open_log svc sigset (some path) h =
      let answer = os.open_log h path in after_log svc sigset answer (log_opened path answer ∷ h)

  after_devnull : Service → SigSet → Option ℕ → History → Outcome
  unfolding open_log
  after_devnull svc sigset none h = open_log svc sigset (log_file_path svc) h
  after_devnull svc sigset (some e) h = (err (errno e), svc, h)

  unfoldable pub start_service : Service → SigSet → History → Outcome
  unfolding after_devnull
  start_service svc sigset h =
      let answer = os.open_devnull h in after_devnull svc sigset answer (devnull_opened answer ∷ h)

  after_kill : Service → ℕ → Option ℕ → History → Outcome
  after_kill svc p none h =
      let now = os.now h in
      (ok tt, record svc { state = stopping p (now + stop_timeout svc) }, clock_read now ∷ h)
  after_kill svc p (some e) h = (err (errno e), svc, h)

  stop_in : Service → ServiceState → History → Outcome
  unfolding after_kill
  stop_in svc (running p) h =
      let answer = os.kill h p (stop_signal svc) in
      after_kill svc p answer (killed p (stop_signal svc) answer ∷ h)
  stop_in svc _ h = (ok tt, svc, h)

  unfoldable pub stop_service : Service → History → Outcome
  unfolding stop_in
  stop_service svc h = stop_in svc svc.state h

  unfoldable pub force_kill_service_process : ℕ → History → Result (Unit {0}) × History
  force_kill_service_process pid h =
      let answer = os.kill h pid sigkill in (checked answer, killed pid sigkill answer ∷ h)
