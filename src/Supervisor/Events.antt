-- ===== src/Supervisor/Events.antt =====
-- main.rs: the epoll events and the loop over them.
pub mod Rule
pub mod Invariant
pub mod Ending
pub mod Fuel
pub mod Liveness
pub mod InSync
pub mod Ids
use svlopp.Prelude.{
  ℕ, zero, suc, ◌==◌, nat_eq, List, [], ◌∷◌, take, map, if◌then◌else◌, Result, ok, err, errno,
}
use svlopp.Os.{
  Os, SigSet, EpollReply, ready, epoll_failed, epoll_waited, signals_read, timer_read, control_read,
}
use svlopp.Control.{
  Decoded, command, no_command, rejected, io, invalid_command, read_control_command,
}
use svlopp.Signalfd.{SignalRead, siginfo_bytes, siginfo_failed, read_signalfd_batch}
use svlopp.Signalfd.Siginfo.{SignalfdSiginfo, signal}
use svlopp.Timerfd.{read_timerfd}
use svlopp.Registry.Defs.{ServiceRegistry, Handled}
use svlopp.ControlOps.{apply_control_op}
use svlopp.Tick.{tick}
use svlopp.Supervisor.State.{Supervisor, Flow, continues, exits, and_flow, flush_status_file}
use svlopp.Supervisor.Signals.{on_signals}
use svlopp.Os.{History}

abbrev pub id_sfd : ℕ
id_sfd = 1

abbrev pub id_tfd : ℕ
id_tfd = 2

abbrev pub id_pfd : ℕ
id_pfd = 3

abbrev pub siginfo_buf_len : ℕ
siginfo_buf_len = 16

-- The records in the buffer after a read.
abbrev buffered : SignalRead → List SignalfdSiginfo
buffered (siginfo_bytes _ buf) = buf
buffered (siginfo_failed _) = []

abbrev log_call : Supervisor → (History → History) → Supervisor
log_call sv f = record sv { history = f sv.history }

module _ (os : Os) (original_sigset : SigSet) (fuel : ℕ) where
  after_signal_read : Supervisor → List SignalfdSiginfo → Result ℕ → Flow
  after_signal_read sv buf (err e) = exits (err e) sv
  after_signal_read sv buf (ok siginfo_read) =
      and_flow (on_signals os original_sigset fuel (map signal (take siginfo_read buf)) sv)
        (λ sv'. continues (flush_status_file sv'))

  unfoldable pub on_sfd : Supervisor → Flow
  unfolding after_signal_read
  on_sfd sv =
      let reply = os.read_signals sv.history in
      after_signal_read (log_call sv (◌∷◌ (signals_read reply))) (buffered reply)
        (read_signalfd_batch siginfo_buf_len reply)

  after_tick : Supervisor → ServiceRegistry × History → Supervisor
  after_tick sv (registry, h) = flush_status_file (record sv { registry = registry; history = h })

  after_timer_read : Supervisor → Result ℕ → Flow
  unfolding after_tick
  after_timer_read sv (err e) = exits (err e) sv
  after_timer_read sv (ok _) =
      continues (after_tick sv (tick os original_sigset sv.registry sv.history))

  unfoldable pub on_tfd : Supervisor → Flow
  unfolding after_timer_read
  on_tfd sv =
      let reply = os.read_timer sv.history in
      after_timer_read (log_call sv (◌∷◌ (timer_read reply))) (read_timerfd reply)

  -- The result of the operation is only logged.
  after_control_op : Supervisor → Handled → Supervisor
  after_control_op sv (result, registry, h) =
      flush_status_file (record sv { registry = registry; history = h })

  after_control_read : Supervisor → Decoded → Flow
  unfolding after_control_op
  after_control_read sv (command cmd) = continues (
      after_control_op sv
        (apply_control_op os sv.registry cmd.service_id cmd.op original_sigset sv.history))
  after_control_read sv no_command = continues sv
  after_control_read sv (rejected (invalid_command e)) = continues sv
  after_control_read sv (rejected (io e)) = exits (err (errno e)) sv

  unfoldable pub on_pfd : Supervisor → Flow
  unfolding after_control_read
  on_pfd sv =
      let reply = os.read_control sv.history in
      after_control_read (log_call sv (◌∷◌ (control_read reply))) (read_control_command reply)

  -- An unknown event id is only logged.
  unfoldable pub on_event : ℕ → Supervisor → Flow
  on_event id sv =
      if id == id_sfd
      then on_sfd sv
      else if id == id_tfd
      then on_tfd sv
      else if id == id_pfd
      then on_pfd sv
      else continues sv

  unfoldable pub on_events : List ℕ → Supervisor → Flow
  on_events [] sv = continues sv
  on_events (id ∷ rest) sv = and_flow (on_event id sv) (on_events rest)

  after_epoll : Supervisor → EpollReply → Flow
  after_epoll sv (epoll_failed e) = exits (err (errno e)) sv
  after_epoll sv (ready ids) = on_events ids sv

  -- One round of the loop: wait, then every event.
  unfoldable pub round : Supervisor → Flow
  unfolding after_epoll
  round sv =
      let reply = os.epoll_wait sv.history in
      after_epoll (log_call sv (◌∷◌ (epoll_waited reply))) reply

  -- The first rounds of the loop, which has no bound of its own.
  unfoldable pub rounds : ℕ → Supervisor → Flow
  rounds zero sv = continues sv
  rounds (suc n) sv = and_flow (round sv) (rounds n)
