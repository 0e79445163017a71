-- ===== src/Supervisor/Events/Rule.antt =====
-- The rule of the loop: what each handler keeps, any number of rounds keeps.
use svlopp.Prelude.{
  true, ℕ, zero, suc, ◌==◌, nat_eq, ◌&&◌, ◌||◌, ◌≡◌, ◌≢◌, refl, List, [], ◌∷◌, take, map, if_cases,
  if◌then◌else◌, Result, ok, err, Error, panic, errno, arith,
}
use svlopp.Utils.{sighup, sigchld, sigint, sigterm}
use svlopp.Os.{Os, SigSet, Call, is_plain, EpollReply, ready, epoll_failed}
use svlopp.Control.{
  ReadReply, Decoded, command, no_command, rejected, io, invalid_command, ControlOp,
}
use svlopp.Signalfd.{SignalRead, read_signalfd_batch}
use svlopp.Signalfd.Siginfo.{SignalfdSiginfo, signal}
use svlopp.Timerfd.{read_timerfd}
use svlopp.Tick.{tick}
use svlopp.ControlOps.{apply_control_op}
use svlopp.Supervisor.State.{Supervisor, flush_status_file, state_is_running, Ends, and_flow-Ends}
use svlopp.Supervisor.Signals.{on_sighup, on_sigchld, on_shutdown, on_signal, on_signals}
use svlopp.Supervisor.Events.{
  after_signal_read, on_sfd, after_timer_read, on_tfd, after_control_read, on_pfd, on_event,
  on_events, after_epoll, round, rounds, id_sfd, id_tfd, id_pfd, siginfo_buf_len,
}

-- What each handler does to the statement. An error that ends `run` is no panic.
pub record IsKept (os : Os) (original_sigset : SigSet) (fuel : ℕ) (P : Supervisor → Type 0)
    (E : Result (Unit {0}) → Supervisor → Type 0) (F : Type 0) : Type 0 where
  pub logged :
      (sv : Supervisor) (c : Call)
      → is_plain c ≡ true
      → P sv
      → P (record sv { history = c ∷ sv.history })
  pub failed : (sv : Supervisor) (e : Error) → e ≢ panic → P sv → E (err e) sv
  pub reloaded : (sv : Supervisor) → P sv → P (on_sighup os original_sigset sv)
  pub reaped : (sv : Supervisor) → P sv → Ends P E F (on_sigchld os fuel sv)
  pub shut : (sv : Supervisor) → P sv → Ends P E F (on_shutdown os sv)
  pub turned :
      (sv : Supervisor)
      → P sv
      → let out = tick os original_sigset sv.registry sv.history in
        P (record sv { registry = out.0; history = out.1 })
  pub requested :
      (sv : Supervisor) (k : ℕ) (op : ControlOp)
      → P sv
      → let out = apply_control_op os sv.registry k op original_sigset sv.history in
        P (record sv { registry = out.1; history = out.2 })

read_signalfd_batch-panic :
    (n : ℕ) (r : SignalRead) (e : Error) → read_signalfd_batch n r ≡ err e → e ≢ panic
unfolding read_signalfd_batch
read_signalfd_batch-panic n r e q p = ground arith

read_timerfd-panic : (r : ReadReply) (e : Error) → read_timerfd r ≡ err e → e ≢ panic
unfolding read_timerfd
read_timerfd-panic r e q p = ground arith

module _ (os : Os) (original_sigset : SigSet) (fuel : ℕ) (P : Supervisor → Type 0)
    (E : Result (Unit {0}) → Supervisor → Type 0) (F : Type 0)
    (kept : IsKept os original_sigset fuel P E F) where
  flush-kept : (sv : Supervisor) → P sv → P (flush_status_file sv)
  unfolding flush_status_file
  flush-kept sv v = kept.logged sv _ refl v

  on_signal-Ends :
      (signo : ℕ) (sv : Supervisor) → P sv → Ends P E F (on_signal os original_sigset fuel signo sv)
  unfolding on_signal
  on_signal-Ends signo sv v =
      and_flow-Ends P E F _ _
        (if_cases (Ends P E F) (signo == sigchld) _ _ (λ _. kept.reaped _ reloaded) (λ _. reloaded))
        (λ sv' v'.
          if_cases (Ends P E F) (signo == sigint || signo == sigterm) _ _ (λ _. kept.shut sv' v')
            (λ _. v'))
    where
      reloaded : P (
          if signo == sighup && state_is_running sv.sv_state
          then on_sighup os original_sigset sv
          else sv)
      reloaded =
          if_cases P (signo == sighup && state_is_running sv.sv_state) _ _ (λ _. kept.reloaded sv v)
            (λ _. v)

  on_signals-Ends :
      (signals : List ℕ) (sv : Supervisor)
      → P sv
      → Ends P E F (on_signals os original_sigset fuel signals sv)
  unfolding on_signals
  on_signals-Ends [] sv v = v
  on_signals-Ends (signo ∷ rest) sv v =
      and_flow-Ends P E F _ _ (on_signal-Ends signo sv v) (on_signals-Ends rest)

  after_signal_read-Ends :
      (sv : Supervisor) (buf : List SignalfdSiginfo) (r : Result ℕ)
      → ((e : Error) → r ≡ err e → e ≢ panic)
      → P sv
      → Ends P E F (after_signal_read os original_sigset fuel sv buf r)
  unfolding after_signal_read
  after_signal_read-Ends sv buf (err e) n v = kept.failed sv e (n e refl) v
  after_signal_read-Ends sv buf (ok count) n v =
      and_flow-Ends P E F _ _ (on_signals-Ends (map signal (take count buf)) sv v) flush-kept

  after_timer_read-Ends :
      (sv : Supervisor) (r : Result ℕ)
      → ((e : Error) → r ≡ err e → e ≢ panic)
      → P sv
      → Ends P E F (after_timer_read os original_sigset fuel sv r)
  unfolding after_timer_read
  after_timer_read-Ends sv (err e) n v = kept.failed sv e (n e refl) v
  after_timer_read-Ends sv (ok _) n v = flush-kept _ (kept.turned sv v)

  after_control_read-Ends :
      (sv : Supervisor) (d : Decoded)
      → P sv
      → Ends P E F (after_control_read os original_sigset fuel sv d)
  unfolding after_control_read
  after_control_read-Ends sv (command cmd) v =
      flush-kept _ (kept.requested sv cmd.service_id cmd.op v)
  after_control_read-Ends sv no_command v = v
  after_control_read-Ends sv (rejected (invalid_command e)) v = v
  after_control_read-Ends sv (rejected (io e)) v = kept.failed sv (errno e) (λ q. ground arith) v

  on_event-Ends :
      (id : ℕ) (sv : Supervisor) → P sv → Ends P E F (on_event os original_sigset fuel id sv)
  unfolding on_event on_sfd on_tfd on_pfd
  on_event-Ends id sv v =
      if_cases (Ends P E F) (id == id_sfd) _ _
        (λ _.
          after_signal_read-Ends _ _ _ (read_signalfd_batch-panic siginfo_buf_len _)
            (kept.logged sv _ refl v))
        (λ _.
          if_cases (Ends P E F) (id == id_tfd) _ _
            (λ _. after_timer_read-Ends _ _ (read_timerfd-panic _) (kept.logged sv _ refl v))
            (λ _.
              if_cases (Ends P E F) (id == id_pfd) _ _
                (λ _. after_control_read-Ends _ _ (kept.logged sv _ refl v)) (λ _. v)))

  on_events-Ends :
      (ids : List ℕ) (sv : Supervisor)
      → P sv
      → Ends P E F (on_events os original_sigset fuel ids sv)
  unfolding on_events
  on_events-Ends [] sv v = v
  on_events-Ends (id ∷ rest) sv v =
      and_flow-Ends P E F _ _ (on_event-Ends id sv v) (on_events-Ends rest)

  after_epoll-Ends :
      (sv : Supervisor) (r : EpollReply)
      → P sv
      → Ends P E F (after_epoll os original_sigset fuel sv r)
  unfolding after_epoll
  after_epoll-Ends sv (epoll_failed e) v = kept.failed sv (errno e) (λ q. ground arith) v
  after_epoll-Ends sv (ready ids) v = on_events-Ends ids sv v

  pub rounds-Ends :
      (n : ℕ) (sv : Supervisor) → P sv → Ends P E F (rounds os original_sigset fuel n sv)
  unfolding rounds round
  rounds-Ends zero sv v = v
  rounds-Ends (suc n) sv v =
      and_flow-Ends P E F _ _ (after_epoll-Ends _ _ (kept.logged sv _ refl v)) (rounds-Ends n)
