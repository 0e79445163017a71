-- ===== src/Supervisor/Events/InSync.antt =====
-- The status file and the registry: what the loop has last handed to `write_status_file`.
use svlopp.Prelude.{ℕ, zero, suc, ◌==◌, nat_eq, ◌≡◌, List, [], ◌∷◌, if_cases, Result, ok, err}
use svlopp.Os.{Os, SigSet, History, EpollReply, ready, epoll_failed}
use svlopp.Signalfd.Siginfo.{SignalfdSiginfo}
use svlopp.Control.{Decoded, command, no_command, rejected, io, invalid_command}
use svlopp.Supervisor.State.{
  Supervisor, Flow, continues, exits, out_of_fuel, Ends, and_flow, and_flow-Ends, flush_status_file,
}
use svlopp.Supervisor.Startup.{startup}
use svlopp.Supervisor.Startup.InSync.{startup-IsInSync}
use svlopp.Supervisor.InSync.{IsInSync, flush-IsInSync}
use svlopp.Supervisor.Events.{
  after_signal_read, on_sfd, after_timer_read, on_tfd, after_control_read, on_pfd, on_event,
  on_events, after_epoll, round, rounds, id_sfd, id_tfd, id_pfd,
}

abbrev pub EndsInSync : Flow → Type 0
EndsInSync = Ends IsInSync (λ _ _. Unit) Unit

-- Whatever came before, a flush that follows puts the file in step.
and_flush-EndsInSync :
    (flow : Flow) → EndsInSync (and_flow flow (λ sv. continues (flush_status_file sv)))
and_flush-EndsInSync (continues sv) = flush-IsInSync sv
and_flush-EndsInSync (exits r sv) = tt
and_flush-EndsInSync out_of_fuel = tt

module _ (os : Os) (original_sigset : SigSet) (fuel : ℕ) where
  after_signal_read-EndsInSync :
      (sv : Supervisor) (buf : List SignalfdSiginfo) (r : Result ℕ)
      → EndsInSync (after_signal_read os original_sigset fuel sv buf r)
  unfolding after_signal_read
  after_signal_read-EndsInSync sv buf (err e) = tt
  after_signal_read-EndsInSync sv buf (ok n) = and_flush-EndsInSync _

  after_timer_read-EndsInSync :
      (sv : Supervisor) (r : Result ℕ) → EndsInSync (after_timer_read os original_sigset fuel sv r)
  unfolding after_timer_read
  after_timer_read-EndsInSync sv (err e) = tt
  after_timer_read-EndsInSync sv (ok _) = flush-IsInSync _

  after_control_read-EndsInSync :
      (sv : Supervisor) (d : Decoded)
      → IsInSync sv
      → EndsInSync (after_control_read os original_sigset fuel sv d)
  unfolding after_control_read
  after_control_read-EndsInSync sv (command cmd) v = flush-IsInSync _
  after_control_read-EndsInSync sv no_command v = v
  after_control_read-EndsInSync sv (rejected (invalid_command e)) v = v
  after_control_read-EndsInSync sv (rejected (io e)) v = tt

  on_event-EndsInSync :
      (id : ℕ) (sv : Supervisor) → IsInSync sv → EndsInSync (on_event os original_sigset fuel id sv)
  unfolding on_event on_sfd on_tfd on_pfd
  on_event-EndsInSync id sv v =
      if_cases EndsInSync (id == id_sfd) _ _ (λ _. after_signal_read-EndsInSync _ _ _)
        (λ _.
          if_cases EndsInSync (id == id_tfd) _ _ (λ _. after_timer_read-EndsInSync _ _)
            (λ _.
              if_cases EndsInSync (id == id_pfd) _ _ (λ _. after_control_read-EndsInSync _ _ v)
                (λ _. v)))

  on_events-EndsInSync :
      (ids : List ℕ) (sv : Supervisor)
      → IsInSync sv
      → EndsInSync (on_events os original_sigset fuel ids sv)
  unfolding on_events
  on_events-EndsInSync [] sv v = v
  on_events-EndsInSync (id ∷ rest) sv v =
      and_flow-Ends IsInSync (λ _ _. Unit) Unit (on_event os original_sigset fuel id sv)
        (on_events os original_sigset fuel rest) (on_event-EndsInSync id sv v)
        (on_events-EndsInSync rest)

  after_epoll-EndsInSync :
      (sv : Supervisor) (r : EpollReply)
      → IsInSync sv
      → EndsInSync (after_epoll os original_sigset fuel sv r)
  unfolding after_epoll
  after_epoll-EndsInSync sv (epoll_failed e) v = tt
  after_epoll-EndsInSync sv (ready ids) v = on_events-EndsInSync ids sv v

  rounds-in_sync :
      (n : ℕ) (sv : Supervisor) → IsInSync sv → EndsInSync (rounds os original_sigset fuel n sv)
  unfolding rounds round
  rounds-in_sync zero sv v = v
  rounds-in_sync (suc n) sv v =
      and_flow-Ends IsInSync (λ _ _. Unit) Unit (round os original_sigset fuel sv)
        (rounds os original_sigset fuel n) (after_epoll-EndsInSync _ _ v) (rounds-in_sync n)

-- After a startup that succeeds, and after any number of rounds of the loop that go on, the text
-- that was last handed to write_status_file is the one that describes the registry as it is then,
-- so that no start, stop, reload, reaped child, turn of the timer or control request leaves the
-- status file behind.
pub rounds-EndsInSync :
    (os : Os) (original_sigset : SigSet) (h : History) (sv : Supervisor) (fuel n : ℕ)
    → startup os original_sigset h ≡ ok sv
    → EndsInSync (rounds os original_sigset fuel n sv)
rounds-EndsInSync os sigset h sv fuel n e =
    rounds-in_sync os sigset fuel n sv (startup-IsInSync os sigset h sv e)
