-- ===== src/Service/Process/Life.antt =====
-- Starting and stopping a service are steps of its life, at the calls that they make.
use svlopp.Prelude.{ℕ, ◌+◌, ◌≡◌, refl, sym, subst, Option, none, some, ◌∷◌, Text}
use svlopp.Os.{Os, SigSet, History, Fork, Call, parent, failed, forked, killed, clock_read}
use svlopp.Service.Types.{ServiceState, running, stopped, stopping, ServiceStopReason}
use svlopp.Service.Methods.{Service, stop_signal, stop_timeout, log_file_path}
use svlopp.Service.Process.{
  Outcome, after_fork, do_fork, after_log, open_log, after_devnull, start_service, after_kill,
  stop_in, stop_service,
}
use svlopp.Lifecycle.{live, Steps, here, next, call, start, ask, Steps-trans, Passes}

-- A step of the service, where it was stopped, and none of any other.
abbrev pub Goes : Service → History → Outcome → Type 0
Goes s h out =
    ((r : ServiceStopReason)
      → s.state ≡ stopped r
      → Steps (live s.state) h (live out.1.state) out.2)
    × Passes h out.2

module _ (os : Os) (s : Service) (sigset : SigSet) where
  Goes-before : (h : History) (c : Call) (out : Outcome) → Goes s (c ∷ h) out → Goes s h out
  Goes-before h c out (steps, pass) = (
    λ r e. Steps-trans (next here (call c)) (steps r e),
    λ a. Steps-trans (next here (call c)) (pass a),
  )

  after_fork-Goes : (h : History) (r : Fork) → Goes s h (after_fork os s r (forked s sigset r ∷ h))
  unfolding after_fork
  after_fork-Goes h (parent p) = (
    λ r e.
        subst (λ x. Steps (live x) h (live (running p)) (forked s sigset (parent p) ∷ h)) (sym e)
          (next here (start r p s sigset)),
    λ a. next here (call _),
  )
  after_fork-Goes h (failed x) = (λ r e. next here (call _), λ a. next here (call _))

  do_fork-Goes : (h : History) → Goes s h (do_fork os s sigset h)
  unfolding do_fork
  do_fork-Goes h = after_fork-Goes h (os.fork h)

  after_log-Goes :
      (h : History) (c : Call) (a : Option ℕ) → Goes s h (after_log os s sigset a (c ∷ h))
  unfolding after_log
  after_log-Goes h c none = Goes-before h c (do_fork os s sigset (c ∷ h)) (do_fork-Goes (c ∷ h))
  after_log-Goes h c (some x) = (λ r e. next here (call c), λ a. next here (call c))

  open_log-Goes : (h : History) (path : Option Text) → Goes s h (open_log os s sigset path h)
  unfolding open_log
  open_log-Goes h none = do_fork-Goes h
  open_log-Goes h (some path) = after_log-Goes h _ (os.open_log h path)

  after_devnull-Goes :
      (h : History) (c : Call) (a : Option ℕ) → Goes s h (after_devnull os s sigset a (c ∷ h))
  unfolding after_devnull
  after_devnull-Goes h c none =
      Goes-before h c (open_log os s sigset (log_file_path s) (c ∷ h))
        (open_log-Goes (c ∷ h) (log_file_path s))
  after_devnull-Goes h c (some x) = (λ r e. next here (call c), λ a. next here (call c))

  -- Starting a stopped service, whatever comes of it.
  pub start_service-Goes : (h : History) → Goes s h (start_service os s sigset h)
  unfolding start_service
  start_service-Goes h = after_devnull-Goes h _ (os.open_devnull h)

module _ (os : Os) (s : Service) (h : History) where
  -- A step of the service, and none of any other.
  abbrev pub Stops : Outcome → Type 0
  Stops out = Steps (live s.state) h (live out.1.state) out.2 × Passes h out.2

  after_kill-Stops :
      (p : ℕ) (answer : Option ℕ)
      → s.state ≡ running p
      → Stops (after_kill os s p answer (killed p (stop_signal s) answer ∷ h))
  unfolding after_kill
  after_kill-Stops p none e =
      let now = os.now (killed p (stop_signal s) none ∷ h) in
      (
        subst
            (λ x.
              Steps (live x) h (live (stopping p (now + stop_timeout s)))
                (clock_read now ∷ killed p (stop_signal s) none ∷ h))
            (sym e) (next here (ask p (stop_signal s) now (stop_timeout s))),
        λ a. next (next here (call _)) (call _),
      )
  after_kill-Stops p (some x) e = (next here (call _), λ a. next here (call _))

  stop_in-Stops : (state : ServiceState) → s.state ≡ state → Stops (stop_in os s state h)
  unfolding stop_in
  stop_in-Stops (running p) e = after_kill-Stops p (os.kill h p (stop_signal s)) e
  stop_in-Stops (stopped r) e = (here, λ a. here)
  stop_in-Stops (stopping p d) e = (here, λ a. here)

  -- Stopping a service in any state.
  pub stop_service-Stops : Stops (stop_service os s h)
  unfolding stop_service
  stop_service-Stops = stop_in-Stops s.state refl
