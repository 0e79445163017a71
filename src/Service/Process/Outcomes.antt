-- ===== src/Service/Process/Outcomes.antt =====
-- All outcomes of starting and of stopping a service.
use svlopp.Prelude.{
  ℕ, ◌≡◌, refl, true, false, ◌⊎◌, inl, inr, Option, none, some, ◌∷◌, Text, arith, nat_beq_iff, ok,
  err, Error, errno,
}
use svlopp.Os.{Os, SigSet, History, Fork, parent, failed, forked, is_child, Keeps, ForkIsFresh}
use svlopp.Service.Types.{ServiceState, running, stopped, stopping}
use svlopp.Service.Methods.{Service, stop_signal, pid, log_file_path}
use svlopp.Service.Process.{
  Outcome, after_fork, do_fork, after_log, open_log, after_devnull, start_service, after_kill,
  stop_in, stop_service,
}

-- A new child runs the service, or nothing but the history changed.
abbrev pub Started : Service → History → Outcome → Type 0
Started s h out =
    ((p : ℕ) × (out.0 ≡ ok tt)
      × (out.1 ≡ record s { state = running p })
      × (is_child p h ≡ false)
      × (is_child p out.2 ≡ true)
      × Keeps h out.2)
    ⊎ ((e : Error) × (out.0 ≡ err e) × (out.1 ≡ s) × Keeps h out.2)

module _ (os : Os) (fresh : ForkIsFresh os) (s : Service) (sigset : SigSet) where
  after_fork-Started :
      (h : History) (r : Fork)
      → os.fork h ≡ r
      → Started s h (after_fork os s r (forked s sigset r ∷ h))
  unfolding after_fork
  after_fork-Started h (parent p) e =
      inl (p, refl, refl, fresh h p e, ground (arith, nat_beq_iff p p), λ q c. ground arith)
  after_fork-Started h (failed x) e = inr (errno x, refl, refl, λ q c. c)

  do_fork-Started : (h : History) → Started s h (do_fork os s sigset h)
  unfolding do_fork
  do_fork-Started h = after_fork-Started h (os.fork h) refl

  after_log-Started : (h : History) (a : Option ℕ) → Started s h (after_log os s sigset a h)
  unfolding after_log
  after_log-Started h none = do_fork-Started h
  after_log-Started h (some x) = inr (errno x, refl, refl, λ q c. c)

  open_log-Started : (h : History) (path : Option Text) → Started s h (open_log os s sigset path h)
  unfolding open_log
  open_log-Started h none = do_fork-Started h
  open_log-Started h (some path) = after_log-Started _ (os.open_log h path)

  after_devnull-Started : (h : History) (a : Option ℕ) → Started s h (after_devnull os s sigset a h)
  unfolding after_devnull
  after_devnull-Started h none = open_log-Started h (log_file_path s)
  after_devnull-Started h (some x) = inr (errno x, refl, refl, λ q c. c)

  -- Where forked pids are fresh, start_service either gives the service a new child's pid and the
  -- state Running, or fails and leaves it as it was; no other child is lost.
  pub start_service-Started : (h : History) → Started s h (start_service os s sigset h)
  unfolding start_service
  start_service-Started h = after_devnull-Started _ (os.open_devnull h)

  pub start_service-Keeps : (h : History) → Keeps h (start_service os s sigset h).2
  start_service-Keeps h q c = elim (start_service-Started h) [
    | inl (p, done, runs, new, made, kept) ↦ kept q c
    | inr (e, refused, same, kept) ↦ kept q c
  ]

module _ (os : Os) where
  pub stop_service-pid :
      (s : Service) (h : History)
      → let out = stop_service os s h in
        (out.1.id ≡ s.id) × (out.1.name ≡ s.name) × (pid out.1 ≡ pid s)
  unfolding stop_service
  stop_service-pid s h = ground arith

  pub stop_service-Keeps : (s : Service) (h : History) → Keeps h (stop_service os s h).2
  unfolding stop_service
  stop_service-Keeps s h p e = ground arith

  pub start_service-name :
      (s : Service) (sigset : SigSet) (h : History)
      → let out = start_service os s sigset h in (out.1.id ≡ s.id) × (out.1.name ≡ s.name)
  unfolding start_service
  start_service-name s sigset h = ground arith

  after_kill-cases :
      (s : Service) (p : ℕ) (answer : Option ℕ) (h : History)
      → let out = after_kill os s p answer h in
        (out.1.state ≡ s.state) ⊎ ((deadline : ℕ) × (out.1.state ≡ stopping p deadline))
  unfolding after_kill
  after_kill-cases s p none h = inr (_, refl)
  after_kill-cases s p (some e) h = inl refl

  stop_in-cases :
      (s : Service) (state : ServiceState) (h : History)
      → let out = stop_in os s state h in
        (out.1.state ≡ s.state)
        ⊎ ((p deadline : ℕ) × (state ≡ running p) × (out.1.state ≡ stopping p deadline))
  unfolding stop_in
  stop_in-cases s (running p) h = elim (after_kill-cases s p (os.kill h p (stop_signal s)) _) [
    | inl e ↦ inl e
    | inr (deadline, e) ↦ inr (p, deadline, refl, e)
  ]
  stop_in-cases s (stopped r) h = inl refl
  stop_in-cases s (stopping p d) h = inl refl

  -- A stop leaves the state, or a running service is stopping with its process.
  pub stop_service-cases :
      (s : Service) (h : History)
      → let out = stop_service os s h in
        (out.1.state ≡ s.state)
        ⊎ ((p deadline : ℕ) × (s.state ≡ running p) × (out.1.state ≡ stopping p deadline))
  unfolding stop_service
  stop_service-cases s h = stop_in-cases s s.state h
