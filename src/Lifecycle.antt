-- ===== src/Lifecycle.antt =====
-- The life of a service id, as a specification: the stages and the steps between them.
pub mod Changes
pub mod Registry
use svlopp.Prelude.{ℕ, Bool, true, false, Option, none, some, ◌∷◌, ◌+◌, ok, ◌≡◌, nat_eq, ltb}
use svlopp.Prelude.Maps.{Map, get}
use svlopp.Os.{Call, History, SigSet, parent, forked, killed, clock_read, waited, reaped}
use svlopp.Service.Types.{
  WaitStatus, from_wait_status, ServiceState, stopped, running, stopping, ServiceStopReason,
  never_started, ExitReason, from_exit_reason_and_service_state,
}
use svlopp.Service.Methods.{Service, state_pid}

-- An id was not given yet, has a service in some state, or is used up.
pub data Stage : Type 0 where
  unused : Stage
  live : ServiceState → Stage
  removed : Stage

-- A service is created stopped, or its id is spent on one that could not be created or started; it
-- starts only when it is stopped, as the process that a fork made; it is asked to stop only when it
-- runs, by a signal that the kernel took, and keeps its process; it is stopped only by a report of
-- `waitpid` that this process has ended, which gives the reason; and it is dropped only when it is
-- stopped. Nothing comes after that. A step stands at the calls that it needs: they are made by it,
-- so that no two steps rest on one call. Any other call leaves the id where it is.
pub data Step : Stage → History → Stage → History → Type 0 where
  call : {a : Stage} {h : History} (c : Call) → Step a h a (c ∷ h)
  create : {h : History} → Step unused h (live (stopped never_started)) h
  spend : {h : History} → Step unused h removed h
  start :
      {h : History} (r : ServiceStopReason) (p : ℕ) (s : Service) (sigset : SigSet)
      → Step (live (stopped r)) h (live (running p)) (forked s sigset (parent p) ∷ h)
  ask :
      {h : History} (p sig now timeout : ℕ)
      → Step
          (live (running p))
          h
          (live (stopping p (now + timeout)))
          (clock_read now ∷ killed p sig none ∷ h)
  exit :
      {h : History} (state : ServiceState) (p : ℕ) (status : WaitStatus) (er : ExitReason)
      → state_pid state ≡ some p
      → from_wait_status status ≡ ok (some er)
      → Step
          (live state)
          h
          (live (stopped (from_exit_reason_and_service_state er state)))
          (waited (reaped p status) ∷ h)
  drop : {h : History} (r : ServiceStopReason) → Step (live (stopped r)) h removed h

pub data Steps (a : Stage) (h : History) : Stage → History → Type 0 where
  here : Steps a h a h
  next : {b c : Stage} {h' h'' : History} → Steps a h b h' → Step b h' c h'' → Steps a h c h''

pub Steps-trans :
    {a b : Stage} {h h' : History} {c : Stage} {h'' : History}
    → Steps a h b h'
    → Steps b h' c h''
    → Steps a h c h''
Steps-trans r here = r
Steps-trans r (next q step) = next (Steps-trans r q) step

-- The calls from one history to the other, at which any id may stay where it is.
abbrev pub Passes : History → History → Type 0
Passes h h' = (a : Stage) → Steps a h a h'

pub Passes-call : {h h' : History} (c : Call) → Passes h h' → Passes h (c ∷ h')
Passes-call c pass a = next (pass a) (call c)

pub Passes-trans : {h h' h'' : History} → Passes h h' → Passes h' h'' → Passes h h''
Passes-trans f g a = Steps-trans (f a) (g a)

-- Where an id stands, for its service and whether it was given.
abbrev pub stage_of : Option Service → Bool → Stage
stage_of (some s) given = live s.state
stage_of none true = removed
stage_of none false = unused

-- The view of the registry that the specification has, for the next id to give.
abbrev pub stage : ℕ → Map ℕ Service → ℕ → Stage
stage next_id services k = stage_of (get k services) (ltb k next_id)

-- Every id goes through steps of the specification, at the calls that were made.
abbrev pub Follows : ℕ → Map ℕ Service → History → ℕ → Map ℕ Service → History → Type 0
Follows next_id m h next_id' m' h' = (k : ℕ) → Steps (stage next_id m k) h (stage next_id' m' k) h'
