-- ===== src/Supervisor/SetUp/Masks.antt =====
-- The signals of the loop are blocked before there is any descriptor, and children get the mask
-- from before.
use svlopp.Prelude.{
  ℕ, ◌≡◌, refl, ◌⊎◌, Bool, true, false, none, some, [], ◌∷◌, Result, ok, err, arith,
}
use svlopp.Utils.{sighup, sigchld, sigterm, sigint}
use svlopp.Os.{SigSet}
use svlopp.Sys.{
  rustix_call, set_child_subreaper, Kernel, SysCall, Trace, sigprocmask, sig_block, sigemptyset,
  sigaddset, mkfifo, open_fd, signalfd, timerfd_create, timerfd_settime, epoll_create, epoll_add,
  libc_call, sig_setmask,
}
use svlopp.Sys.Rule.{After, and_sys-After, libc_call-After}
use svlopp.Signalfd.SigSets.{empty, current, add}
use svlopp.Supervisor.SetUp.{Descriptors, handled_signals}

abbrev pub IsIn : ℕ → SigSet → Type 0
IsIn x [] = ⊥
IsIn x (y ∷ s) = (x ≡ y) ⊎ IsIn x s

-- POSIX: `sigaddset` adds the signal, and keeps the others.
pub record AddsSignals (kernel : Kernel) : Type 0 where
  pub adds : (s : SigSet) (x : ℕ) → IsIn x (kernel.with_signal s x)
  pub keeps : (s : SigSet) (x y : ℕ) → IsIn y s → IsIn y (kernel.with_signal s x)

abbrev pub HasSignals : SigSet → Type 0
HasSignals s = IsIn sighup s × IsIn sigchld s × IsIn sigterm s × IsIn sigint s

-- Calls that make a descriptor or watch one.
abbrev pub opens : SysCall → Bool
opens (mkfifo path mode) = true
opens (open_fd path flags) = true
opens (signalfd s flags) = true
opens (timerfd_create flags) = true
opens (timerfd_settime fd interval first) = true
opens epoll_create = true
opens (epoll_add fd id) = true
opens _ = false

abbrev pub changes_mask : SysCall → Bool
changes_mask (sigprocmask how (some s)) = true
changes_mask _ = false

-- No descriptor was made and the mask was not changed.
abbrev pub IsQuiet : Trace → Type 0
IsQuiet [] = Unit
IsQuiet ((call, r) ∷ h) = (opens call ≡ false) × (changes_mask call ≡ false) × IsQuiet h

-- The set was blocked, with success.
abbrev pub IsBlocked : SigSet → Trace → Type 0
IsBlocked s [] = ⊥
IsBlocked s ((call, ok v) ∷ h) = (call ≡ sigprocmask sig_block (some s)) ⊎ IsBlocked s h
IsBlocked s ((call, err e) ∷ h) = IsBlocked s h

-- All descriptors were made with the four signals blocked.
abbrev pub IsOrdered : Trace → Type 0
IsOrdered [] = Unit
IsOrdered ((call, r) ∷ h) =
    (opens call ≡ true → (s : SigSet) × HasSignals s × IsBlocked s h) × IsOrdered h

pub IsQuiet-IsOrdered : (h : Trace) → IsQuiet h → IsOrdered h
IsQuiet-IsOrdered [] q = tt
IsQuiet-IsOrdered ((call, r) ∷ h) (o, c, q) = (λ e. ground arith, IsQuiet-IsOrdered h q)

-- The mask after the first call of the set-up, which changes no mask.
abbrev pub first_mask : Kernel → SigSet
first_mask kernel = kernel.mask (rustix_call kernel (set_child_subreaper 1) []).1

-- The mask of the children is the first one.
abbrev pub IsSetUp : Kernel → Descriptors → Trace → Type 0
IsSetUp kernel d h =
    HasSignals d.sigset
    × IsBlocked d.sigset h
    × IsOrdered h
    × (d.original_sigset ≡ first_mask kernel)

module _ (kernel : Kernel) (posix : AddsSignals kernel) where
  -- A libc call that is quiet.
  libc_call-IsQuiet :
      (call : SysCall) (h : Trace)
      → opens call ≡ false
      → changes_mask call ≡ false
      → IsQuiet h
      → After (λ v h'. IsQuiet h') IsOrdered (libc_call kernel call h)
  libc_call-IsQuiet call h o c q =
      libc_call-After kernel call (λ v h'. IsQuiet h') IsOrdered h (λ v. (o, c, q))
        (λ e. IsQuiet-IsOrdered ((call, err e) ∷ h) (o, c, q))

  abbrev SetAfter : (SigSet → Type 0) → Result SigSet × Trace → Type 0
  SetAfter P = After (λ s h. P s × IsQuiet h) IsOrdered

  add-After :
      (P : SigSet → Type 0) (s : SigSet) (signal : ℕ) (h : Trace)
      → P (kernel.with_signal s signal)
      → IsQuiet h
      → SetAfter P (add kernel s signal h)
  unfolding add
  add-After P s signal h p q =
      and_sys-After (λ v h'. IsQuiet h') _ _ _ _
        (libc_call-IsQuiet (sigaddset s signal) h refl refl q) (λ v h' q'. (p, q'))

  pub handled_signals-After :
      (h : Trace) → IsQuiet h → SetAfter HasSignals (handled_signals kernel h)
  unfolding handled_signals empty
  handled_signals-After h q =
      and_sys-After (λ s h'. Unit × IsQuiet h') _ _ _ _
        (and_sys-After (λ v h'. IsQuiet h') _ _ _ _ (libc_call-IsQuiet sigemptyset h refl refl q)
          (λ v h' q'. (tt, q')))
        (λ s1 h1 (p1, q1).
          and_sys-After _ _ _ _ _ (add-After (IsIn sighup) s1 sighup h1 (posix.adds s1 sighup) q1)
            (λ s2 h2 (p2, q2).
              and_sys-After _ _ _ _ _
                (add-After (λ s. IsIn sighup s × IsIn sigchld s) s2 sigchld h2
                  (posix.keeps s2 _ _ p2, posix.adds s2 sigchld) q2)
                (λ s3 h3 ((p3, r3), q3).
                  and_sys-After _ _ _ _ _
                    (add-After (λ s. IsIn sighup s × IsIn sigchld s × IsIn sigterm s) s3 sigterm h3
                      (posix.keeps s3 _ _ p3, posix.keeps s3 _ _ r3, posix.adds s3 sigterm) q3)
                    (λ s4 h4 ((p4, r4, t4), q4).
                      add-After HasSignals s4 sigint h4
                        (
                          posix.keeps s4 _ _ p4,
                          posix.keeps s4 _ _ r4,
                          posix.keeps s4 _ _ t4,
                          posix.adds s4 sigint,
                        )
                        q4))))

  pub current-After :
      (h : Trace)
      → IsQuiet h
      → After (λ s h'. (s ≡ kernel.mask h) × IsQuiet h') IsOrdered (current kernel h)
  unfolding current
  current-After h q =
      and_sys-After (λ v h'. IsQuiet h') _ _ _ _
        (libc_call-IsQuiet (sigprocmask sig_setmask none) h refl refl q) (λ v h' q'. (refl, q'))
