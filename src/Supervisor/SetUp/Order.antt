-- ===== src/Supervisor/SetUp/Order.antt =====
-- From the block of the signals on, any call may follow.
use svlopp.Supervisor.SetUp.Masks.{
  first_mask, AddsSignals, HasSignals, IsQuiet, IsBlocked, IsOrdered, IsQuiet-IsOrdered, IsSetUp,
  handled_signals-After, current-After,
}
use svlopp.Prelude.{
  ap, subst, sym, ◌∙◌, if_cases, ◌≡◌, refl, inl, inr, some, List, [], Text, Result, ok, err, arith,
}
use svlopp.Os.{SigSet}
use svlopp.Sys.{
  Kernel, Flag, SysCall, Trace, ℤ, sigprocmask, sig_block, mkfifo, signalfd, rustix_call,
  set_child_subreaper,
}
use svlopp.Sys.Rule.{
  After, After-map, After-made, and_sys-After, libc_call-After, rustix_call-After,
}
use svlopp.Signalfd.SigSets.{empty, current, add, block_thread_signals}
use svlopp.Signalfd.SigSets
use svlopp.Control.Fifo.{or_existing, is_eexist, create_control_fifo}
use svlopp.Timerfd.Create.{create_timerfd_1s_periodic}
use svlopp.Supervisor.SetUp.{Descriptors, create_descriptors, set_up}

module _ (kernel : Kernel) (posix : AddsSignals kernel) where
  module _ (s : SigSet) (has : HasSignals s) where
    -- With the set blocked, any call may follow.
    abbrev IsReady : Trace → Type 0
    IsReady h = IsBlocked s h × IsOrdered h

    rustix_call-IsReady :
        (call : SysCall) (h : Trace)
        → IsReady h
        → After (λ v h'. IsReady h') IsOrdered (rustix_call kernel call h)
    rustix_call-IsReady call h (b, o) =
        rustix_call-After kernel call (λ v h'. IsReady h') IsOrdered h
          (λ v. (inr b, (λ e. (s, has, b), o))) (λ x. (λ e. (s, has, b), o))

    or_existing-After :
        (out : Result ℤ × Trace)
        → After (λ v h'. IsReady h') IsReady out
        → After (λ v h'. IsReady h') IsOrdered (or_existing out)
    or_existing-After (ok v, h) r = r
    or_existing-After (err e, h) r =
        if_cases (After (λ v h'. IsReady h') IsOrdered) (is_eexist e) _ _ (λ _. r) (λ _. r.1)

    create_control_fifo-After :
        (path : Text) (h : Trace)
        → IsReady h
        → After (λ v h'. IsReady h') IsOrdered (create_control_fifo kernel path h)
    unfolding create_control_fifo
    create_control_fifo-After path h r =
        and_sys-After (λ v h'. IsReady h') _ _ _ _
          (or_existing-After _ (
            rustix_call-After kernel (mkfifo path 384) (λ v h'. IsReady h') IsReady h
              (λ v. (inr r.0, (λ e. (s, has, r.0), r.1))) (λ x. (r.0, (λ e. (s, has, r.0), r.1)))))
          (λ u h1 r1.
            and_sys-After (λ v h'. IsReady h') _ _ _ _ (rustix_call-IsReady _ h1 r1)
              (λ rd h2 r2.
                and_sys-After (λ v h'. IsReady h') _ _ _ _ (rustix_call-IsReady _ h2 r2)
                  (λ wr h3 r3. r3)))

    create_timerfd_1s_periodic-After :
        (h : Trace)
        → IsReady h
        → After (λ v h'. IsReady h') IsOrdered (create_timerfd_1s_periodic kernel h)
    unfolding create_timerfd_1s_periodic
    create_timerfd_1s_periodic-After h r =
        and_sys-After (λ v h'. IsReady h') _ _ _ _ (rustix_call-IsReady _ h r)
          (λ fd h1 r1.
            and_sys-After (λ v h'. IsReady h') _ _ _ _ (rustix_call-IsReady _ h1 r1)
              (λ v h2 r2. r2))

    signalfd-After :
        (flags : List Flag) (h : Trace)
        → IsReady h
        → After (λ v h'. IsReady h') IsOrdered (SigSets.signalfd kernel s flags h)
    unfolding SigSets.signalfd
    signalfd-After flags h (b, o) =
        libc_call-After kernel (signalfd s flags) (λ v h'. IsReady h') IsOrdered h
          (λ v. (inr b, (λ e. (s, has, b), o))) (λ x. (λ e. (s, has, b), o))

    abbrev SetUpWith : SigSet → Descriptors → Trace → Type 0
    SetUpWith original d h = (d.original_sigset ≡ original) × (d.sigset ≡ s) × IsReady h

    create_descriptors-After :
        (control : Text) (original : SigSet) (h : Trace)
        → IsReady h
        → After (SetUpWith original) IsOrdered (create_descriptors kernel control original s h)
    unfolding create_descriptors
    create_descriptors-After control original h r =
        and_sys-After (λ v h'. IsReady h') _ _ _ _ (create_control_fifo-After control h r)
          (λ fifo h1 r1.
            and_sys-After (λ v h'. IsReady h') _ _ _ _ (signalfd-After _ h1 r1)
              (λ sfd h2 r2.
                and_sys-After (λ v h'. IsReady h') _ _ _ _ (create_timerfd_1s_periodic-After h2 r2)
                  (λ tfd h3 r3.
                    and_sys-After (λ v h'. IsReady h') _ _ _ _ (rustix_call-IsReady _ h3 r3)
                      (λ epfd h4 r4.
                        and_sys-After (λ v h'. IsReady h') _ _ _ _ (rustix_call-IsReady _ h4 r4)
                          (λ a h5 r5.
                            and_sys-After (λ v h'. IsReady h') _ _ _ _ (rustix_call-IsReady _ h5 r5)
                              (λ b h6 r6.
                                and_sys-After (λ v h'. IsReady h') _ _ _ _
                                  (rustix_call-IsReady _ h6 r6) (λ c h7 r7. (refl, refl, r7))))))))

    block-After :
        (h : Trace)
        → IsQuiet h
        → After (λ v h'. IsReady h') IsOrdered (block_thread_signals kernel s h)
    unfolding block_thread_signals
    block-After h q =
        and_sys-After (λ v h'. IsReady h') _ _ _ _
          (libc_call-After kernel (sigprocmask sig_block (some s)) (λ v h'. IsReady h') IsOrdered h
            (λ v. (inl refl, (λ e. ground arith, IsQuiet-IsOrdered h q)))
            (λ x. (λ e. ground arith, IsQuiet-IsOrdered h q)))
          (λ v h' r. r)

  pub set_up-IsSetUp :
      (control : Text) → After (IsSetUp kernel) IsOrdered (set_up kernel control [])
  unfolding set_up
  set_up-IsSetUp control =
      and_sys-After (λ v h. IsQuiet h × (h ≡ (rustix_call kernel (set_child_subreaper 1) []).1)) _ _
        _ _
        (After-made (λ v h. IsQuiet h) IsOrdered (rustix_call kernel (set_child_subreaper 1) [])
          (rustix_call-After kernel (set_child_subreaper 1) (λ v h. IsQuiet h) IsOrdered []
            (λ v. (refl, refl, tt)) (λ e. (λ q. ground arith, tt))))
        (λ v h1 (q1, first).
          and_sys-After (λ o h. (o ≡ kernel.mask h1) × IsQuiet h) _ _ _ _
            (current-After kernel posix h1 q1)
            (λ original h2 (same, q2).
              and_sys-After (λ s h. HasSignals s × IsQuiet h) _ _ _ _
                (handled_signals-After kernel posix h2 q2)
                (λ s h3 (has, q3).
                  and_sys-After (λ u h. IsBlocked s h × IsOrdered h) _ _ _ _
                    (block-After s has h3 q3)
                    (λ u h4 r4. made s has original h4 (same ∙ ap kernel.mask first) r4))))
    where
      made :
          (s : SigSet) (has : HasSignals s) (original : SigSet) (h4 : Trace)
          → original ≡ first_mask kernel
          → IsBlocked s h4 × IsOrdered h4
          → After (IsSetUp kernel) IsOrdered (create_descriptors kernel control original s h4)
      made s has original h4 same r4 =
          After-map (SetUpWith s has original) (IsSetUp kernel) IsOrdered _
            (create_descriptors-After s has control original h4 r4)
            (λ d h (first, second, (b, o)). (
              subst HasSignals (sym second) has,
              subst (λ x. IsBlocked x h) (sym second) b,
              o,
              first ∙ same,
            ))
