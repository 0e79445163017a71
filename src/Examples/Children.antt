-- ===== src/Examples/Children.antt =====
-- A child, the set-up and a whole run, on a kernel that grants every call.
use svlopp.Prelude.{ap, ◌≡◌, refl, inl, inr, true, none, some, [], ◌∷◌, Text, codes, ok}
use svlopp.Cli.{CliArgs, info}
use svlopp.Os.{SigSet}
use svlopp.Sys.{Kernel, pos, Trace, and_sys, libc_call, rustix_call, cvt}
use svlopp.Signalfd.SigSets.{empty, current, add, block_thread_signals, signalfd}
use svlopp.Control.Fifo.{create_control_fifo}
use svlopp.Timerfd.Create.{create_timerfd_1s_periodic}
use svlopp.Service.Child.{exec_call, child_exec}
use svlopp.Service.Child.Plan.{plan, follow, child_exec-plan}
use svlopp.Service.Child.Order.{IsPlanned, program_of, child_exec-IsPlanned}
use svlopp.Supervisor.SetUp.{set_up, handled_signals, create_descriptors}
use svlopp.Supervisor.SetUp.Masks.{AddsSignals, first_mask}
use svlopp.Main.{main}
use svlopp.Main.Masks.{set_up-EndsMasked}
use svlopp.Supervisor.Masks.{IsMasked}
use svlopp.Supervisor.State.{Ends}
use svlopp.Supervisor.Events.{rounds}
use svlopp.Supervisor.SetUp.{Descriptors}
use svlopp.Main.Exit.{RanWell, LastRemoved, main-zero}
use svlopp.Examples.Runs.{here, here-IsLawful, web, boot, boot-startup, rounds-down}

abbrev granting : Kernel
granting = record {
  libc = λ h call. (pos 0, 0);
  rustix = λ h call. ok (pos 3);
  replaces = λ h call. true;
  mask = λ h. [];
  no_signals = [];
  with_signal = λ s signal. signal ∷ s;
}

granting-AddsSignals : AddsSignals granting
granting-AddsSignals = record { adds = λ s x. inl refl; keeps = λ s x y i. inr i }

child_exec-plan_example :
    child_exec granting web [] (pos 3) none []
    ≡ follow granting (plan web [] (pos 3) none) (exec_call web) []
child_exec-plan_example = child_exec-plan granting web [] (pos 3) none []

child_exec-IsPlanned_example :
    IsPlanned
      (plan web [] (pos 3) (some (pos 4)))
      (program_of web.argv web.envp)
      []
      (child_exec granting web [] (pos 3) (some (pos 4)) [])
child_exec-IsPlanned_example = child_exec-IsPlanned granting web [] (pos 3) (some (pos 4)) []

abbrev descriptors : Descriptors
descriptors = record {
  original_sigset = [];
  sigset = 2 ∷ 15 ∷ 17 ∷ 1 ∷ [];
  sfd = pos 0;
  tfd = pos 3;
  pfd = pos 3;
  wr_pfd = pos 3;
  epfd = pos 3;
}

abbrev made : Trace
made = (set_up granting (codes "control") []).1

made-result : (set_up granting (codes "control") []).0 ≡ ok descriptors
unfolding set_up handled_signals create_descriptors empty current add block_thread_signals signalfd
    create_control_fifo create_timerfd_1s_periodic and_sys libc_call rustix_call cvt
made-result = refl

made-set_up : set_up granting (codes "control") [] ≡ (ok descriptors, made)
made-set_up = ap (λ r. (r, made)) made-result

set_up-EndsMasked_example :
    Ends
      (IsMasked (first_mask granting))
      (λ r end. IsMasked (first_mask granting) end)
      Unit
      (rounds here [] 3 2 boot)
set_up-EndsMasked_example =
    set_up-EndsMasked here granting granting-AddsSignals (codes "control") descriptors made
      made-set_up boot boot-startup 3 2

abbrev args : CliArgs
args = record { config_path = codes "svlopp.toml"; run_dir = codes "/run/svlopp"; log_level = info }

abbrev join : Text → Text → Text
join path name = path

abbrev finished : Trace
finished = (main here granting join 3 2 args []).1

main-code : (main here granting join 3 2 args []).0 ≡ some 0
unfolding main set_up handled_signals create_descriptors empty current add block_thread_signals
    signalfd create_control_fifo create_timerfd_1s_periodic and_sys libc_call rustix_call cvt
main-code = rw (boot-startup, rounds-down) refl

main-finished : main here granting join 3 2 args [] ≡ (some 0, finished)
main-finished = ap (λ code. (code, finished)) main-code

main-zero_example : ((sigset : SigSet) × RanWell here 3 2 sigset) × LastRemoved args finished
main-zero_example = main-zero here here-IsLawful granting join 3 2 args [] finished main-finished
