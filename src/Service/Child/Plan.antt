-- ===== src/Service/Child/Plan.antt =====
-- The child follows a plan: calls in their order, up to the first that fails.
use svlopp.Prelude.{
  arith, nat_eq, ◌≡◌, refl, Option, none, some, List, [], ◌∷◌, ◌++◌, Text, Result, ok, err,
  if◌then◌else◌,
}
use svlopp.Os.{SigSet}
use svlopp.Sys.{
  and_sys, Kernel, SysCall, Trace, Fd, ℤ, libc_call, rustix_call, sigprocmask, sig_setmask, setpgid,
  setgid, setuid, chdir, dup2_stdin, dup2_stdout, dup2_stderr,
}
use svlopp.Signalfd.SigSets.{set_thread_signal_mask}
use svlopp.Service.Config.{UserGroup}
use svlopp.Service.Methods.{Service, user_group, working_directory}
use svlopp.Service.Child.{Child, became, left, exec_call, child_exec}

-- A call by libc, or by the crate rustix.
pub data Step : Type 0 where
  libc rustix : SysCall → Step

abbrev pub call_of : Step → SysCall
call_of (libc call) = call
call_of (rustix call) = call

abbrev pub user_steps : Option UserGroup → List Step
user_steps none = []
user_steps (some ug) = libc (setgid ug.gid) ∷ libc (setuid ug.uid) ∷ []

abbrev pub dir_steps : Option Text → List Step
dir_steps none = []
dir_steps (some cwd) = rustix (chdir cwd) ∷ []

-- Where the output goes: to the log file, if there is one.
abbrev pub output : Fd → Option Fd → Fd
output devnull_fd none = devnull_fd
output devnull_fd (some fd) = fd

-- The mask, the process group, the group before the user, the directory, and the standard streams.
abbrev pub plan : Service → SigSet → Fd → Option Fd → List Step
plan svc sigset devnull_fd log_fd =
    libc (sigprocmask sig_setmask (some sigset))
    ∷ rustix setpgid
    ∷ (user_steps (user_group svc)
        ++ dir_steps (working_directory svc)
        ++ rustix (dup2_stdin devnull_fd)
          ∷ rustix (dup2_stdout (output devnull_fd log_fd))
          ∷ rustix (dup2_stderr (output devnull_fd log_fd))
          ∷ [])

module _ (kernel : Kernel) where
  abbrev pub make : Step → Trace → Result ℤ × Trace
  make (libc call) h = libc_call kernel call h
  make (rustix call) h = rustix_call kernel call h

  -- The calls in turn, then the program; the first failure ends the child.
  abbrev pub follow : List Step → SysCall → Trace → Child
  follow [] program h = if kernel.replaces h program then (became program, h) else (left 127, h)
  follow (step ∷ steps) program h =
      let (result, h') = make step h in
      elim result [ ok _ ↦ follow steps program h' | err _ ↦ (left 111, h') ]

  -- The child does the same as the plan that is written as a list of calls: the mask, the process
  -- group, the group and then the user, the directory, stdin from /dev/null, stdout and stderr to
  -- the log file or /dev/null, then the program; the first failure ends it with code 111 and a
  -- failed exec with 127.
  pub child_exec-plan :
      (svc : Service) (sigset : SigSet) (devnull_fd : Fd) (log_fd : Option Fd) (h : Trace)
      → child_exec kernel svc sigset devnull_fd log_fd h
        ≡ follow (plan svc sigset devnull_fd log_fd) (exec_call svc) h
  unfolding child_exec and_sys set_thread_signal_mask
  child_exec-plan svc sigset devnull_fd log_fd h = ground arith

pub make-recorded :
    (kernel : Kernel) (step : Step) (h : Trace)
    → (make kernel step h).1 ≡ (call_of step, (make kernel step h).0) ∷ h
unfolding libc_call rustix_call
make-recorded kernel (libc call) h = refl
make-recorded kernel (rustix call) h = refl
