-- ===== src/Service/Child.antt =====
-- src/service.rs: the child's side of the fork, `child_exec` and `setup_child_stdio`.
pub mod Plan
pub mod Order
use svlopp.Prelude.{
  ℕ, Option, none, some, List, [], ◌∷◌, ◌++◌, Text, Result, ok, err, map, if◌then◌else◌,
}
use svlopp.Os.{SigSet}
use svlopp.Sys.{
  Kernel, Sys, SysCall, Trace, Fd, ◌>>=◌, ◌>>◌, libc_call, rustix_call, setpgid, setgid, setuid,
  chdir, dup2_stdin, dup2_stdout, dup2_stderr, execvp, execvpe, pure,
}
use svlopp.Signalfd.SigSets.{set_thread_signal_mask}
use svlopp.Service.Config.{UserGroup}
use svlopp.Service.Methods.{Service, user_group, working_directory}

-- The process became the program that the call names, or it left with a code.
pub data ChildEnd : Type 0 where
  became : SysCall → ChildEnd
  left : ℕ → ChildEnd

-- What a child comes to, with the calls that it made.
abbrev pub Child : Type 0
Child = ChildEnd × Trace

-- `if ... .is_err() { libc::_exit(111) }`
abbrev pub or_exit : {A : Type 0} → Result A × Trace → (Trace → Child) → Child
or_exit (ok _, h) next = next h
or_exit (err _, h) next = (left 111, h)

-- The elements' pointers and a null pointer.
abbrev pub c_array : List Text → List (Option Text)
c_array strings = map some strings ++ none ∷ []

-- `argv[0]`; the array is never empty.
abbrev pub first : List (Option Text) → Option Text
first [] = none
first (p ∷ ps) = p

-- `envp` chooses between `execvp` and `execvpe`.
unfoldable pub exec_call : Service → SysCall
exec_call svc =
    let argv = c_array svc.argv in
    elim svc.envp [
      | none ↦ execvp (first argv) argv
      | some env ↦ execvpe (first argv) argv (c_array env)
    ]

module _ (kernel : Kernel) where
  setup_child_stdio : Fd → Option Fd → Sys (Unit {0})
  setup_child_stdio devnull_fd none = do
    rustix_call kernel (dup2_stdin devnull_fd)
    rustix_call kernel (dup2_stdout devnull_fd)
    rustix_call kernel (dup2_stderr devnull_fd)
    pure tt
  setup_child_stdio devnull_fd (some fd) = do
    rustix_call kernel (dup2_stdin devnull_fd)
    rustix_call kernel (dup2_stdout fd)
    rustix_call kernel (dup2_stderr fd)
    pure tt

  change_user : Option UserGroup → (Trace → Child) → Trace → Child
  change_user none next h = next h
  change_user (some ug) next h =
      or_exit (libc_call kernel (setgid ug.gid) h)
        (λ h'. or_exit (libc_call kernel (setuid ug.uid) h') next)

  change_dir : Option Text → (Trace → Child) → Trace → Child
  change_dir none next h = next h
  change_dir (some cwd) next h = or_exit (rustix_call kernel (chdir cwd) h) next

  -- An `exec` that returns has failed.
  exec : Service → Trace → Child
  unfolding exec_call
  exec svc h =
      let call = exec_call svc in if kernel.replaces h call then (became call, h) else (left 127, h)

  unfoldable pub child_exec : Service → SigSet → Fd → Option Fd → Trace → Child
  unfolding setup_child_stdio change_user change_dir exec
  child_exec svc sigset devnull_fd log_fd h =
      or_exit (set_thread_signal_mask kernel sigset h) (λ h1.
        or_exit (rustix_call kernel setpgid h1) (
          change_user (user_group svc) (
            change_dir (working_directory svc)
              (λ h2. or_exit (setup_child_stdio devnull_fd log_fd h2) (exec svc)))))
