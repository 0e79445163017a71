-- ===== src/Sys.antt =====
-- System calls that are made once: by a forked child before it becomes its program, and by the
-- supervisor before its loop. What the kernel answers is a function of the calls made so far; the
-- results are those of src/utils.rs: `cvt` for the functions of libc, of the crate rustix for others.
pub mod Rule
use svlopp.Prelude.{
  ℕ, zero, Bool, true, false, Option, List, ◌∷◌, Text, Result, ok, err, errno, if◌then◌else◌,
}
pub use svlopp.Prelude.{ℤ, pos, negsuc}
use svlopp.Os.{SigSet}

-- `RetCode::is_error`: the value is -1.
abbrev pub is_error : ℤ → Bool
is_error (negsuc zero) = true
is_error _ = false

-- `cvt`, with the value of `errno` after the call.
unfoldable pub cvt : ℤ → ℕ → Result ℤ
cvt ret last_errno = if is_error ret then err (errno last_errno) else ok ret

-- A descriptor.
abbrev pub Fd : Type 0
Fd = ℤ

pub data Flag : Type 0 where
  rdonly wronly cloexec nonblock : Flag

-- How `sigprocmask` changes the mask.
pub data How : Type 0 where
  sig_block sig_setmask : How

-- `timerfd_settime` holds the interval and the first expiry in seconds; `epoll_add` asks for `IN`
-- events. An array of C strings ends with a null pointer, `none`.
pub data SysCall : Type 0 where
  sigemptyset setpgid epoll_create : SysCall
  sigaddset : SigSet → ℕ → SysCall
  sigprocmask : How → Option SigSet → SysCall
  signalfd : SigSet → List Flag → SysCall
  setgid setuid set_child_subreaper : ℕ → SysCall
  chdir remove_dir_all : Text → SysCall
  dup2_stdin dup2_stdout dup2_stderr : Fd → SysCall
  mkfifo mkdir : Text → ℕ → SysCall
  open_fd : Text → List Flag → SysCall
  timerfd_create : List Flag → SysCall
  timerfd_settime : Fd → ℕ → ℕ → SysCall
  epoll_add : Fd → ℕ → SysCall
  execvp : Option Text → List (Option Text) → SysCall
  execvpe : Option Text → List (Option Text) → List (Option Text) → SysCall

-- The calls made and their results, newest first.
abbrev pub Trace : Type 0
Trace = List (SysCall × Result ℤ)

-- `libc` is a returned value with `errno`, `rustix` a result, `replaces` whether an `exec` succeeds,
-- which then does not return. `mask` is the thread's mask, `no_signals` and `with_signal` what
-- `sigemptyset` and `sigaddset` make of a set.
pub record Kernel : Type 0 where
  pub libc : Trace → SysCall → ℤ × ℕ
  pub rustix : Trace → SysCall → Result ℤ
  pub replaces : Trace → SysCall → Bool
  pub mask : Trace → SigSet
  pub no_signals : SigSet
  pub with_signal : SigSet → ℕ → SigSet

-- A function that makes calls and may fail.
abbrev pub Sys : Type 0 → Type 0
Sys A = Trace → Result A × Trace

unfoldable pub and_sys : {A B : Type 0} → Result A × Trace → (A → Sys B) → Result B × Trace
and_sys (ok a, h) next = next a h
and_sys (err e, h) next = (err e, h)

infixl 5 ◌>>=◌ ◌>>◌
abbrev pub ◌>>=◌ : {A B : Type 0} → Sys A → (A → Sys B) → Sys B
(m >>= next) h = and_sys (m h) next

abbrev pub ◌>>◌ : {A B : Type 0} → Sys A → Sys B → Sys B
(m >> next) h = and_sys (m h) (λ _. next)

abbrev pub pure : {A : Type 0} → A → Sys A
pure a h = (ok a, h)

module _ (kernel : Kernel) where
  unfoldable pub libc_call : SysCall → Sys ℤ
  unfolding cvt
  libc_call call h =
      let (ret, last_errno) = kernel.libc h call in
      let result = cvt ret last_errno in (result, (call, result) ∷ h)

  unfoldable pub rustix_call : SysCall → Sys ℤ
  rustix_call call h = let result = kernel.rustix h call in (result, (call, result) ∷ h)
