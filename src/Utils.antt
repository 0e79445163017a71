-- ===== src/Utils.antt =====
-- src/utils.rs, and the signal numbers of Linux that the crates libc and rustix name.
use svlopp.Prelude.{ℕ, Bool, ◌||◌, ◌==◌, nat_eq}

abbrev pub sighup : ℕ
sighup = 1

abbrev pub sigint : ℕ
sigint = 2

abbrev pub sigquit : ℕ
sigquit = 3

abbrev pub sigill : ℕ
sigill = 4

abbrev pub sigabrt : ℕ
sigabrt = 6

abbrev pub sigbus : ℕ
sigbus = 7

abbrev pub sigfpe : ℕ
sigfpe = 8

abbrev pub sigkill : ℕ
sigkill = 9

abbrev pub sigusr1 : ℕ
sigusr1 = 10

abbrev pub sigsegv : ℕ
sigsegv = 11

abbrev pub sigusr2 : ℕ
sigusr2 = 12

abbrev pub sigterm : ℕ
sigterm = 15

abbrev pub sigchld : ℕ
sigchld = 17

unfoldable pub is_crash_signal : ℕ → Bool
is_crash_signal sig =
    sig == sigsegv || sig == sigabrt || sig == sigfpe || sig == sigill || sig == sigbus

-- What `clock_gettime` of the crate rustix returns, for a time that is not before 1970.
pub record Timespec : Type 0 where
  pub tv_sec : ℕ
  pub tv_nsec : ℕ

abbrev pub timestamp : Timespec → ℕ × ℕ
timestamp now = (now.tv_sec, now.tv_nsec)
