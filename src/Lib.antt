-- ===== src/Lib.antt =====
-- svlopp, a minimal service supervisor for Linux: a model of its single process, and what is proved
-- of it.
--
-- The program reads services from a TOML file, forks one process for each, and then waits in an
-- epoll loop on three descriptors: a signalfd (SIGHUP reloads the file, SIGCHLD reaps, SIGINT and
-- SIGTERM shut down), a timerfd of one second (kill deadlines, pending actions) and a FIFO of
-- control requests. All of it shares one `ServiceRegistry`: the services by id, and `pids_map`, the
-- id of each process.
--
-- Files, with the code that they model (paths from the repository's root):
-- - Utils: src/utils.rs `is_crash_signal` and `timestamp`, and the signal numbers of Linux.
-- - Service (Types, Paths, Config, ConfigFile, Methods, Process, Display): src/service.rs lines 36-438 and
--   521-584: exit reasons, stop reasons, states, configuration and the read of its file, `Service`
--   and its methods, `start_service`, `stop_service`, `force_kill_service_process`, the texts of
--   the status file. Service.Display.Reader: a reader of that file, from README's description of
--   it. Service.Child: the child's side of the fork, `child_exec` and `setup_child_stdio`, with the
--   plan that it follows.
-- - Registry: src/service.rs `ServiceRegistry`. Registry.Invariant is what holds of it between two
--   events, Registry.Steps how a start and a stop of one service keep that, Registry.Lookup the
--   lookups by pid.
-- - Lifecycle: the specification of a service id's life, as steps between stages at the calls that
--   they need; Service.Process.Life has a start and a stop as such steps, and the modules called
--   Stages show that each handler, and so every run, follows it.
-- - The modules called Masks: the signal mask that children start with, from the set-up on. Those
--   called Ids: the id generator, which stays a 64-bit number.
-- - Reload: src/service.rs `reload_services`. ControlOps: `apply_control_op`. Reap:
--   `handle_sigchld`.
-- - Control: src/control.rs, the frames of the FIFO, its creation (Control.Fifo) and the texts.
--   Signalfd, Timerfd: the reads of src/signalfd.rs and src/timerfd.rs; Signalfd.Siginfo,
--   Signalfd.SigSets and Timerfd.Create the rest of these files.
-- - Tick: src/main.rs, the timer's branch of the loop. Supervisor: the rest of `run`: Startup,
--   Signals (the signal branch), Events (the three descriptors and the loop), State (what `run`
--   keeps), SetUp (the descriptors). Supervisor.Events.Rule is the rule by which what each handler
--   keeps is kept by every run of the loop. Supervisor.InSync is about the status file beside the
--   registry, Supervisor.Clients about a client that reads it and writes to the FIFO,
--   Supervisor.Restarts and Supervisor.Policies about a restart by request and the end of a
--   process, over the events that these take. Main: `main`, and `run` as the composition of these
--   parts.
-- - Cli: src/cli.rs, the parser of the command line, with the levels of src/logging.rs; Cli.Lines:
--   what a command line gives. Logging: the lines that src/logging.rs lets through.
-- - Status: src/status.rs `StatusFilePath` and `write_status_file`, and src/utils.rs `write_all`,
--   over a file system that is a parameter (`FileSystem`, with the laws `IsPosix`).
-- - Os: the system calls and crates of the loop, as a record of answers. Sys: those that are made
--   once, by the set-up and by a child, with `cvt` of src/utils.rs and a monad for them. Prelude:
--   shared tests, lists, maps and results. Examples: a concrete system, runs of the program on it,
--   and instances of the theorems.
--
-- How the model corresponds to the code:
-- - A function on `&mut` state takes the state and returns it; `io::Result` is `Result` beside the
--   state, so that what was changed before an error stays changed.
-- - System calls and crates are the record `Os`: each answer is a function of the calls made so far
--   (`History`, newest first), and each call is added to the history with its answer. `waitpid`,
--   `fork`, `kill`, the clock and the reads are such answers; the parser of the configuration is a
--   function of the file's text.
-- - `HashMap` is an association list and is iterated in the list's order; the theorems hold for
--   every list, so for every order. `retain` and the loops over the values are one loop.
-- - A path is its text; two paths are equal, as for the derived `==` of `ServiceConfig`, when they
--   have the same components (Service.Paths).
-- - A pid, a signal, an id is a natural number; `nextval` keeps its check against 2^64. `Instant`
--   is a number of nanoseconds without an upper bound.
-- - `fork` is followed in the supervisor; the call holds the copy of the service and the mask that
--   the child starts from, which are the arguments of `child_exec`. Log output is left out: where a
--   log line reads the state, it changes nothing.
-- - `expect` in `from_wait_status` is the error `panic`; the `expect` on the pid of a service that
--   just started has no arm that could be reached (`start_service-Started`).
--
-- Hypotheses, all documented behaviour: `ForkIsFresh` (a forked pid is not that of a child that was
-- not yet reaped), `StatusIsExact` (the methods of rustix's `WaitStatus` agree), `ConfigIsMap` (a
-- parsed map has each name once), `IsFinite` (finitely many children to report), `AddsSignals`
-- (`sigaddset` adds a signal and keeps the others), `IsPosix` (a write changes the file that its
-- descriptor has open, `rename` puts one file at the place of another). Examples.Machine,
-- Examples.Children and Examples.StatusFile have systems that meet them.
--
-- Bounds and fuel: `handle_sigchld` takes fuel, which is enough when it exceeds the number of
-- processes left to report (`handle_sigchld_total`). `rounds n` is the first n rounds of the loop,
-- which has no bound of its own; a round is whole where the fuel is above the kernel's number of
-- processes (`rounds-IsWhole`). `write_all` takes fuel above the length of the text.
--
-- Not modelled: the zeroed `SignalfdSiginfo` that fills the buffer before the first read, and the
-- closing of descriptors. The calls of `svlogg!` are left out of the other components, and the
-- loop's calls of `write_status_file` are one call `status_written` there.
pub mod Prelude
pub mod Utils
pub mod Cli
pub mod Os
pub mod Registry
pub mod Control
pub mod ControlOps
pub mod Reload
pub mod Signalfd
pub mod Timerfd
pub mod Status
pub mod Supervisor
pub mod Examples
pub mod Reap
pub mod Tick
pub mod Service
pub mod Lifecycle
pub mod Sys
pub mod Main
pub mod Logging
