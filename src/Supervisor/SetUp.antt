-- ===== src/Supervisor/SetUp.antt =====
-- main.rs: the first part of `run`, which makes the descriptors that the loop waits for.
pub mod Masks
pub mod Order
use svlopp.Prelude.{[], ◌∷◌, Text, codes}
use svlopp.Utils.{sighup, sigchld, sigterm, sigint}
use svlopp.Os.{SigSet}
use svlopp.Sys.{
  Kernel, Sys, Fd, ◌>>=◌, ◌>>◌, pure, rustix_call, set_child_subreaper, epoll_create, epoll_add,
  cloexec, nonblock,
}
use svlopp.Signalfd.SigSets.{empty, current, add, block_thread_signals, signalfd}
use svlopp.Control.Fifo.{create_control_fifo}
use svlopp.Timerfd.Create.{create_timerfd_1s_periodic}
use svlopp.Supervisor.Events.{id_sfd, id_tfd, id_pfd}

abbrev pub control_pipe_name : Text
control_pipe_name = codes "control"

pub record Descriptors : Type 0 where
  pub original_sigset : SigSet
  pub sigset : SigSet
  pub sfd : Fd
  pub tfd : Fd
  pub pfd : Fd
  pub wr_pfd : Fd
  pub epfd : Fd

module _ (kernel : Kernel) where
  -- The four signals that the loop handles.
  unfoldable pub handled_signals : Sys SigSet
  handled_signals = do
    none_yet ← empty kernel
    with_hup ← add kernel none_yet sighup
    with_chld ← add kernel with_hup sigchld
    with_term ← add kernel with_chld sigterm
    add kernel with_term sigint

  -- `control` is the path of the FIFO.
  unfoldable pub create_descriptors : Text → SigSet → SigSet → Sys Descriptors
  create_descriptors control original_sigset sigset = do
    fifo ← create_control_fifo kernel control
    sfd ← signalfd kernel sigset (cloexec ∷ nonblock ∷ [])
    tfd ← create_timerfd_1s_periodic kernel
    epfd ← rustix_call kernel epoll_create
    rustix_call kernel (epoll_add sfd id_sfd)
    rustix_call kernel (epoll_add tfd id_tfd)
    rustix_call kernel (epoll_add fifo.0 id_pfd)
    pure (record {
      original_sigset = original_sigset;
      sigset = sigset;
      sfd = sfd;
      tfd = tfd;
      pfd = fifo.0;
      wr_pfd = fifo.1;
      epfd = epfd;
    })

  unfoldable pub set_up : Text → Sys Descriptors
  set_up control = do
    rustix_call kernel (set_child_subreaper 1)
    original_sigset ← current kernel
    sigset ← handled_signals
    block_thread_signals kernel sigset
    create_descriptors control original_sigset sigset
