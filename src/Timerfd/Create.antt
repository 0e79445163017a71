-- ===== src/Timerfd/Create.antt =====
-- src/timerfd.rs: `create_timerfd_1s_periodic`.
use svlopp.Prelude.{[], ◌∷◌}
use svlopp.Sys.{
  Kernel, Sys, Fd, ◌>>=◌, ◌>>◌, pure, rustix_call, timerfd_create, timerfd_settime, cloexec,
  nonblock,
}

unfoldable pub create_timerfd_1s_periodic : Kernel → Sys Fd
create_timerfd_1s_periodic kernel = do
  fd ← rustix_call kernel (timerfd_create (cloexec ∷ nonblock ∷ []))
  rustix_call kernel (timerfd_settime fd 1 1)
  pure fd
