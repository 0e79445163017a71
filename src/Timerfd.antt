-- ===== src/Timerfd.antt =====
-- src/timerfd.rs: `read_timerfd`.
pub mod Create
use svlopp.Prelude.{ℕ, ◌==◌, nat_eq, if◌then◌else◌, length, Result, ok, err, errno}
use svlopp.Control.{ReadReply, bytes_read, read_failed, from_le_bytes}
use svlopp.Signalfd.{eio}

-- `u64::from_ne_bytes` on a little-endian machine; the caller drops the value.
unfoldable pub read_timerfd : ReadReply → Result ℕ
unfolding from_le_bytes
read_timerfd (bytes_read buf) = if length buf == 8 then ok (from_le_bytes buf) else err (errno eio)
read_timerfd (read_failed e) = err (errno e)
