-- ===== src/Signalfd/Bounds.antt =====
-- The batch that `read_signalfd_batch` counts lies within the buffer.
use svlopp.Prelude.{ℕ, ◌*◌, ◌%◌, ◌≤◌, ◌≡◌, ◌≢◌, ◌↔◌, List, nat_eq, arith, ok, err, errno}
use svlopp.Signalfd.Siginfo.{SignalfdSiginfo}
use svlopp.Signalfd.{siginfo_size, siginfo_bytes, read_signalfd_batch, eio}

-- Where the kernel fills at most the buffer, a read gives n signals exactly if it gave n whole
-- records, which lie within the buffer, and any other number of bytes is an error.
pub read_signalfd_batch-fits :
    (capacity sz : ℕ) (buf : List SignalfdSiginfo)
    → sz ≤ capacity * siginfo_size
    → ((n : ℕ)
        → (read_signalfd_batch capacity (siginfo_bytes sz buf) ≡ ok n)
          ↔ ((n ≤ capacity) × (sz ≡ n * siginfo_size)))
      × (sz % siginfo_size ≢ 0
          → read_signalfd_batch capacity (siginfo_bytes sz buf) ≡ err (errno eio))
unfolding read_signalfd_batch
read_signalfd_batch-fits capacity sz buf fits =
    (λ n. (λ e. ground arith, λ (a, b). ground arith), λ odd. ground arith)
