-- ===== src/Status.antt =====
-- src/status.rs: `StatusFilePath` and `write_status_file`, and src/utils.rs: `write_all`.
pub mod Posix
pub mod Atomicity
use svlopp.Prelude.{
  ℕ, zero, suc, Option, none, some, List, [], ◌∷◌, drop, Text, codes, Result, ok, err, errno,
}

-- The accessors `path` and `tmp_path` are the fields.
pub record StatusFilePath : Type 0 where
  pub path : Text
  pub tmp_path : Text

-- `with_extension` is the one of `std::path::Path`.
abbrev pub new_status_file_path : (Text → Text → Text) → Text → StatusFilePath
new_status_file_path with_extension path = record {
  path = path;
  tmp_path = with_extension path (codes "tmp");
}

-- What `open` returns: a descriptor, or an error number.
pub data OpenReply : Type 0 where
  opened open_failed : ℕ → OpenReply

-- What `write` returns: the number of bytes written, or an error number.
pub data WriteReply : Type 0 where
  wrote write_failed : ℕ → WriteReply

-- The file system, as the calls of the crate rustix change it; an answer `none` is success. `open`
-- is the call with the flags for writing, creating and truncating. `content` is the file at a
-- path, `at` the path of the file that a descriptor has open.
pub record FileSystem {ℓ} (F : Type ℓ) : Type ℓ where
  pub open_path : Text → F → F × OpenReply
  pub write : ℕ → Text → F → F × WriteReply
  pub fsync : ℕ → F → F × Option ℕ
  pub rename : Text → Text → F → F × Option ℕ
  pub content : Text → F → Option Text
  pub at : ℕ → F → Option Text

-- The result of a call sequence, the state that it leaves, and all states on the way, newest first.
abbrev pub Written {ℓ} : Type ℓ → Type ℓ
Written F = Result (Unit {0}) × F × List F

module _ {ℓ} {F : Type ℓ} (fs : FileSystem F) where
  after_write :
      (F → Text → List F → Option (Written F)) → Text → F × WriteReply → List F → Option (Written F)
  after_write loop buf (f, write_failed e) seen = some (err (errno e), f, f ∷ seen)
  after_write loop buf (f, wrote n) seen = loop f (drop n buf) (f ∷ seen)

  -- The loop, with fuel; `none` means that the fuel ran out.
  unfoldable pub write_all : ℕ → ℕ → F → Text → List F → Option (Written F)
  unfolding after_write
  write_all fd zero f buf seen = none
  write_all fd (suc fuel) f [] seen = some (ok tt, f, seen)
  write_all fd (suc fuel) f (b ∷ bs) seen =
      after_write (write_all fd fuel) (b ∷ bs) (fs.write fd (b ∷ bs) f) seen

  after_rename : F × Option ℕ → List F → Written F
  after_rename (f, none) seen = (ok tt, f, f ∷ seen)
  after_rename (f, some e) seen = (err (errno e), f, f ∷ seen)

  module _ (path : StatusFilePath) where
    after_fsync : F × Option ℕ → List F → Written F
    unfolding after_rename
    after_fsync (f, none) seen = after_rename (fs.rename path.tmp_path path.path f) (f ∷ seen)
    after_fsync (f, some e) seen = (err (errno e), f, f ∷ seen)

    after_write_all : ℕ → Written F → Written F
    unfolding after_fsync
    after_write_all fd (ok _, f, seen) = after_fsync (fs.fsync fd f) seen
    after_write_all fd (err e, f, seen) = (err e, f, seen)

    and_write : ℕ → Option (Written F) → Option (Written F)
    unfolding after_write_all
    and_write fd none = none
    and_write fd (some w) = some (after_write_all fd w)

    after_open : ℕ → F × OpenReply → Text → List F → Option (Written F)
    unfolding and_write
    after_open fuel (f, open_failed e) content seen = some (err (errno e), f, f ∷ seen)
    after_open fuel (f, opened fd) content seen =
        and_write fd (write_all fd fuel f content (f ∷ seen))

    unfoldable pub write_status_file : ℕ → F → Text → Option (Written F)
    unfolding after_open
    write_status_file fuel f content =
        after_open fuel (fs.open_path path.tmp_path f) content (f ∷ [])
