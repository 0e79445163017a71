-- ===== src/Status/Posix.antt =====
-- What is relied on of the file system.
use svlopp.Prelude.{ℕ, ◌≤◌, ◌<◌, ◌≡◌, ◌≢◌, none, some, [], ◌∷◌, ◌++◌, take, length, Text}
use svlopp.Status.{opened, wrote, FileSystem}

-- POSIX: a file is opened empty, and opening it touches no other; a write through a descriptor
-- touches its file alone, and of a text that is not empty appends a part that is not empty; `rename`
-- puts the file of the first path at the second one, or fails and changes no file.
pub record IsPosix {ℓ} {F : Type ℓ} (fs : FileSystem F) : Type ℓ where
  pub open_other : (p q : Text) (f : F) → p ≢ q → fs.content q (fs.open_path p f).0 ≡ fs.content q f
  pub open_at :
      (p : Text) (f : F) (fd : ℕ)
      → (fs.open_path p f).1 ≡ opened fd
      → (fs.at fd (fs.open_path p f).0 ≡ some p) × (fs.content p (fs.open_path p f).0 ≡ some [])
  pub write_other :
      (fd : ℕ) (p q buf : Text) (f : F)
      → fs.at fd f ≡ some p
      → p ≢ q
      → fs.content q (fs.write fd buf f).0 ≡ fs.content q f
  pub write_part :
      (fd : ℕ) (p t : Text) (b : ℕ) (bs : Text) (f : F) (n : ℕ)
      → fs.at fd f ≡ some p
      → fs.content p f ≡ some t
      → (fs.write fd (b ∷ bs) f).1 ≡ wrote n
      → (0 < n)
        × (n ≤ length (b ∷ bs))
        × (fs.at fd (fs.write fd (b ∷ bs) f).0 ≡ some p)
        × (fs.content p (fs.write fd (b ∷ bs) f).0 ≡ some (t ++ take n (b ∷ bs)))
  pub fsync_same : (fd : ℕ) (q : Text) (f : F) → fs.content q (fs.fsync fd f).0 ≡ fs.content q f
  pub rename_ok :
      (p q t : Text) (f : F)
      → fs.content p f ≡ some t
      → (fs.rename p q f).1 ≡ none
      → fs.content q (fs.rename p q f).0 ≡ some t
  pub rename_failed :
      (p q : Text) (f : F) (e : ℕ)
      → (fs.rename p q f).1 ≡ some e
      → fs.content q (fs.rename p q f).0 ≡ fs.content q f
