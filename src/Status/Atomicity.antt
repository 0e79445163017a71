-- ===== src/Status/Atomicity.antt =====
-- The status file is replaced as a whole.
use svlopp.Prelude.{
  ℕ, zero, suc, ◌<◌, ◌≡◌, ◌≢◌, codes, ◌⊎◌, inl, inr, refl, sym, ap, ◌∙◌, subst, Option, none, some,
  List, [], ◌∷◌, ◌++◌, take, drop, length, All, Text, Result, ok, err, Error, errno, arith,
  take-append-drop, length-drop,
}
use mathlib.Core.List.{append_assoc, append-nil}
use svlopp.Status.{
  StatusFilePath, new_status_file_path, OpenReply, opened, open_failed, WriteReply, wrote,
  write_failed, FileSystem, Written, after_write, write_all, after_rename, after_fsync,
  after_write_all, and_write, after_open, write_status_file,
}
use svlopp.Status.Posix.{IsPosix}

module _ {ℓ} {F : Type ℓ} (fs : FileSystem F) (posix : IsPosix fs) (path : StatusFilePath)
    (apart : path.tmp_path ≢ path.path) (old : Option Text) where
  abbrev status : F → Option Text
  status f = fs.content path.path f

  -- The descriptor has the temporary file open, which holds the text.
  abbrev Holds : ℕ → F → Text → Type 0
  Holds fd f t = (fs.at fd f ≡ some path.tmp_path) × (fs.content path.tmp_path f ≡ some t)

  -- The file at `path` is still the old one in every state.
  abbrev AreOld : List F → Type 0
  AreOld = All (λ f. status f ≡ old)

  -- What a loop of writes leaves: the old file in place, and, if it succeeds, the whole text in
  -- the temporary file.
  abbrev IsWritten : ℕ → Text → Option (Written F) → Type ℓ
  IsWritten fd whole out =
      (w : Written F) × (out ≡ some w)
      × AreOld w.2
      × (status w.1 ≡ old)
      × (((x : Error) × (w.0 ≡ err x))
          ⊎ ((w.0 ≡ ok tt) × (fs.content path.tmp_path w.1 ≡ some whole)))

  after_write-IsWritten :
      (fd : ℕ) (loop : F → Text → List F → Option (Written F)) (f : F) (t : Text) (b : ℕ)
      (bs : Text) (seen : List F) (out : F × WriteReply)
      → ((f' : F) (t' rest : Text) (now : List F)
          → length rest < length (b ∷ bs)
          → AreOld now
          → status f' ≡ old
          → Holds fd f' t'
          → IsWritten fd (t' ++ rest) (loop f' rest now))
      → fs.write fd (b ∷ bs) f ≡ out
      → AreOld seen
      → status f ≡ old
      → Holds fd f t
      → IsWritten fd (t ++ b ∷ bs) (after_write fs loop (b ∷ bs) out seen)
  unfolding after_write
  after_write-IsWritten fd loop f t b bs seen (f', write_failed x) ih q a st h =
      let st' =
        ap (λ o. status o.0) (sym q)
        ∙ posix.write_other fd path.tmp_path path.path (b ∷ bs) f h.0 apart
        ∙ st in
      (_, refl, (st', a), st', inl (errno x, refl))
  after_write-IsWritten fd loop f t b bs seen (f', wrote n) ih q a st h =
      let st' =
        ap (λ o. status o.0) (sym q)
        ∙ posix.write_other fd path.tmp_path path.path (b ∷ bs) f h.0 apart
        ∙ st in
      let (some_part, within, still, grown) =
        posix.write_part fd path.tmp_path t b bs f n h.0 h.1 (ap (λ o. o.1) q) in
      subst (λ whole. IsWritten fd whole (loop f' (drop n (b ∷ bs)) (f' ∷ seen)))
        (append_assoc t (take n (b ∷ bs)) (drop n (b ∷ bs))
          ∙ ap (λ u. t ++ u) (take-append-drop n (b ∷ bs)))
        (ih f' (t ++ take n (b ∷ bs)) (drop n (b ∷ bs)) (f' ∷ seen)
          (omega (arith, length-drop n (b ∷ bs))) (st', a) st'
          (
            sym (ap (λ o. fs.at fd o.0) q) ∙ still,
            sym (ap (λ o. fs.content path.tmp_path o.0) q) ∙ grown,
          ))

  write_all-IsWritten :
      (fd fuel : ℕ) (f : F) (t buf : Text) (seen : List F)
      → length buf < fuel
      → AreOld seen
      → status f ≡ old
      → Holds fd f t
      → IsWritten fd (t ++ buf) (write_all fs fd fuel f buf seen)
  unfolding write_all
  write_all-IsWritten fd zero f t buf seen lt a st h = absurd (omega arith)
  write_all-IsWritten fd (suc fuel) f t [] seen lt a st h =
      (_, refl, a, st, inr (refl, h.1 ∙ ap some (sym (append-nil t))))
  write_all-IsWritten fd (suc fuel) f t (b ∷ bs) seen lt a st h =
      after_write-IsWritten fd (write_all fs fd fuel) f t b bs seen _
        (λ f' t' rest now l a' st' h'.
          write_all-IsWritten fd fuel f' t' rest now (omega arith) a' st' h')
        refl a st h

  -- The file at `path` is the old or the new one in every state, the new one exactly on success.
  abbrev pub IsAtomic : Text → Written F → Type 0
  IsAtomic content w =
      All (λ f. (status f ≡ old) ⊎ (status f ≡ some content)) w.2
      × (((x : Error) × (w.0 ≡ err x) × (status w.1 ≡ old))
          ⊎ ((w.0 ≡ ok tt) × (status w.1 ≡ some content)))

  AreOld-either :
      (content : Text) (seen : List F)
      → AreOld seen
      → All (λ f. (status f ≡ old) ⊎ (status f ≡ some content)) seen
  AreOld-either content [] a = tt
  AreOld-either content (f ∷ seen) a = (inl a.0, AreOld-either content seen a.1)

  after_rename-IsAtomic :
      (content : Text) (f : F) (out : F × Option ℕ) (seen : List F)
      → fs.rename path.tmp_path path.path f ≡ out
      → fs.content path.tmp_path f ≡ some content
      → status f ≡ old
      → AreOld seen
      → IsAtomic content (after_rename fs out seen)
  unfolding after_rename
  after_rename-IsAtomic content f (f', none) seen q t st a =
      let new =
        sym (ap (λ o. status o.0) q)
        ∙ posix.rename_ok path.tmp_path path.path content f t (ap (λ o. o.1) q) in
      ((inr new, AreOld-either content seen a), inr (refl, new))
  after_rename-IsAtomic content f (f', some x) seen q t st a =
      let same =
        sym (ap (λ o. status o.0) q)
        ∙ posix.rename_failed path.tmp_path path.path f x (ap (λ o. o.1) q)
        ∙ st in
      ((inl same, AreOld-either content seen a), inl (errno x, refl, same))

  after_fsync-IsAtomic :
      (fd : ℕ) (content : Text) (f : F) (out : F × Option ℕ) (seen : List F)
      → fs.fsync fd f ≡ out
      → fs.content path.tmp_path f ≡ some content
      → status f ≡ old
      → AreOld seen
      → IsAtomic content (after_fsync fs path out seen)
  unfolding after_fsync
  after_fsync-IsAtomic fd content f (f', none) seen q t st a =
      let same = sym (ap (λ o. status o.0) q) ∙ posix.fsync_same fd path.path f ∙ st in
      after_rename-IsAtomic content f' _ (f' ∷ seen) refl
        (sym (ap (λ o. fs.content path.tmp_path o.0) q) ∙ posix.fsync_same fd path.tmp_path f ∙ t)
        same (same, a)
  after_fsync-IsAtomic fd content f (f', some x) seen q t st a =
      let same = sym (ap (λ o. status o.0) q) ∙ posix.fsync_same fd path.path f ∙ st in
      ((inl same, AreOld-either content seen a), inl (errno x, refl, same))

  after_write_all-IsAtomic :
      (fd : ℕ) (content : Text) (r : Result (Unit {0})) (f : F) (seen : List F)
      → AreOld seen
      → status f ≡ old
      → ((x : Error) × (r ≡ err x)) ⊎ ((r ≡ ok tt) × (fs.content path.tmp_path f ≡ some content))
      → IsAtomic content (after_write_all fs path fd (r, f, seen))
  unfolding after_write_all
  after_write_all-IsAtomic fd content (err x) f seen a st r =
      (AreOld-either content seen a, inl (x, refl, st))
  after_write_all-IsAtomic fd content (ok _) f seen a st (inl (x, q)) = absurd (ground arith)
  after_write_all-IsAtomic fd content (ok _) f seen a st (inr (q, t)) =
      after_fsync-IsAtomic fd content f _ seen refl t st a

  after_open-IsAtomic :
      (fuel : ℕ) (content : Text) (f : F) (out : F × OpenReply)
      → length content < fuel
      → fs.open_path path.tmp_path f ≡ out
      → status f ≡ old
      → (w : Written F) × (after_open fs path fuel out content (f ∷ []) ≡ some w)
        × IsAtomic content w
  unfolding after_open and_write
  after_open-IsAtomic fuel content f (f', open_failed x) lt q st =
      let same =
        sym (ap (λ o. status o.0) q) ∙ posix.open_other path.tmp_path path.path f apart ∙ st in
      (_, refl, ((inl same, (inl st, tt)), inl (errno x, refl, same)))
  after_open-IsAtomic fuel content f (f', opened fd) lt q st =
      let same =
        sym (ap (λ o. status o.0) q) ∙ posix.open_other path.tmp_path path.path f apart ∙ st in
      let (here, empty) = posix.open_at path.tmp_path f fd (ap (λ o. o.1) q) in
      let (w, e, a, st', r) =
        write_all-IsWritten fd fuel f' [] content (f' ∷ f ∷ []) lt (same, (st, tt)) same
          (
            sym (ap (λ o. fs.at fd o.0) q) ∙ here,
            sym (ap (λ o. fs.content path.tmp_path o.0) q) ∙ empty,
          ) in
      (
        after_write_all fs path fd w,
        ap (and_write fs path fd) e,
        after_write_all-IsAtomic fd content w.0 w.1 w.2 a st' r,
      )

-- On a POSIX file system and with fuel above the length of the text, write_status_file ends, the
-- status file is the old one or the whole new text in every state on the way, and it is the new
-- one if the call succeeds and the old one if it fails.
pub write_status_file-IsAtomic {ℓ} :
    {F : Type ℓ} (fs : FileSystem F) (posix : IsPosix fs) (with_extension : Text → Text → Text)
    (path : Text) (apart : with_extension path (codes "tmp") ≢ path) (fuel : ℕ) (f : F)
    (content : Text)
    → length content < fuel
    → let paths = new_status_file_path with_extension path in
      (w : Written F) × (write_status_file fs paths fuel f content ≡ some w)
      × IsAtomic fs posix paths apart (fs.content path f) content w
unfolding write_status_file
write_status_file-IsAtomic fs posix with_extension path apart fuel f content lt =
    let paths = new_status_file_path with_extension path in
    after_open-IsAtomic fs posix paths apart (fs.content path f) fuel content f
      (fs.open_path paths.tmp_path f) lt refl refl
