-- ===== src/Examples/StatusFile.antt =====
-- A file system that meets `IsPosix`: a disk of files by path, with one descriptor open at a time,
-- where a write takes at most one byte.
use svlopp.Prelude.{
  ℕ, ◌≡◌, ◌≢◌, refl, arith, ap, take, subst, ◌∙◌, none, some, Option, [], ◌∷◌, ◌++◌, Text, codes,
  nat_eq, list_eq, list_beq_iff,
}
use svlopp.Prelude.Maps.{Map, get, insert, get-insert}
use svlopp.Status.{
  FileSystem, Written, opened, wrote, WriteReply, new_status_file_path, write_status_file,
}
use svlopp.Status.Posix.{IsPosix}
use svlopp.Status.Atomicity.{IsAtomic, write_status_file-IsAtomic}

pub record Disk : Type 0 where
  pub files : Map Text Text
  pub path : Text

abbrev appended : Disk → ℕ → Option Text → Disk
appended d b none = d
appended d b (some t) = record d { files = insert d.path (t ++ b ∷ []) d.files }

abbrev append_one : Text → Disk → Disk × WriteReply
append_one [] d = (d, wrote 0)
append_one (b ∷ bs) d = (appended d b (get d.path d.files), wrote 1)

abbrev moved : Text → Disk → Option Text → Disk × Option ℕ
moved q d none = (d, some 2)
moved q d (some t) = (record d { files = insert q t d.files }, none)

abbrev disk_files : FileSystem Disk
disk_files = record {
  open_path = λ p d. (record { files = insert p [] d.files; path = p }, opened 3);
  write = λ fd buf d. append_one buf d;
  fsync = λ fd d. (d, none);
  rename = λ p q d. moved q d (get p d.files);
  content = λ p d. get p d.files;
  at = λ fd d. some d.path;
}

appended-other :
    (d : Disk) (b : ℕ) (o : Option Text) (q : Text)
    → d.path ≢ q
    → get q (appended d b o).files ≡ get q d.files
appended-other d b none q n = refl
appended-other d b (some t) q n =
    ground (arith, get-insert q d.path (t ++ b ∷ []) d.files, list_beq_iff d.path q)

append_one-other :
    (buf : Text) (d : Disk) (q : Text)
    → d.path ≢ q
    → get q (append_one buf d).0.files ≡ get q d.files
append_one-other [] d q n = refl
append_one-other (b ∷ bs) d q n = appended-other d b (get d.path d.files) q n

appended-grown :
    (d : Disk) (b : ℕ) (o : Option Text) (t : Text)
    → o ≡ some t
    → ((appended d b o).path ≡ d.path) × (get d.path (appended d b o).files ≡ some (t ++ b ∷ []))
appended-grown d b none t e = absurd (ground arith)
appended-grown d b (some t') t e = (
  refl,
  ground (arith, get-insert d.path d.path (t' ++ b ∷ []) d.files, list_beq_iff d.path d.path),
)

disk_files-IsPosix : IsPosix disk_files
disk_files-IsPosix = record {
  open_other = λ p q f n. ground (arith, get-insert q p [] f.files, list_beq_iff p q);
  open_at = λ p f fd e. (refl, ground (arith, get-insert p p [] f.files, list_beq_iff p p));
  write_other = λ fd p q buf f e n. append_one-other buf f q (λ r. n (ground arith));
  write_part = λ fd p t b bs f n e c w.
      let same : f.path ≡ p = ground arith in
      let one : 1 ≡ n = ground arith in
      let (still, grown) =
        appended-grown f b (get f.path f.files) t (ap (λ x. get x f.files) same ∙ c) in
      (
        ground arith,
        ground arith,
        ap some (still ∙ same),
        subst (λ x. get x (appended f b (get f.path f.files)).files ≡ some (t ++ b ∷ [])) same grown
            ∙ ap (λ m. some (t ++ take m (b ∷ bs))) one,
      );
  fsync_same = λ fd q f. refl;
  rename_ok = λ p q t f c e. rw c (ground (arith, get-insert q q t f.files, list_beq_iff q q));
  rename_failed = λ p q f x e. ground arith;
}

abbrev full_disk : Disk
full_disk = record { files = (codes "status", codes "old") ∷ []; path = [] }

-- `Path::with_extension` on a name without a dot.
abbrev add_extension : Text → Text → Text
add_extension path extension = path ++ b'.' ∷ extension

apart : add_extension (codes "status") (codes "tmp") ≢ codes "status"
apart e = absurd (ground arith)

write_status_file-IsAtomic_example :
    let paths = new_status_file_path add_extension (codes "status") in
    (w : Written Disk) × (write_status_file disk_files paths 9 full_disk (codes "web") ≡ some w)
    × IsAtomic disk_files disk_files-IsPosix paths apart
        (disk_files.content (codes "status") full_disk)
        (codes "web")
        w
write_status_file-IsAtomic_example =
    write_status_file-IsAtomic disk_files disk_files-IsPosix add_extension (codes "status") apart 9
      full_disk (codes "web") (omega arith)
