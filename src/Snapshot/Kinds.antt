-- ===== src/Snapshot/Kinds.antt =====
-- rohmu/delta/snapshot.py: which files a snapshot takes again.
use rohmu.Snapshotter.Tables.{str_eq_refl, option_eq_refl, bool_eq_refl}
use rohmu.Base.{
  ℕ, ◌≡◌, String, str_eq, Bool, ◌&&◌, ◌==◌, true, length, some, ◌≤◌, none, false, ◌↔◌, take_all,
  arith, eq_iff, subst, if◌then◌else◌, some-injective, ==_refl, refl, le→leb,
}
use rohmu.Snapshot.{
  yielded, fill_in, reuse, snapshotfile_from_path, Settings, SnapshotFile, ℕ, StoredFile,
  embedded_file_size,
}
use rohmu.Snapshotter.{file_eq, SnapshotFile}

file_eq-reuse :
    (old f : SnapshotFile)
    → file_eq old (reuse old f) ≡ (
        str_eq old.relative_path f.relative_path
        && old.file_size == f.file_size
        && old.stored_file_size == f.stored_file_size
        && old.mtime_ns == f.mtime_ns)
unfolding file_eq reuse
file_eq-reuse old f =
    rw
      (
        str_eq_refl old.hexdigest,
        option_eq_refl old.content_b64,
        bool_eq_refl old.should_be_bundled,
        bool_eq_refl old.missing_ok,
      )
      (ground arith)

none_of_if : (b : Bool) (x : SnapshotFile) → (if b then none else some x) ≡ none → b ≡ true
none_of_if true x e = refl
none_of_if false x e = absurd (cc e)

some_of_if : (b : Bool) (x f : SnapshotFile) → (if b then none else some x) ≡ some f → x ≡ f
some_of_if true x f e = absurd (cc e)
some_of_if false x f e = some-injective x f e

-- With reuse, a file that is there already is passed over exactly when the old one has its path, its
-- size and its time, and nothing has been recorded of its size in the storage.
pub yielded_again :
    (old : SnapshotFile) (p : String) (missing_ok : Bool) (file : StoredFile)
    → yielded true (some old) (snapshotfile_from_path p missing_ok file) ≡ none
      ↔ (old.relative_path ≡ p)
        × (old.file_size ≡ length file.bytes)
        × (old.mtime_ns ≡ file.mtime)
        × (old.stored_file_size ≡ 0)
unfolding yielded snapshotfile_from_path
yielded_again old p missing_ok file =
    rw (file_eq-reuse old (snapshotfile_from_path p missing_ok file)) (
      λ e.
          let same =
            none_of_if
              (str_eq old.relative_path p
                && old.file_size == length file.bytes
                && old.stored_file_size == 0
                && old.mtime_ns == file.mtime)
              (reuse old (snapshotfile_from_path p missing_ok file)) e in
          ((eq_iff old.relative_path p).0 (ground arith), ground arith, ground arith, ground arith),
      λ h.
          rw
            (
              (eq_iff old.relative_path p).1 h.0,
              h.1,
              h.2,
              h.3,
              ==_refl (length file.bytes),
              ==_refl file.mtime,
            )
            refl,
    )

-- With reuse, a file that has changed and is small enough to be embedded keeps the digest of the old
-- file, whatever it was, beside its new contents.
pub stale_digest :
    (settings : Settings) (min_delta_file_size : ℕ) (old : SnapshotFile) (p : String)
    (missing_ok : Bool) (file : StoredFile) (f : SnapshotFile)
    → yielded true (some old) (snapshotfile_from_path p missing_ok file) ≡ some f
    → length file.bytes ≤ 150
    → let g = fill_in settings min_delta_file_size file f in
      (g.hexdigest ≡ old.hexdigest) × (g.content_b64 ≡ some (settings.b64encode file.bytes))
unfolding fill_in yielded reuse snapshotfile_from_path
stale_digest settings min_delta_file_size old p missing_ok file f e small =
    let same =
      some_of_if (file_eq old (reuse old (snapshotfile_from_path p missing_ok file)))
        (reuse old (snapshotfile_from_path p missing_ok file)) f e in
    subst
      (λ f'.
        let g = fill_in settings min_delta_file_size file f' in
        (g.hexdigest ≡ old.hexdigest) × (g.content_b64 ≡ some (settings.b64encode file.bytes)))
      same
      (rw
        (
          le→leb (length file.bytes) embedded_file_size small,
          take_all (length file.bytes) file.bytes (omega arith),
        )
        (refl, refl))
