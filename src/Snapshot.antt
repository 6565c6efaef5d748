-- ===== src/Snapshot.antt =====
-- rohmu/delta/snapshot.py: a run of `Snapshotter.snapshot` over a source and a destination tree, with
-- `Progress` of rohmu/delta/common.py. The trees hold what the globs find, in sorted order. They do not
-- change under the run, but for the source, whose files may be others, or gone, when they are looked at.
pub mod Kinds
pub mod Runs
pub mod Required
use rohmu.Delta.{Progress, add_success, start, add_total}
use rohmu.Snapshotter.{
  Snapshotter, SnapshotFile, at, remove_snapshotfile, file_eq, allocate, add_snapshotfile,
}
use rohmu.Base.{
  Bytes, Dict, ℕ, String, List, Option, Bool, false, ◌∷◌, length, Method, Outcome, some, take,
  str_eq, if◌then◌else◌, ◌++◌, None, ok, insert, lookup, none, [], ◌||◌, remove, ◌>>=◌, ◌+◌, err,
  is_empty, leb, suc, file_not_found, ltb, diverge, not, true, pure,
}

pub record StoredFile : Type 0 where
  pub bytes : Bytes
  pub mtime : ℕ

pub record Disk : Type 0 where
  pub src : Dict StoredFile
  pub dst : Dict StoredFile
  pub src_dirs : List String
  pub dst_dirs : List String

pub record Run : Type 0 where
  pub snapshotter : Snapshotter
  pub disk : Disk
  pub progress : Progress

-- What the snapshotter is given: base64 and the digest of bytes, the required paths, and whether old
-- files are reused; and what others have made of the source when its files are looked at.
pub record Settings : Type 0 where
  pub b64encode : Bytes → String
  pub hash_hexdigest : Bytes → String
  pub required_paths : List String
  pub reuse_old_snapshotfiles : Bool
  pub later : Dict StoredFile → Dict StoredFile

abbrev pub embedded_file_size : ℕ
embedded_file_size = 150

-- `path in paths`
unfoldable pub contains : String → List String → Bool
contains p [] = false
contains p (q ∷ qs) = str_eq p q || contains p qs

unfoldable pub paths_of : Dict StoredFile → List String
paths_of [] = []
paths_of ((p, _) ∷ d) = p ∷ paths_of d

-- `set(ps).difference(qs)`
unfoldable pub difference : List String → List String → List String
difference [] qs = []
difference (p ∷ ps) qs = let rest = difference ps qs in if contains p qs then rest else p ∷ rest

-- `_snapshot_create_missing_directories`
unfoldable pub create_missing_directories : Disk → ℕ × Disk
create_missing_directories d =
    let missing = difference d.src_dirs d.dst_dirs in
    (length missing, record d { dst_dirs = d.dst_dirs ++ missing })

-- One extra file of `_snapshot_remove_extra_files`
unfoldable pub forget : Option ℕ → Method Snapshotter None
forget none s = (ok tt, s)
forget (some i) s = remove_snapshotfile i s

unfoldable pub unlink :
    String → Outcome None × Snapshotter → Disk → Outcome None × (Snapshotter × Disk)
unlink p (ok _, s) d = (ok tt, (s, record d { dst = remove p d.dst }))
unlink p (err e, s) d = (err e, (s, d))
unlink p (diverge, s) d = (diverge, (s, d))

unfoldable pub remove_extra_file : String → Method (Snapshotter × Disk) None
remove_extra_file p (s, d) = unlink p (forget (lookup p s.relative_path_to_snapshotfile) s) d

-- `_snapshot_remove_extra_files`
unfoldable pub remove_extra_files : List String → ℕ → Method (Snapshotter × Disk) ℕ
remove_extra_files [] changes s = (ok changes, s)
remove_extra_files (p ∷ ps) changes s =
    (remove_extra_file p >>= λ _. remove_extra_files ps (suc changes)) s

-- `os.link`: whether the destination has been made, when the source is there and it is not.
unfoldable pub link : String → Option StoredFile → Option StoredFile → Disk → ℕ × Disk
link p none there d = (0, d)
link p (some file) (some old) d = (0, d)
link p (some file) none d = (1, record d { dst = insert p file d.dst })

-- `_snapshot_add_missing_files`
unfoldable pub add_missing_files : List String → Disk → ℕ × Disk
add_missing_files [] d = (0, d)
add_missing_files (p ∷ ps) d =
    let (made, after) = link p (lookup p d.src) (lookup p d.dst) d in
    let (rest, last) = add_missing_files ps after in (made + rest, last)

-- `_snapshotfile_from_path`
unfoldable pub snapshotfile_from_path : String → Bool → StoredFile → SnapshotFile
snapshotfile_from_path p missing_ok file = record {
  relative_path = p;
  file_size = length file.bytes;
  stored_file_size = 0;
  mtime_ns = file.mtime;
  hexdigest = "";
  content_b64 = none;
  should_be_bundled = false;
  missing_ok = missing_ok;
}

-- What is taken over from the old file before the two are compared.
unfoldable pub reuse : SnapshotFile → SnapshotFile → SnapshotFile
reuse old f = record f {
  hexdigest = old.hexdigest;
  content_b64 = old.content_b64;
  should_be_bundled = old.should_be_bundled;
  missing_ok = old.missing_ok;
}

-- What one path yields: none when the old file is the same.
unfoldable pub yielded : Bool → Option SnapshotFile → SnapshotFile → Option SnapshotFile
yielded reused none f = some f
yielded reused (some old) f =
    if reused then (if file_eq old (reuse old f) then none else some (reuse old f)) else some f

unfoldable pub old_file : Snapshotter → Option ℕ → Option SnapshotFile
old_file s none = none
old_file s (some i) = some (at i s.store)

-- The result of the paths that follow, with what one path yields before it.
unfoldable pub then_files :
    Option SnapshotFile → Outcome (List SnapshotFile) → Outcome (List SnapshotFile)
then_files none rest = rest
then_files (some f) (ok fs) = ok (f ∷ fs)
then_files (some f) (err e) = err e
then_files (some f) diverge = diverge

module _ (settings : Settings) where
  -- One path of `_gen_snapshot_hashes`, once its file has been looked for in the source
  unfoldable pub gen_one :
      Snapshotter
      → String
      → Option StoredFile
      → Outcome (List SnapshotFile)
      → Outcome (List SnapshotFile)
  gen_one s p none rest = if contains p settings.required_paths then err file_not_found else rest
  gen_one s p (some file) rest =
      then_files
        (yielded settings.reuse_old_snapshotfiles
          (old_file s (lookup p s.relative_path_to_snapshotfile))
          (snapshotfile_from_path p (not (contains p settings.required_paths)) file))
        rest

  unfoldable pub gen_loop :
      Snapshotter → Dict StoredFile → List String → Outcome (List SnapshotFile)
  gen_loop s src [] = ok []
  gen_loop s src (p ∷ ps) = gen_one s p (lookup p src) (gen_loop s src ps)

  -- `_gen_snapshot_hashes`, as the list of what it yields
  unfoldable pub gen_snapshot_hashes :
      Snapshotter → Dict StoredFile → List String → Outcome (List SnapshotFile)
  gen_snapshot_hashes s src ps =
      if is_empty (difference settings.required_paths ps)
      then gen_loop s src ps
      else err file_not_found

  -- `_cb`: the file is read up to the size that it had.
  unfoldable pub fill_in : ℕ → StoredFile → SnapshotFile → SnapshotFile
  fill_in min_delta_file_size file f =
      let read = take f.file_size file.bytes in
      if leb f.file_size embedded_file_size
      then record f { content_b64 = some (settings.b64encode read) }
      else if ltb f.file_size min_delta_file_size
      then record f { should_be_bundled = true }
      else record f { hexdigest = settings.hash_hexdigest read }

unfoldable pub on_progress : Method Progress None → Method Run None
on_progress m r = let (result, after) = m r.progress in (result, record r { progress = after })

unfoldable pub on_files : {A : Type 0} → Method (Snapshotter × Disk) A → Method Run A
on_files m r =
    let (result, (s, d)) = m (r.snapshotter, r.disk) in
    (result, record r { snapshotter = s; disk = d })

unfoldable pub on_disk : (Disk → ℕ × Disk) → Method Run ℕ
on_disk f r = let (n, d) = f r.disk in (ok n, record r { disk = d })

unfoldable pub add_object : SnapshotFile → Method Run None
add_object f r =
    let (i, s) = allocate f r.snapshotter in
    let (result, after) = add_snapshotfile i s in (result, record r { snapshotter = after })

module _ (settings : Settings) where
  -- `_cb` of a file that is opened in the destination, and `_result_cb`
  unfoldable pub take_opened : SnapshotFile → Option StoredFile → Method Run None
  take_opened f none r = (err file_not_found, r)
  take_opened f (some file) r =
      (add_object (fill_in settings r.snapshotter.min_delta_file_size file f) >>= λ _.
      on_progress (add_success 1))
        r

  -- `parallel_map_to`, one file after the other
  unfoldable pub take_files : List SnapshotFile → Method Run None
  take_files [] r = (ok tt, r)
  take_files (f ∷ fs) r =
      (take_opened f (lookup f.relative_path r.disk.dst) >>= λ _. take_files fs) r

  -- The paths are those of the destination; each file is looked at in the source.
  unfoldable pub generate : Method Run (List SnapshotFile)
  generate r =
      let s : Snapshotter = record r.snapshotter { empty_dirs = r.disk.src_dirs } in
      (
        gen_snapshot_hashes settings s (settings.later r.disk.src) (paths_of r.disk.dst),
        record r { snapshotter = s },
      )

  -- The stages of `snapshot`, the last one first, each with the changes counted before it.
  unfoldable pub finish_files : ℕ → List SnapshotFile → Method Run ℕ
  finish_files changes files r = (take_files files >>= λ _. pure (changes + length files)) r

  unfoldable pub announce_files : ℕ → List SnapshotFile → Method Run ℕ
  announce_files changes files r =
      (on_progress (add_total (length files)) >>= λ _. finish_files changes files) r

  unfoldable pub collect_files : ℕ → Method Run ℕ
  collect_files changes r = (generate >>= announce_files changes) r

  -- `progress.add_success()` before what follows
  unfoldable pub progressed : Method Run ℕ → Method Run ℕ
  progressed m r = (on_progress (add_success 1) >>= λ _. m) r

  unfoldable pub after_linking : ℕ → ℕ → Method Run ℕ
  after_linking changes linked = progressed (collect_files (changes + linked))

  unfoldable pub link_missing : ℕ → Method Run ℕ
  link_missing changes r =
      (on_disk (add_missing_files (difference (paths_of r.disk.src) (paths_of r.disk.dst)))
          >>= after_linking changes)
        r

  unfoldable pub after_removing : ℕ → ℕ → Method Run ℕ
  after_removing changes removed = progressed (link_missing (changes + removed))

  unfoldable pub remove_extra : ℕ → Method Run ℕ
  remove_extra changes r =
      (on_files (remove_extra_files (difference (paths_of r.disk.dst) (paths_of r.disk.src)) 0)
          >>= after_removing changes)
        r

  unfoldable pub after_creating : ℕ → Method Run ℕ
  after_creating made = progressed (remove_extra made)

  unfoldable pub create_missing : Method Run ℕ
  create_missing r = (on_disk create_missing_directories >>= after_creating) r

  -- `snapshot`, once the source has been listed: the number of changes
  unfoldable pub snapshot : Method Run ℕ
  snapshot r = (on_progress (start 3) >>= λ _. create_missing) r
