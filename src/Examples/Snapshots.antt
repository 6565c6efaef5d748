-- ===== src/Examples/Snapshots.antt =====
-- Meters, limited files and snapshots at concrete inputs.
use rohmu.Snapshot.Runs.{snapshot-Keeps}
use rohmu.Snapshot.Required.{gen_snapshot_hashes_required}
use rohmu.Snapshotter.Updates.{lists_digest, get_snapshot_hashes-lists, remove-update}
use rohmu.Snapshotter.Removal.{Removes, remove_snapshotfile-Removes}
use rohmu.Delta.Limits.{read_limited-cut}
use rohmu.Snapshot.Kinds.{stale_digest, yielded_again}
use rohmu.Snapshot.{
  Settings, StoredFile, yielded, fill_in, snapshotfile_from_path, reuse, snapshot, on_progress,
  on_disk, on_files, create_missing_directories, difference, contains, remove_extra_files,
  remove_extra_file, forget, unlink, link, add_missing_files, paths_of, generate,
  gen_snapshot_hashes, gen_loop, gen_one, then_files, old_file, take_files, take_opened, add_object,
  Run, create_missing, after_creating, remove_extra, after_removing, link_missing, after_linking,
  progressed, collect_files, announce_files, finish_files,
}
use rohmu.Snapshotter.Tables.{TablesAgree, TablesAgree-empty}
use rohmu.Snapshotter.Addition.{Adds, add_snapshotfile-Adds}
use rohmu.Snapshotter.{
  SnapshotFile, Snapshotter, add_snapshotfile, new_snapshotter, remove_old, register, index,
  file_eq, at, has_hexdigest, update_snapshot_file_data, remove_snapshotfile, get_snapshot_hashes,
  allocate,
}
use rohmu.Delta.{
  done, finished_successfully, SizeLimitedFile, read_limited, Progress, merge, start, add_total,
  add_success, add_fail, done, assert, new_progress,
}
use rohmu.Base.{
  List, ◌∷◌, pos, none, if◌then◌else◌, true, [], ◌≡◌, false, is_empty, some, ◌≤◌, ◌↔◌, ok, Every,
  negsuc, ℕ, arith, lookup, refl, insert, remove, ◌≢◌, err, key_error, assertion_error, String, ◌⊎◌,
  file_not_found,
}
use rohmu.Delta.Meters.{
  report_all, report, finished_successfully-merge, Report, totals, begin, progress_sound, successes,
  failures, finish,
}

progress_sound_example :
    (5 ≤ 5)
    × (true ≡ true
        → (r : Report) → r ≢ totals 0
        → r ≢ begin 0
        → (report r (record { handled = 5; failed = 1; total = 5; final = true })).0
          ≡ err assertion_error)
unfolding report_all report start add_total add_success add_fail done assert
progress_sound_example =
    progress_sound (begin 3 ∷ totals 2 ∷ successes 5 ∷ failures 1 ∷ finish ∷ [])
      (record { handled = 5; failed = 1; total = 5; final = true }) refl

abbrev meters : List Progress
meters =
    record { handled = 2; failed = 0; total = 2; final = true }
    ∷ record { handled = 3; failed = 0; total = 4; final = true }
    ∷ []

finished_successfully-merge_example :
    finished_successfully (merge meters) ≡ true ↔ Every (λ p. finished_successfully p ≡ true) meters
finished_successfully-merge_example =
    finished_successfully-merge meters (omega arith, (omega arith, tt))

abbrev limited : SizeLimitedFile
limited = record { file = 1 ∷ 2 ∷ 3 ∷ 4 ∷ []; cursor = 1; file_size = 3 }

read_limited-cut_example :
    (read_limited (pos 5) limited
      ≡ (ok (2 ∷ 3 ∷ []), record { file = 1 ∷ 2 ∷ 3 ∷ 4 ∷ []; cursor = 3; file_size = 3 }))
    × (read_limited (negsuc 0) limited
        ≡ (ok (2 ∷ 3 ∷ []), record { file = 1 ∷ 2 ∷ 3 ∷ 4 ∷ []; cursor = 3; file_size = 3 }))
read_limited-cut_example = read_limited-cut limited 5

abbrev known : SnapshotFile
known = record {
  relative_path = "a";
  file_size = 200;
  stored_file_size = 0;
  mtime_ns = 7;
  hexdigest = "d1";
  content_b64 = none;
  should_be_bundled = false;
  missing_ok = true;
}

abbrev before : Snapshotter
before = record (new_snapshotter 0) { store = known ∷ [] }

abbrev after : Snapshotter
after = (add_snapshotfile 0 before).1

add_snapshotfile-Adds_example : Adds (known ∷ []) 0 (add_snapshotfile 0 before)
add_snapshotfile-Adds_example =
    add_snapshotfile-Adds before 0 (TablesAgree-empty before refl refl) (omega arith)

after-TablesAgree : TablesAgree after
after-TablesAgree = add_snapshotfile-Adds_example.1

remove_snapshotfile-Removes_example : Removes after "a" (remove_snapshotfile 0 after)
unfolding add_snapshotfile remove_old register index at has_hexdigest lookup insert
remove_snapshotfile-Removes_example =
    remove_snapshotfile-Removes after 0
      (add_snapshotfile-Adds before 0 (TablesAgree-empty before refl refl) (omega arith)).1 refl

get_snapshot_hashes-lists_example : lists_digest "d1" (get_snapshot_hashes after) ≡ true
unfolding add_snapshotfile remove_old register index at has_hexdigest lookup insert
get_snapshot_hashes-lists_example =
    get_snapshot_hashes-lists after "a" 0
      (add_snapshotfile-Adds before 0 (TablesAgree-empty before refl refl) (omega arith)).1 refl
      refl

remove-update_example :
    ((update_snapshot_file_data "a" "d2" 200 90 after).0 ≡ ok tt)
    × ((remove_snapshotfile 0 (update_snapshot_file_data "a" "d2" 200 90 after).1).0
        ≡ err key_error)
    × ((remove_snapshotfile 0
          (update_snapshot_file_data "a" "d2" 200 90 after).1).1.relative_path_to_snapshotfile
        ≡ remove "a" after.relative_path_to_snapshotfile)
unfolding add_snapshotfile remove_old register index at has_hexdigest lookup insert
remove-update_example =
    remove-update after "a" "d2" 0 200 90
      (add_snapshotfile-Adds before 0 (TablesAgree-empty before refl refl) (omega arith)).1 refl
      refl refl

abbrev settings : Settings
settings = record {
  b64encode = λ bytes. "b";
  hash_hexdigest = λ bytes. if is_empty bytes then "h0" else "h1";
  required_paths = [];
  reuse_old_snapshotfiles = true;
  later = λ src. src;
}

abbrev shrunk : StoredFile
shrunk = record { bytes = 1 ∷ 2 ∷ []; mtime = 8 }

yielded_again_example :
    yielded true (some known) (snapshotfile_from_path "a" true shrunk) ≡ none
    ↔ (◌≡◌ {A = String} "a" "a") × (◌≡◌ {A = ℕ} 200 2) × (◌≡◌ {A = ℕ} 7 8) × (◌≡◌ {A = ℕ} 0 0)
yielded_again_example = yielded_again known "a" true shrunk

abbrev taken : SnapshotFile
taken = record {
  relative_path = "a";
  file_size = 2;
  stored_file_size = 0;
  mtime_ns = 8;
  hexdigest = "d1";
  content_b64 = none;
  should_be_bundled = false;
  missing_ok = true;
}

stale_digest_example :
    ((fill_in settings 0 shrunk taken).hexdigest ≡ "d1")
    × ((fill_in settings 0 shrunk taken).content_b64 ≡ some "b")
unfolding yielded snapshotfile_from_path reuse file_eq
stale_digest_example = stale_digest settings 0 known "a" true shrunk taken refl (omega arith)

abbrev strict : Settings
strict = record settings { required_paths = "a" ∷ [] }

-- The required file "a" is listed, and has gone from the source.
gen_snapshot_hashes_required_example :
    ((p : String)
      → contains p ("a" ∷ []) ≡ true
      → (contains p ("a" ∷ "b" ∷ []) ≡ false) ⊎ (lookup p (("b", shrunk) ∷ []) ≡ none)
      → gen_snapshot_hashes strict after (("b", shrunk) ∷ []) ("a" ∷ "b" ∷ []) ≡ err file_not_found)
    × (((p : String)
          → contains p ("a" ∷ []) ≡ true
          → (contains p ("a" ∷ "b" ∷ []) ≡ true) × (lookup p (("b", shrunk) ∷ []) ≢ none))
        → (fs : List SnapshotFile) × (gen_snapshot_hashes strict after
              (("b", shrunk) ∷ [])
              ("a" ∷ "b" ∷ [])
            ≡ ok fs))
gen_snapshot_hashes_required_example =
    gen_snapshot_hashes_required strict after (("b", shrunk) ∷ []) ("a" ∷ "b" ∷ [])

-- A first snapshot of a tree with one file, into a tree with another: one directory is made, one file
-- goes, one is linked and taken in.
abbrev first_run : Run
first_run = record {
  snapshotter = new_snapshotter 0;
  disk = record {
    src = ("a", shrunk) ∷ [];
    dst = ("c", shrunk) ∷ [];
    src_dirs = "x" ∷ [];
    dst_dirs = [];
  };
  progress = new_progress;
}

first_snapshot : (snapshot settings first_run).0 ≡ ok 4
unfolding create_missing after_creating remove_extra after_removing link_missing after_linking
    progressed collect_files announce_files finish_files snapshot on_progress on_disk on_files start
    add_total add_success assert create_missing_directories difference contains remove_extra_files
    remove_extra_file forget unlink link add_missing_files paths_of generate gen_snapshot_hashes
    gen_loop gen_one then_files yielded old_file snapshotfile_from_path take_files take_opened
    fill_in add_object allocate add_snapshotfile remove_old register at has_hexdigest index lookup
    insert remove
first_snapshot = refl

snapshot-Keeps_example : TablesAgree (snapshot settings first_run).1.snapshotter
snapshot-Keeps_example =
    snapshot-Keeps settings first_run (TablesAgree-empty (new_snapshotter 0) refl refl)
