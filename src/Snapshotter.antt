-- ===== src/Snapshotter.antt =====
-- rohmu/delta/snapshot.py: `Snapshotter`, with the `SnapshotFile` of rohmu/delta/common.py. The
-- snapshot files are objects that are shared and changed in place, so they stand in a store, and the
-- two tables hold their positions in it.
pub mod Tables
pub mod Removal
pub mod Register
pub mod Addition
pub mod Updates
use rohmu.Base.{
  String, Bool, Option, List, ℕ, none, not, true, str_eq, Dict, [], false, ◌∷◌, length, Method,
  insert, ◌&&◌, ◌++◌, if◌then◌else◌, None, lookup, some, suc, ◌==◌, err, ok, ◌>>=◌, zero, key_error,
  value_error, remove, assertion_error, cons_some,
}

pub record SnapshotFile : Type 0 where
  pub relative_path : String
  pub file_size : ℕ
  pub stored_file_size : ℕ
  pub mtime_ns : ℕ
  pub hexdigest : String
  pub content_b64 : Option String
  pub should_be_bundled : Bool
  pub missing_ok : Bool

unfoldable pub bool_eq : Bool → Bool → Bool
bool_eq true b = b
bool_eq false b = not b

unfoldable pub option_eq : Option String → Option String → Bool
option_eq none none = true
option_eq none (some b) = false
option_eq (some a) none = false
option_eq (some a) (some b) = str_eq a b

-- `==` of two models compares all their fields.
unfoldable pub file_eq : SnapshotFile → SnapshotFile → Bool
file_eq f g =
    str_eq f.relative_path g.relative_path
    && f.file_size == g.file_size
    && f.stored_file_size == g.stored_file_size
    && f.mtime_ns == g.mtime_ns
    && str_eq f.hexdigest g.hexdigest
    && option_eq f.content_b64 g.content_b64
    && bool_eq f.should_be_bundled g.should_be_bundled
    && bool_eq f.missing_ok g.missing_ok

pub record Snapshotter : Type 0 where
  pub store : List SnapshotFile
  pub relative_path_to_snapshotfile : Dict ℕ
  pub hexdigest_to_snapshotfiles : Dict (List ℕ)
  pub empty_dirs : List String
  pub min_delta_file_size : ℕ

abbrev pub new_snapshotter : ℕ → Snapshotter
new_snapshotter min_delta_file_size = record {
  store = [];
  relative_path_to_snapshotfile = [];
  hexdigest_to_snapshotfiles = [];
  empty_dirs = [];
  min_delta_file_size = min_delta_file_size;
}

abbrev pub blank : SnapshotFile
blank = record {
  relative_path = "";
  file_size = 0;
  stored_file_size = 0;
  mtime_ns = 0;
  hexdigest = "";
  content_b64 = none;
  should_be_bundled = false;
  missing_ok = true;
}

-- The object at a position of the store; every position in the tables is one of the store.
unfoldable pub at : ℕ → List SnapshotFile → SnapshotFile
at i [] = blank
at zero (f ∷ fs) = f
at (suc i) (f ∷ fs) = at i fs

unfoldable pub write_at : ℕ → SnapshotFile → List SnapshotFile → List SnapshotFile
write_at i g [] = []
write_at zero g (f ∷ fs) = g ∷ fs
write_at (suc i) g (f ∷ fs) = f ∷ write_at i g fs

-- A new object, and where it stands.
unfoldable pub allocate : SnapshotFile → Snapshotter → ℕ × Snapshotter
allocate f s = (length s.store, record s { store = s.store ++ f ∷ [] })

-- `if snapshotfile.hexdigest`
unfoldable pub has_hexdigest : SnapshotFile → Bool
has_hexdigest f = not (str_eq f.hexdigest "")

-- `refs.remove(f)`: the first object equal to f goes; none when there is no such one.
unfoldable pub list_remove : List SnapshotFile → SnapshotFile → List ℕ → Option (List ℕ)
list_remove store f [] = none
list_remove store f (r ∷ rs) =
    let rest = list_remove store f rs in
    if file_eq (at r store) f then some rs else cons_some r rest

unfoldable pub keep_listed : SnapshotFile → Option (List ℕ) → Method Snapshotter None
keep_listed f none s = (err value_error, s)
keep_listed f (some kept) s = (
  ok tt,
  record s { hexdigest_to_snapshotfiles = insert f.hexdigest kept s.hexdigest_to_snapshotfiles },
)

-- `self.hexdigest_to_snapshotfiles[hexdigest].remove(snapshotfile)`
unfoldable pub unindex : SnapshotFile → Option (List ℕ) → Method Snapshotter None
unindex f none s = (err key_error, s)
unindex f (some refs) s = keep_listed f (list_remove s.store f refs) s

unfoldable pub remove_checked : SnapshotFile → Option ℕ → Method Snapshotter None
remove_checked f none s = (err key_error, s)
remove_checked f (some r) s =
    let removed : Snapshotter = record s {
      relative_path_to_snapshotfile = remove f.relative_path s.relative_path_to_snapshotfile;
    } in
    if not (file_eq (at r s.store) f)
    then (err assertion_error, s)
    else if has_hexdigest f
    then unindex f (lookup f.hexdigest s.hexdigest_to_snapshotfiles) removed
    else (ok tt, removed)

-- `_remove_snapshotfile`, of the object at a position
unfoldable pub remove_snapshotfile : ℕ → Method Snapshotter None
remove_snapshotfile i s =
    let f = at i s.store in
    remove_checked f (lookup f.relative_path s.relative_path_to_snapshotfile) s

-- The list that `setdefault(hexdigest, [])` gives.
abbrev pub or_empty : Option (List ℕ) → List ℕ
or_empty none = []
or_empty (some refs) = refs

-- `self.hexdigest_to_snapshotfiles.setdefault(hexdigest, []).append(snapshotfile)`
unfoldable pub index : String → ℕ → Dict (List ℕ) → Dict (List ℕ)
index h i d = insert h (or_empty (lookup h d) ++ i ∷ []) d

unfoldable pub register : ℕ → Snapshotter → Snapshotter
register i s =
    let f = at i s.store in
    let placed : Snapshotter = record s {
      relative_path_to_snapshotfile = insert f.relative_path i s.relative_path_to_snapshotfile;
    } in
    if has_hexdigest f
    then record placed {
      hexdigest_to_snapshotfiles = index f.hexdigest i s.hexdigest_to_snapshotfiles;
    }
    else placed

unfoldable pub remove_old : Option ℕ → Method Snapshotter None
remove_old none s = (ok tt, s)
remove_old (some old) s = remove_snapshotfile old s

-- `_add_snapshotfile`, of the object at a position
unfoldable pub add_snapshotfile : ℕ → Method Snapshotter None
add_snapshotfile i s =
    (remove_old (lookup (at i s.store).relative_path s.relative_path_to_snapshotfile) >>= λ _.
    λ t. (ok tt, register i t))
      s

-- `update_snapshot_file_data`: the object is changed where it stands.
unfoldable pub update_at : Option ℕ → String → ℕ → ℕ → Method Snapshotter None
update_at none hexdigest file_size stored_file_size s = (err key_error, s)
update_at (some i) hexdigest file_size stored_file_size s =
    let g : SnapshotFile = record (at i s.store) {
      hexdigest = hexdigest;
      file_size = file_size;
      stored_file_size = stored_file_size;
    } in
    (ok tt, record s { store = write_at i g s.store })

unfoldable pub update_snapshot_file_data : String → String → ℕ → ℕ → Method Snapshotter None
update_snapshot_file_data path hexdigest file_size stored_file_size s =
    update_at (lookup path s.relative_path_to_snapshotfile) hexdigest file_size stored_file_size s

-- `get_snapshot_hashes`: the digest and the size of the first file for each list that is not empty
unfoldable pub hashes_of : List SnapshotFile → Dict (List ℕ) → List (String × ℕ)
hashes_of store [] = []
hashes_of store ((h, []) ∷ d) = hashes_of store d
hashes_of store ((h, r ∷ rs) ∷ d) = (h, (at r store).file_size) ∷ hashes_of store d

unfoldable pub get_snapshot_hashes : Snapshotter → List (String × ℕ)
get_snapshot_hashes s = hashes_of s.store s.hexdigest_to_snapshotfiles
