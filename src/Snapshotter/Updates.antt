-- ===== src/Snapshotter/Updates.antt =====
-- rohmu/delta/snapshot.py: `get_snapshot_hashes`, and what `update_snapshot_file_data` does to the
-- tables.
use rohmu.Snapshotter.Removal.{under_digest}
use rohmu.Snapshotter.Tables.{TablesAgree, found→expected, occurrences, file_eq_refl}
use rohmu.Snapshotter.{
  hashes_of, get_snapshot_hashes, at, update_snapshot_file_data, Snapshotter, write_at, update_at,
  SnapshotFile, has_hexdigest, remove_snapshotfile, remove_checked, unindex,
}
use rohmu.Base.{
  String, List, lookup, ℕ, Bool, Dict, ◌<◌, false, ◌≡◌, length, some, arith, ◌∷◌, str_eq, ◌||◌,
  true, none, suc, ap, ok, [], if◌then◌else◌, Bool-cases, ◌∙◌, zero, err, inl, refl, key_error, inr,
  subst, remove,
}

-- Whether a digest is in a list of hashes.
unfoldable pub lists_digest : String → List (String × ℕ) → Bool
lists_digest h [] = false
lists_digest h ((k, size) ∷ hashes) = str_eq k h || lists_digest h hashes

hashes_of-lists :
    (store : List SnapshotFile) (h : String) (r : ℕ) (rs : List ℕ) (d : Dict (List ℕ))
    → lookup h d ≡ some (r ∷ rs)
    → lists_digest h (hashes_of store d) ≡ true
unfolding lists_digest hashes_of lookup
hashes_of-lists store h r rs [] e = absurd (cc e)
hashes_of-lists store h r rs ((k, []) ∷ d) e = hashes_of-lists store h r rs d (later (str_eq k h) e)
  where
    later :
        (c : Bool)
        → (if c then some [] else lookup h d) ≡ some (r ∷ rs)
        → lookup h d ≡ some (r ∷ rs)
    later true e' = absurd (cc e')
    later false e' = e'
hashes_of-lists store h r rs ((k, q ∷ qs) ∷ d) e = elim (Bool-cases (str_eq k h)) [
  | inl b ↦ rw b refl
  | inr b ↦ rw b (
      hashes_of-lists store h r rs d
        (subst (λ c. (if c then some (q ∷ qs) else lookup h d) ≡ some (r ∷ rs)) b e))
]

listed_once :
    (store : List SnapshotFile) (h : String) (i : ℕ) (refs : List ℕ) (d : Dict (List ℕ))
    → lookup h d ≡ some refs
    → occurrences i refs ≡ 1
    → lists_digest h (hashes_of store d) ≡ true
unfolding occurrences
listed_once store h i [] d e one = absurd (omega (arith, one))
listed_once store h i (r ∷ rs) d e one = hashes_of-lists store h r rs d e

-- When the tables agree, the digest of every object that a path leads to is among the hashes.
pub get_snapshot_hashes-lists :
    (s : Snapshotter) (p : String) (i : ℕ)
    → TablesAgree s
    → lookup p s.relative_path_to_snapshotfile ≡ some i
    → has_hexdigest (at i s.store) ≡ true
    → lists_digest (at i s.store).hexdigest (get_snapshot_hashes s) ≡ true
unfolding get_snapshot_hashes
get_snapshot_hashes-lists s p i agree e has =
    let h = (at i s.store).hexdigest in
    let (le, path) = agree.0 p i e in
    let led : lookup (at i s.store).relative_path s.relative_path_to_snapshotfile ≡ some i =
      ap (λ q. lookup q s.relative_path_to_snapshotfile) path ∙ e in
    let (refs, found, one) = under_digest s h i (found→expected s i led has le) agree.1 in
    listed_once s.store h i refs s.hexdigest_to_snapshotfiles found one

at-write :
    (i : ℕ) (g : SnapshotFile) (store : List SnapshotFile)
    → i < length store
    → at i (write_at i g store) ≡ g
unfolding at write_at
at-write i g [] le = absurd (omega arith)
at-write zero g (f ∷ fs) le = refl
at-write (suc i) g (f ∷ fs) le = at-write i g fs (omega arith)

has_named : (f : SnapshotFile) → str_eq f.hexdigest "" ≡ false → has_hexdigest f ≡ true
unfolding has_hexdigest
has_named f e = rw e refl

remove_lost :
    (t : Snapshotter) (i : ℕ) (f : SnapshotFile)
    → at i t.store ≡ f
    → lookup f.relative_path t.relative_path_to_snapshotfile ≡ some i
    → has_hexdigest f ≡ true
    → lookup f.hexdigest t.hexdigest_to_snapshotfiles ≡ none
    → remove_snapshotfile i t ≡ (
      err key_error,
      record t {
        relative_path_to_snapshotfile = remove f.relative_path t.relative_path_to_snapshotfile;
      },
    )
unfolding remove_snapshotfile remove_checked unindex
remove_lost t i f here e has gone = rw (here, e, here, file_eq_refl f, has, gone) refl

-- `update_snapshot_file_data` changes the digest of an object without moving it in the table of
-- digests: when the new digest is not in that table, the object can not be removed any more, since
-- `_remove_snapshotfile` raises a KeyError, after it has taken out the path.
pub remove-update :
    (s : Snapshotter) (p h : String) (i file_size stored_file_size : ℕ)
    → TablesAgree s
    → lookup p s.relative_path_to_snapshotfile ≡ some i
    → str_eq h "" ≡ false
    → lookup h s.hexdigest_to_snapshotfiles ≡ none
    → let t = (update_snapshot_file_data p h file_size stored_file_size s).1 in
      (update_snapshot_file_data p h file_size stored_file_size s).0 ≡ ok tt
      × ((remove_snapshotfile i t).0 ≡ err key_error)
      × ((remove_snapshotfile i t).1.relative_path_to_snapshotfile
          ≡ remove p s.relative_path_to_snapshotfile)
unfolding update_snapshot_file_data update_at
remove-update s p h i file_size stored_file_size agree e named fresh =
    let f = at i s.store in
    let g : SnapshotFile = record f {
      hexdigest = h;
      file_size = file_size;
      stored_file_size = stored_file_size;
    } in
    let t : Snapshotter = record s { store = write_at i g s.store } in
    let (le, path) = agree.0 p i e in
    let led : lookup g.relative_path s.relative_path_to_snapshotfile ≡ some i =
      ap (λ q. lookup q s.relative_path_to_snapshotfile) path ∙ e in
    let lost = remove_lost t i g (at-write i g s.store le) led (has_named g named) fresh in
    rw e (
      refl,
      ap (λ r. r.0) lost,
      ap (λ r. r.1.relative_path_to_snapshotfile) lost
          ∙ ap (λ q. remove q s.relative_path_to_snapshotfile) path,
    )
