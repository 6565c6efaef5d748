-- ===== src/Snapshot/Runs.antt =====
-- rohmu/delta/snapshot.py: a run of `snapshot` keeps the tables of a `Snapshotter` in agreement.
use rohmu.Snapshotter.Removal.{remove_snapshotfile-Removes}
use rohmu.Snapshotter.Addition.{add_snapshotfile-Adds}
use rohmu.Delta.{Progress, add_success, start, add_total}
use rohmu.Snapshot.{
  add_object, on_progress, on_disk, generate, take_opened, take_files, Run, allocate, Progress,
  Disk, Settings, StoredFile, fill_in, forget, unlink, remove_extra_files, on_files, snapshot,
  remove_extra_file, create_missing_directories, difference, paths_of, add_missing_files,
  finish_files, announce_files, collect_files, progressed, link_missing, remove_extra,
  create_missing, after_linking, after_removing, after_creating,
}
use rohmu.Snapshotter.Tables.{expected, TablesAgree, PathsAgree, expected→found}
use rohmu.Snapshotter.{at, SnapshotFile, Snapshotter, allocate}
use rohmu.Base.{
  Method, ℕ, String, ◌++◌, Outcome, List, ◌<◌, arith, None, Option, ◌>>=◌, ◌∷◌, resume, length, [],
  ◌≡◌, length-append, lookup, lt→ltb, ◌≤◌, Bool-cases, ap, ok, suc, some, false, ltb, ◌∙◌, err,
  refl, zero, Bool, inl, diverge, sym, ltb→lt, none, if◌then◌else◌, inr, ltb→ge, Option-cases, pure,
  ◌+◌,
}

-- Whatever a step comes to, tables that agree before it agree behind it.
abbrev pub Keeps : {A : Type 0} → Method Run A → Type 0
Keeps m = (r : Run) → TablesAgree r.snapshotter → TablesAgree (m r).1.snapshotter

Keeps-resume :
    {A B : Type 0} (f : A → Method Run B)
    → ((a : A) → Keeps (f a))
    → (x : Outcome A × Run) → TablesAgree x.1.snapshotter
    → TablesAgree (resume x.0 f x.1).1.snapshotter
Keeps-resume f keeps (ok a, r) agree = keeps a r agree
Keeps-resume f keeps (err e, r) agree = agree
Keeps-resume f keeps (diverge, r) agree = agree

Keeps-bind :
    {A B : Type 0} (m : Method Run A) (f : A → Method Run B)
    → Keeps m
    → ((a : A) → Keeps (f a))
    → Keeps (m >>= f)
Keeps-bind m f keeps next r agree = Keeps-resume f next (m r) (keeps r agree)

at-append :
    (i : ℕ) (store : List SnapshotFile) (f : SnapshotFile)
    → i < length store
    → at i (store ++ f ∷ []) ≡ at i store
unfolding at
at-append i [] f le = absurd (omega arith)
at-append zero (g ∷ store) f le = refl
at-append (suc i) (g ∷ store) f le = at-append i store f (omega arith)

-- The state with one more object, which no path leads to.
abbrev grown : SnapshotFile → Snapshotter → Snapshotter
grown f s = record s { store = s.store ++ f ∷ [] }

expected-grown_in :
    (f : SnapshotFile) (s : Snapshotter) (h : String) (i : ℕ)
    → i < length s.store
    → expected s h i ≡ expected (grown f s) h i
unfolding expected
expected-grown_in f s h i le =
    rw
      (
        at-append i s.store f le,
        lt→ltb i (length s.store) le,
        lt→ltb i (length (s.store ++ f ∷ [])) (omega (arith, length-append s.store (f ∷ []))),
      )
      refl

no_object :
    (s t : Snapshotter) (h : String) (i : ℕ)
    → PathsAgree s
    → t.relative_path_to_snapshotfile ≡ s.relative_path_to_snapshotfile
    → length s.store ≤ i
    → expected t h i ≡ false
no_object s t h i agree paths le = elim (Bool-cases (expected t h i)) [
  | inl x ↦
      let path = (at i t.store).relative_path in
      let led : lookup path s.relative_path_to_snapshotfile ≡ some i =
        ap (λ d. lookup path d) (sym paths) ∙ (expected→found t h i x).0 in
      absurd (omega (arith, (agree path i led).0))
  | inr x ↦ x
]

expected-grown :
    (f : SnapshotFile) (s : Snapshotter) (h : String) (i : ℕ)
    → PathsAgree s
    → expected s h i ≡ expected (grown f s) h i
expected-grown f s h i agree = elim (Bool-cases (ltb i (length s.store))) [
  | inl e ↦ expected-grown_in f s h i (ltb→lt i (length s.store) e)
  | inr e ↦
      let le = ltb→ge i (length s.store) e in
      no_object s s h i agree refl le ∙ sym (no_object s (grown f s) h i agree refl le)
]

TablesAgree-grown : (f : SnapshotFile) (s : Snapshotter) → TablesAgree s → TablesAgree (grown f s)
TablesAgree-grown f s agree = (
  λ p i e.
      let (le, path) = agree.0 p i e in
      (
        omega (arith, length-append s.store (f ∷ []), le),
        ap (λ g. g.relative_path) (at-append i s.store f le) ∙ path,
      ),
  λ h i. agree.1 h i ∙ ap (λ (b : Bool). if b then 1 else 0) (expected-grown f s h i agree.0),
)

add_object-Keeps : (f : SnapshotFile) → Keeps (add_object f)
unfolding add_object allocate
add_object-Keeps f r agree =
    let s = r.snapshotter in
    (add_snapshotfile-Adds (grown f s) (length s.store) (TablesAgree-grown f s agree)
      (omega (arith, length-append s.store (f ∷ [])))).1

on_progress-Keeps : (m : Method Progress None) → Keeps (on_progress m)
unfolding on_progress
on_progress-Keeps m r agree = agree

on_disk-Keeps : (f : Disk → ℕ × Disk) → Keeps (on_disk f)
unfolding on_disk
on_disk-Keeps f r agree = agree

generate-Keeps : (settings : Settings) → Keeps (generate settings)
unfolding generate expected
generate-Keeps settings r agree = agree

take_opened-Keeps :
    (settings : Settings) (f : SnapshotFile) (file : Option StoredFile)
    → Keeps (take_opened settings f file)
unfolding take_opened
take_opened-Keeps settings f none r agree = agree
take_opened-Keeps settings f (some file) r agree =
    let filled = fill_in settings r.snapshotter.min_delta_file_size file f in
    Keeps-bind (add_object filled) (λ _. on_progress (add_success 1)) (add_object-Keeps filled)
      (λ _. on_progress-Keeps (add_success 1)) r agree

take_files-Keeps : (settings : Settings) (fs : List SnapshotFile) → Keeps (take_files settings fs)
unfolding take_files
take_files-Keeps settings [] r agree = agree
take_files-Keeps settings (f ∷ fs) r agree =
    let file = lookup f.relative_path r.disk.dst in
    Keeps-bind (take_opened settings f file) (λ _. take_files settings fs)
      (take_opened-Keeps settings f file) (λ _. take_files-Keeps settings fs) r agree

forget-Keeps :
    (p : String) (s : Snapshotter)
    → TablesAgree s
    → TablesAgree (forget (lookup p s.relative_path_to_snapshotfile) s).1
unfolding forget
forget-Keeps p s agree = elim (Option-cases (lookup p s.relative_path_to_snapshotfile)) [
  | inl e ↦ rw e agree
  | inr (i, e) ↦
      let path = (agree.0 p i e).1 in
      let led : lookup (at i s.store).relative_path s.relative_path_to_snapshotfile ≡ some i =
        ap (λ q. lookup q s.relative_path_to_snapshotfile) path ∙ e in
      rw e ((remove_snapshotfile-Removes s i agree led).1)
]

unlink-Keeps :
    (p : String) (x : Outcome None × Snapshotter) (d : Disk)
    → TablesAgree x.1
    → TablesAgree (unlink p x d).1.0
unfolding unlink
unlink-Keeps p (ok u, s) d agree = agree
unlink-Keeps p (err e, s) d agree = agree
unlink-Keeps p (diverge, s) d agree = agree

extra :
    (x : Outcome None × (Snapshotter × Disk))
    → TablesAgree x.1.0
    → (m : Method (Snapshotter × Disk) ℕ)
    → ((s : Snapshotter × Disk) → TablesAgree s.0 → TablesAgree (m s).1.0)
    → TablesAgree (resume x.0 (λ _. m) x.1).1.0
extra (ok u, s) agree m keeps = keeps s agree
extra (err e, s) agree m keeps = agree
extra (diverge, s) agree m keeps = agree

remove_extra_files-Keeps :
    (ps : List String) (changes : ℕ) (s : Snapshotter × Disk)
    → TablesAgree s.0
    → TablesAgree (remove_extra_files ps changes s).1.0
unfolding remove_extra_files remove_extra_file
remove_extra_files-Keeps [] changes s agree = agree
remove_extra_files-Keeps (p ∷ ps) changes (s, d) agree =
    extra (remove_extra_file p (s, d))
      (unlink-Keeps p (forget (lookup p s.relative_path_to_snapshotfile) s) d
        (forget-Keeps p s agree))
      (remove_extra_files ps (suc changes)) (remove_extra_files-Keeps ps (suc changes))

removing-Keeps : (ps : List String) → Keeps (on_files (remove_extra_files ps 0))
unfolding on_files
removing-Keeps ps r agree = remove_extra_files-Keeps ps 0 (r.snapshotter, r.disk) agree

module _ (settings : Settings) where
  finish_files-Keeps : (n : ℕ) (fs : List SnapshotFile) → Keeps (finish_files settings n fs)
  unfolding finish_files
  finish_files-Keeps n fs r agree =
      Keeps-bind (take_files settings fs) (λ _. pure (n + length fs)) (take_files-Keeps settings fs)
        (λ _ q h. h) r agree

  announce_files-Keeps : (n : ℕ) (fs : List SnapshotFile) → Keeps (announce_files settings n fs)
  unfolding announce_files
  announce_files-Keeps n fs r agree =
      Keeps-bind (on_progress (add_total (length fs))) (λ _. finish_files settings n fs)
        (on_progress-Keeps (add_total (length fs))) (λ _. finish_files-Keeps n fs) r agree

  collect_files-Keeps : (n : ℕ) → Keeps (collect_files settings n)
  unfolding collect_files
  collect_files-Keeps n r agree =
      Keeps-bind (generate settings) (announce_files settings n) (generate-Keeps settings)
        (announce_files-Keeps n) r agree

  progressed-Keeps : (m : Method Run ℕ) → Keeps m → Keeps (progressed settings m)
  unfolding progressed
  progressed-Keeps m keeps r agree =
      Keeps-bind (on_progress (add_success 1)) (λ _. m) (on_progress-Keeps (add_success 1))
        (λ _. keeps) r agree

  link_missing-Keeps : (n : ℕ) → Keeps (link_missing settings n)
  unfolding link_missing after_linking
  link_missing-Keeps n r agree =
      let link_all = add_missing_files (difference (paths_of r.disk.src) (paths_of r.disk.dst)) in
      Keeps-bind (on_disk link_all) (after_linking settings n) (on_disk-Keeps link_all)
        (λ k. progressed-Keeps (collect_files settings (n + k)) (collect_files-Keeps (n + k))) r
        agree

  remove_extra-Keeps : (n : ℕ) → Keeps (remove_extra settings n)
  unfolding remove_extra after_removing
  remove_extra-Keeps n r agree =
      let ps = difference (paths_of r.disk.dst) (paths_of r.disk.src) in
      Keeps-bind (on_files (remove_extra_files ps 0)) (after_removing settings n)
        (removing-Keeps ps)
        (λ k. progressed-Keeps (link_missing settings (n + k)) (link_missing-Keeps (n + k))) r agree

  create_missing-Keeps : Keeps (create_missing settings)
  unfolding create_missing after_creating
  create_missing-Keeps r agree =
      Keeps-bind (on_disk create_missing_directories) (after_creating settings)
        (on_disk-Keeps create_missing_directories)
        (λ k. progressed-Keeps (remove_extra settings k) (remove_extra-Keeps k)) r agree

  -- A run of `snapshot`, from tables that agree, leaves tables that agree, whether it returns or one
  -- of its calls raises.
  pub snapshot-Keeps :
      (r : Run) → TablesAgree r.snapshotter → TablesAgree (snapshot settings r).1.snapshotter
  unfolding snapshot
  snapshot-Keeps r agree =
      Keeps-bind (on_progress (start 3)) (λ _. create_missing settings)
        (on_progress-Keeps (start 3)) (λ _. create_missing-Keeps) r agree
