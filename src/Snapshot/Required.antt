-- ===== src/Snapshot/Required.antt =====
-- rohmu/delta/snapshot.py: what `_gen_snapshot_hashes` makes of files that are required.
use rohmu.Snapshotter.Tables.{str_eq_refl}
use rohmu.Base.{
  ◌≡◌, true, is_empty, Option, ok, eq_iff, ◌∷◌, err, lookup, ◌≢◌, false, Bool, file_not_found, none,
  ap, ◌⊎◌, Bool-cases, ◌∙◌, some, if◌then◌else◌, inl, refl, [], ◌||◌, inr, not, sym,
}
use rohmu.Snapshot.{
  Settings, StoredFile, SnapshotFile, gen_snapshot_hashes, String, difference, Snapshotter, str_eq,
  contains, Dict, List, then_files, gen_one, gen_loop, yielded, old_file, snapshotfile_from_path,
}

str_eq→eq : (p q : String) → str_eq p q ≡ true → p ≡ q
str_eq→eq p q h = (eq_iff p q).0 h

either : (a b : Bool) → b ≡ true → (a || b) ≡ true
either true b h = refl
either false b h = h

second : (a b : Bool) → a ≡ false → (a || b) ≡ true → b ≡ true
second true b e h = absurd (cc e)
second false b e h = h

-- Nothing is left of what is required where all of it is listed, and only there.
difference_lem :
    (qs ps : List String) (p : String)
    → is_empty (difference qs ps) ≡ true
    → contains p qs ≡ true
    → contains p ps ≡ true
unfolding difference contains
difference_lem [] ps p none_left among = absurd (cc among)
difference_lem (q ∷ qs) ps p none_left among = elim (Bool-cases (contains q ps)) [
  | inr e ↦ absurd (nonempty (contains q ps) e none_left)
  | inl e ↦ elim (Bool-cases (str_eq p q)) [
    | inl d ↦ ap (λ t. contains t ps) (str_eq→eq p q d) ∙ e
    | inr d ↦
        difference_lem qs ps p (left (contains q ps) e none_left)
          (second (str_eq p q) (contains p qs) d among)
  ]
]
  where
    nonempty :
        (b : Bool)
        → b ≡ false
        → is_empty (if b then difference qs ps else q ∷ difference qs ps) ≡ true
        → ⊥
    nonempty true e h = absurd (cc e)
    nonempty false e h = absurd (cc h)

    left :
        (b : Bool)
        → b ≡ true
        → is_empty (if b then difference qs ps else q ∷ difference qs ps) ≡ true
        → is_empty (difference qs ps) ≡ true
    left true e h = h
    left false e h = absurd (cc e)

difference_all :
    (qs ps : List String)
    → ((p : String) → contains p qs ≡ true → contains p ps ≡ true)
    → is_empty (difference qs ps) ≡ true
unfolding difference contains
difference_all [] ps h = refl
difference_all (q ∷ qs) ps h =
    let listed : contains q ps ≡ true = h q (rw (str_eq_refl q) refl) in
    rw listed (difference_all qs ps (λ p among. h p (either (str_eq p q) (contains p qs) among)))

module _ (settings : Settings) (s : Snapshotter) (src : Dict StoredFile) where
  then_files-err :
      (o : Option SnapshotFile) → then_files o (err file_not_found) ≡ err file_not_found
  unfolding then_files
  then_files-err none = refl
  then_files-err (some f) = refl

  gen_one-err :
      (p : String) (file : Option StoredFile)
      → gen_one settings s p file (err file_not_found) ≡ err file_not_found
  unfolding gen_one
  gen_one-err p none = elim (Bool-cases (contains p settings.required_paths)) [
    | inl e ↦ rw e refl
    | inr e ↦ rw e refl
  ]
  gen_one-err p (some file) = then_files-err (
      yielded settings.reuse_old_snapshotfiles
        (old_file s (lookup p s.relative_path_to_snapshotfile))
        (snapshotfile_from_path p (not (contains p settings.required_paths)) file))

  gen_loop-gone :
      (ps : List String) (p : String)
      → contains p settings.required_paths ≡ true
      → lookup p src ≡ none
      → contains p ps ≡ true
      → gen_loop settings s src ps ≡ err file_not_found
  unfolding gen_loop gen_one contains
  gen_loop-gone [] p required gone among = absurd (cc among)
  gen_loop-gone (q ∷ qs) p required gone among = elim (Bool-cases (str_eq p q)) [
    | inl e ↦
        let at = str_eq→eq p q e in
        rw (sym (ap (λ t. lookup t src) at) ∙ gone)
          (rw (sym (ap (λ t. contains t settings.required_paths) at) ∙ required) refl)
    | inr e ↦
        ap (gen_one settings s q (lookup q src))
          (gen_loop-gone qs p required gone (second (str_eq p q) (contains p qs) e among))
        ∙ gen_one-err q (lookup q src)
  ]

  -- The paths that must be found are found.
  abbrev Found : Type 0
  Found = (p : String) → contains p settings.required_paths ≡ true → lookup p src ≢ none

  gen_one-ok :
      (p : String) (file : Option StoredFile) (fs : List SnapshotFile)
      → (contains p settings.required_paths ≡ true → file ≢ none)
      → (gs : List SnapshotFile) × (gen_one settings s p file (ok fs) ≡ ok gs)
  unfolding gen_one then_files
  gen_one-ok p none fs found = elim (Bool-cases (contains p settings.required_paths)) [
    | inl e ↦ absurd (found e refl)
    | inr e ↦ (fs, rw e refl)
  ]
  gen_one-ok p (some file) fs found =
      prepended
        (yielded settings.reuse_old_snapshotfiles
          (old_file s (lookup p s.relative_path_to_snapshotfile))
          (snapshotfile_from_path p (not (contains p settings.required_paths)) file))
        fs
    where
      prepended :
          (o : Option SnapshotFile) (fs : List SnapshotFile)
          → (gs : List SnapshotFile) × (then_files o (ok fs) ≡ ok gs)
      prepended none fs = (fs, refl)
      prepended (some f) fs = (f ∷ fs, refl)

  gen_loop-ok :
      (ps : List String) → Found → (fs : List SnapshotFile) × (gen_loop settings s src ps ≡ ok fs)
  unfolding gen_loop
  gen_loop-ok [] found = ([], refl)
  gen_loop-ok (p ∷ ps) found =
      let (fs, e) = gen_loop-ok ps found in
      let (gs, d) = gen_one-ok p (lookup p src) fs (found p) in
      (gs, ap (gen_one settings s p (lookup p src)) e ∙ d)

  -- Where a required path is not among the paths that are taken, or its file is no longer in the source when
  -- it is looked at, the generation raises a FileNotFoundError, whatever else there is; where each
  -- required path is among them and in the source, it returns, whatever other files have gone.
  pub gen_snapshot_hashes_required :
      (ps : List String)
      → ((p : String)
          → contains p settings.required_paths ≡ true
          → (contains p ps ≡ false) ⊎ (lookup p src ≡ none)
          → gen_snapshot_hashes settings s src ps ≡ err file_not_found)
        × (((p : String)
              → contains p settings.required_paths ≡ true
              → (contains p ps ≡ true) × (lookup p src ≢ none))
            → (fs : List SnapshotFile) × (gen_snapshot_hashes settings s src ps ≡ ok fs))
  unfolding gen_snapshot_hashes
  gen_snapshot_hashes_required ps = (
    λ p required lacking. elim (Bool-cases (is_empty (difference settings.required_paths ps))) [
      | inr e ↦ rw e refl
      | inl e ↦
          let listed = difference_lem settings.required_paths ps p e required in
          elim lacking [
            | inl missing ↦ absurd (cc (listed, missing))
            | inr gone ↦ rw e (gen_loop-gone ps p required gone listed)
          ]
    ],
    λ all.
        let (fs, e) = gen_loop-ok ps (λ p required. (all p required).1) in
        (fs, rw (difference_all settings.required_paths ps (λ p required. (all p required).0)) e),
  )
