-- ===== src/Snapshotter/Tables.antt =====
-- rohmu/delta/snapshot.py: what it is for the two tables of a `Snapshotter` to agree.
use rohmu.Snapshotter.{
  Snapshotter, file_eq, list_remove, SnapshotFile, bool_eq, at, option_eq, has_hexdigest, or_empty,
}
use rohmu.Base.{
  ℕ, String, List, Dict, Option, Bool, lookup, ◌≡◌, ◌∷◌, false, some, true, ◌<◌, if◌then◌else◌,
  length, eq_iff, ◌+◌, ◌==◌, ◌&&◌, arith, [], none, str_eq, Bool-cases, ltb, inl, inr, ◌≢◌, refl,
  ==_refl, ap, insert, lt→ltb, lookup-insert,
}

unfoldable pub occurrences : ℕ → List ℕ → ℕ
occurrences i [] = 0
occurrences i (r ∷ rs) = (if r == i then 1 else 0) + occurrences i rs

-- The objects under a digest.
abbrev pub files_at : String → Dict (List ℕ) → List ℕ
files_at h d = or_empty (lookup h d)

abbrev pub is_ref : ℕ → Option ℕ → Bool
is_ref i none = false
is_ref i (some r) = r == i

-- Whether an object should stand under a digest: its path leads to it, and the digest is its own.
unfoldable pub expected : Snapshotter → String → ℕ → Bool
expected s h i =
    let f = at i s.store in
    is_ref i (lookup f.relative_path s.relative_path_to_snapshotfile)
    && has_hexdigest f
    && str_eq h f.hexdigest
    && ltb i (length s.store)

-- A path leads to an object of that path, and under a digest stand exactly the objects that a path
-- leads to and that have the digest, each once.
abbrev pub PathsAgree : Snapshotter → Type 0
PathsAgree s =
    (p : String) (i : ℕ)
    → lookup p s.relative_path_to_snapshotfile ≡ some i
    → (i < length s.store) × ((at i s.store).relative_path ≡ p)

abbrev pub DigestsAgree : Snapshotter → Type 0
DigestsAgree s =
    (h : String) (i : ℕ)
    → occurrences i (files_at h s.hexdigest_to_snapshotfiles) ≡ (if expected s h i then 1 else 0)

abbrev pub TablesAgree : Snapshotter → Type 0
TablesAgree s = PathsAgree s × DigestsAgree s

pub file_eq-path : (f g : SnapshotFile) → file_eq f g ≡ true → f.relative_path ≡ g.relative_path
unfolding file_eq
file_eq-path f g h = (eq_iff f.relative_path g.relative_path).0 (ground arith)

pub str_eq_refl : (a : String) → str_eq a a ≡ true
str_eq_refl a = (eq_iff a a).1 refl

pub bool_eq_refl : (b : Bool) → bool_eq b b ≡ true
unfolding bool_eq
bool_eq_refl true = refl
bool_eq_refl false = refl

pub option_eq_refl : (o : Option String) → option_eq o o ≡ true
unfolding option_eq
option_eq_refl none = refl
option_eq_refl (some a) = str_eq_refl a

pub file_eq_refl : (f : SnapshotFile) → file_eq f f ≡ true
unfolding file_eq
file_eq_refl f =
    rw
      (
        str_eq_refl f.relative_path,
        ==_refl f.file_size,
        ==_refl f.stored_file_size,
        ==_refl f.mtime_ns,
        str_eq_refl f.hexdigest,
        option_eq_refl f.content_b64,
        bool_eq_refl f.should_be_bundled,
        bool_eq_refl f.missing_ok,
      )
      refl

-- The object that `refs.remove` takes out, when it is the only one that is equal to the file.
pub list_remove_lem :
    (store : List SnapshotFile) (i : ℕ) (refs : List ℕ)
    → ((r : ℕ) → 0 < occurrences r refs → file_eq (at r store) (at i store) ≡ true → r ≡ i)
    → 0 < occurrences i refs
    → (kept : List ℕ) × (list_remove store (at i store) refs ≡ some kept)
      × ((r : ℕ) → occurrences r kept + (if i == r then 1 else 0) ≡ occurrences r refs)
unfolding list_remove occurrences
list_remove_lem store i [] only here = absurd (omega (arith, here))
list_remove_lem store i (r ∷ rs) only here = elim (Bool-cases (file_eq (at r store) (at i store))) [
  | inl e ↦
      let same : r ≡ i = only r (ground arith) e in
      (rs, rw e refl, λ k. ground (arith, ap (λ m. m == k) same))
  | inr e ↦
      let other : r ≢ i = λ same.
        absurd
          (cc (e, ap (λ k. file_eq (at k store) (at i store)) same, file_eq_refl (at i store))) in
      let (kept, found, counts) =
        list_remove_lem store i rs (λ k there eq. only k (ground (arith, there)) eq)
          (ground (arith, here, other)) in
      (r ∷ kept, rw (e, found) refl, λ k. omega (arith, counts k))
]

pub files_at-insert :
    (h k : String) (refs : List ℕ) (d : Dict (List ℕ))
    → files_at k (insert h refs d) ≡ (if str_eq h k then refs else files_at k d)
files_at-insert h k refs d =
    rw (lookup-insert h k refs d)
      (elim (Bool-cases (str_eq h k)) [ inl e ↦ rw e refl | inr e ↦ rw e refl ])

pub is_ref→eq : (i : ℕ) (o : Option ℕ) → is_ref i o ≡ true → o ≡ some i
is_ref→eq i none h = absurd (cc h)
is_ref→eq i (some r) h = ap some (ground arith)

pub and_left : (a b : Bool) → (a && b) ≡ true → a ≡ true
and_left a b h = ground arith

-- What an object that should stand under a digest has.
pub expected→found :
    (s : Snapshotter) (h : String) (i : ℕ)
    → expected s h i ≡ true
    → (lookup (at i s.store).relative_path s.relative_path_to_snapshotfile ≡ some i)
      × (h ≡ (at i s.store).hexdigest)
      × (has_hexdigest (at i s.store) ≡ true)
unfolding expected
expected→found s h i e =
    let f = at i s.store in
    (
      is_ref→eq i (lookup f.relative_path s.relative_path_to_snapshotfile) (ground arith),
      (eq_iff h f.hexdigest).0 (ground arith),
      ground arith,
    )

pub found→expected :
    (s : Snapshotter) (i : ℕ)
    → lookup (at i s.store).relative_path s.relative_path_to_snapshotfile ≡ some i
    → has_hexdigest (at i s.store) ≡ true
    → i < length s.store
    → expected s (at i s.store).hexdigest i ≡ true
unfolding expected
found→expected s i e has le =
    rw (e, has, ==_refl i, str_eq_refl (at i s.store).hexdigest, lt→ltb i (length s.store) le) refl

-- Empty tables agree, over any store.
pub TablesAgree-empty :
    (s : Snapshotter)
    → s.relative_path_to_snapshotfile ≡ []
    → s.hexdigest_to_snapshotfiles ≡ []
    → TablesAgree s
unfolding occurrences expected lookup
TablesAgree-empty s paths digests =
    (λ p i e. absurd (cc (e, ap (lookup p) paths)), λ h i. rw (paths, digests) refl)
