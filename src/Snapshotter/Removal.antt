-- ===== src/Snapshotter/Removal.antt =====
-- rohmu/delta/snapshot.py: `_remove_snapshotfile` keeps the tables in agreement.
-- Two objects that a path leads to are one.
use rohmu.Snapshotter.Tables.{
  expected, occurrences, TablesAgree, PathsAgree, DigestsAgree, expected→found, files_at,
  files_at-insert, file_eq_refl, found→expected, list_remove_lem, str_eq_refl, file_eq-path,
}
use rohmu.Base.{
  String, ℕ, Dict, Outcome, lookup, List, ◌≡◌, None, Option, remove, not, str_eq, ok, true, some,
  Bool-cases, false, ◌&&◌, lookup-remove, ◌+◌, Option-cases, insert, inl, ◌==◌, if◌then◌else◌,
  some-injective, subst, ◌∙◌, ap, eq_iff, arith, inr, refl, sym, none, ==→eq, Bool,
}
use rohmu.Snapshotter.{
  Snapshotter, unindex, remove_snapshotfile, keep_listed, remove_checked, SnapshotFile, at,
  list_remove, or_empty, has_hexdigest,
}

same_path :
    (s : Snapshotter) (h : String) (i r : ℕ)
    → lookup (at i s.store).relative_path s.relative_path_to_snapshotfile ≡ some i
    → expected s h r ≡ true
    → (at i s.store).relative_path ≡ (at r s.store).relative_path
    → i ≡ r
same_path s h i r e x p =
    let found = (expected→found s h r x).0 in
    some-injective i r (sym e ∙ ap (λ q. lookup q s.relative_path_to_snapshotfile) p ∙ found)

-- The tables once a path has been taken out.
abbrev without : String → Dict (List ℕ) → Snapshotter → Snapshotter
without p hexdigests s = record s {
  relative_path_to_snapshotfile = remove p s.relative_path_to_snapshotfile;
  hexdigest_to_snapshotfiles = hexdigests;
}

expected-without :
    (p h : String) (hexdigests : Dict (List ℕ)) (s : Snapshotter) (i : ℕ)
    → expected (without p hexdigests s) h i
      ≡ (not (str_eq p (at i s.store).relative_path) && expected s h i)
unfolding expected
expected-without p h hexdigests s i =
    rw (lookup-remove p (at i s.store).relative_path s.relative_path_to_snapshotfile)
      (elim (Bool-cases (str_eq p (at i s.store).relative_path)) [
        | inl e ↦ rw e refl
        | inr e ↦ rw e refl
      ])

PathsAgree-without :
    (p : String) (hexdigests : Dict (List ℕ)) (s : Snapshotter)
    → PathsAgree s
    → PathsAgree (without p hexdigests s)
PathsAgree-without p hexdigests s agree q i e = agree q i (elim (Bool-cases (str_eq p q)) [
  | inl b ↦ absurd (
      cc (
        subst (λ c. (if c then none else lookup q s.relative_path_to_snapshotfile) ≡ some i) b
          (sym (lookup-remove p q s.relative_path_to_snapshotfile) ∙ e)))
  | inr b ↦
      subst (λ c. (if c then none else lookup q s.relative_path_to_snapshotfile) ≡ some i) b
        (sym (lookup-remove p q s.relative_path_to_snapshotfile) ∙ e)
])

-- Taking out an object that has no digest.
DigestsAgree-without :
    (s : Snapshotter) (i : ℕ)
    → lookup (at i s.store).relative_path s.relative_path_to_snapshotfile ≡ some i
    → has_hexdigest (at i s.store) ≡ false
    → DigestsAgree s
    → DigestsAgree (without (at i s.store).relative_path s.hexdigest_to_snapshotfiles s)
DigestsAgree-without s i e has agree h k =
    let p = (at i s.store).relative_path in
    agree h k
    ∙ ap (λ b. if b then 1 else 0)
        (elim (Bool-cases (expected s h k)) [
          | inl x ↦ elim (Bool-cases (str_eq p (at k s.store).relative_path)) [
            | inl b ↦
                let same = same_path s h i k e x ((eq_iff p (at k s.store).relative_path).0 b) in
                absurd (
                  cc (has, ap (λ n. has_hexdigest (at n s.store)) same, (expected→found s h k x).2))
            | inr b ↦ rw (expected-without p h s.hexdigest_to_snapshotfiles s k, b) refl
          ]
          | inr x ↦ rw (expected-without p h s.hexdigest_to_snapshotfiles s k, x) (ground arith)
        ])

-- An object does not stand under another digest than its own.
not_under :
    (s : Snapshotter) (h : String) (i k : ℕ)
    → i ≡ k
    → str_eq (at i s.store).hexdigest h ≡ false
    → DigestsAgree s
    → occurrences k (files_at h s.hexdigest_to_snapshotfiles) ≡ 0
not_under s h i k same d agree =
    let no : expected s h k ≡ false = elim (Bool-cases (expected s h k)) [
      | inl x ↦
          let own = (expected→found s h k x).1 in
          let named : (at i s.store).hexdigest ≡ h =
            ap (λ n. (at n s.store).hexdigest) same ∙ sym own in
          let yes : str_eq (at i s.store).hexdigest h ≡ true =
            (eq_iff (at i s.store).hexdigest h).1 named in
          absurd (cc (d, yes))
      | inr x ↦ x
    ] in
    agree h k ∙ ap (λ (b : Bool). if b then 1 else 0) no

-- Taking out a path concerns one object only.
stays :
    (s : Snapshotter) (h : String) (i k : ℕ)
    → lookup (at i s.store).relative_path s.relative_path_to_snapshotfile ≡ some i
    → (i == k) ≡ false
    → (not (str_eq (at i s.store).relative_path (at k s.store).relative_path) && expected s h k)
      ≡ expected s h k
stays s h i k e other = elim (Bool-cases (expected s h k)) [
  | inl x ↦ elim (Bool-cases (str_eq (at i s.store).relative_path (at k s.store).relative_path)) [
    | inl b ↦
        let same =
          same_path s h i k e x
            ((eq_iff (at i s.store).relative_path (at k s.store).relative_path).0 b) in
        absurd (ground (arith, same, other))
    | inr b ↦ rw b refl
  ]
  | inr x ↦ rw x (ground arith)
]

-- Taking out an object with its digest.
DigestsAgree-unindex :
    (s : Snapshotter) (i : ℕ) (kept : List ℕ)
    → lookup (at i s.store).relative_path s.relative_path_to_snapshotfile ≡ some i
    → expected s (at i s.store).hexdigest i ≡ true
    → ((r : ℕ)
        → occurrences r kept + (if i == r then 1 else 0)
          ≡ occurrences r (files_at (at i s.store).hexdigest s.hexdigest_to_snapshotfiles))
    → DigestsAgree s
    → DigestsAgree (
        without
          (at i s.store).relative_path
          (insert (at i s.store).hexdigest kept s.hexdigest_to_snapshotfiles)
          s)
DigestsAgree-unindex s i kept e x counts agree h k =
    let f = at i s.store in
    let p = f.relative_path in
    let table = insert f.hexdigest kept s.hexdigest_to_snapshotfiles in
    rw
      (
        files_at-insert f.hexdigest h kept s.hexdigest_to_snapshotfiles,
        expected-without p h table s k,
      )
      (elim (Bool-cases (i == k)) [
        | inl same ↦
            let here =
              subst (λ n. str_eq p (at n s.store).relative_path ≡ true) (==→eq i k same)
                (str_eq_refl p) in
            elim (Bool-cases (str_eq f.hexdigest h)) [
              | inl d ↦ rw (d, here) (ground (arith, counts k, agree f.hexdigest k, same))
              | inr d ↦ rw (d, here) (not_under s h i k (==→eq i k same) d agree)
            ]
        | inr other ↦ rw (stays s h i k e other) (elim (Bool-cases (str_eq f.hexdigest h)) [
          | inl d ↦ rw d (
              subst (λ g. occurrences k kept ≡ (if expected s g k then 1 else 0))
                ((eq_iff f.hexdigest h).0 d) (ground (arith, counts k, agree f.hexdigest k, other)))
          | inr d ↦ rw d (agree h k)
        ])
      ])

-- What taking a path out of tables that agree comes to.
abbrev pub Removes : Snapshotter → String → Outcome None × Snapshotter → Type 0
Removes s p r =
    (r.0 ≡ ok tt)
    × TablesAgree r.1
    × (r.1.store ≡ s.store)
    × (r.1.relative_path_to_snapshotfile ≡ remove p s.relative_path_to_snapshotfile)

-- What the counts say of the list under a digest.
counted :
    (s : Snapshotter) (h : String) (r : ℕ) (o : Option (List ℕ))
    → lookup h s.hexdigest_to_snapshotfiles ≡ o
    → DigestsAgree s
    → occurrences r (or_empty o) ≡ (if expected s h r then 1 else 0)
counted s h r o e agree = ap (λ u. occurrences r (or_empty u)) (sym e) ∙ agree h r

pub under_digest :
    (s : Snapshotter) (h : String) (i : ℕ)
    → expected s h i ≡ true
    → DigestsAgree s
    → (refs : List ℕ) × (lookup h s.hexdigest_to_snapshotfiles ≡ some refs)
      × (occurrences i refs ≡ 1)
unfolding occurrences
under_digest s h i x agree = elim (Option-cases (lookup h s.hexdigest_to_snapshotfiles)) [
  | inl e ↦ absurd (ground (arith, counted s h i none e agree, x))
  | inr (refs, e) ↦ (refs, e, ground (arith, counted s h i (some refs) e agree, x))
]

unindex_found :
    (f : SnapshotFile) (refs kept : List ℕ) (s : Snapshotter)
    → list_remove s.store f refs ≡ some kept
    → unindex f (some refs) s ≡ (
      ok tt,
      record s {
        hexdigest_to_snapshotfiles = insert f.hexdigest kept s.hexdigest_to_snapshotfiles;
      },
    )
unfolding unindex keep_listed
unindex_found f refs kept s h = rw h refl

remove_indexed :
    (s : Snapshotter) (i : ℕ) (refs kept : List ℕ)
    → lookup (at i s.store).relative_path s.relative_path_to_snapshotfile ≡ some i
    → has_hexdigest (at i s.store) ≡ true
    → lookup (at i s.store).hexdigest s.hexdigest_to_snapshotfiles ≡ some refs
    → list_remove s.store (at i s.store) refs ≡ some kept
    → remove_snapshotfile i s ≡ (
      ok tt,
      without
          (at i s.store).relative_path
          (insert (at i s.store).hexdigest kept s.hexdigest_to_snapshotfiles)
          s,
    )
unfolding remove_snapshotfile remove_checked
remove_indexed s i refs kept e has found taken =
    rw (e, file_eq_refl (at i s.store), has, found)
      (unindex_found (at i s.store) refs kept
        (without (at i s.store).relative_path s.hexdigest_to_snapshotfiles s) taken)

remove_plain :
    (s : Snapshotter) (i : ℕ)
    → lookup (at i s.store).relative_path s.relative_path_to_snapshotfile ≡ some i
    → has_hexdigest (at i s.store) ≡ false
    → remove_snapshotfile i s
      ≡ (ok tt, without (at i s.store).relative_path s.hexdigest_to_snapshotfiles s)
unfolding remove_snapshotfile remove_checked
remove_plain s i e has = rw (e, file_eq_refl (at i s.store), has) refl

-- When the tables agree, `_remove_snapshotfile` of an object that its path leads to returns, takes
-- that path out and leaves the store alone, and the tables agree again.
pub remove_snapshotfile-Removes :
    (s : Snapshotter) (i : ℕ)
    → TablesAgree s
    → lookup (at i s.store).relative_path s.relative_path_to_snapshotfile ≡ some i
    → Removes s (at i s.store).relative_path (remove_snapshotfile i s)
remove_snapshotfile-Removes s i agree e =
    let f = at i s.store in
    elim (Bool-cases (has_hexdigest f)) [
      | inl has ↦
          let x = found→expected s i e has (agree.0 f.relative_path i e).0 in
          let (refs, found, one) = under_digest s f.hexdigest i x agree.1 in
          let (kept, taken, counts) =
            list_remove_lem s.store i refs
              (λ r there eq.
                let x' : expected s f.hexdigest r ≡ true =
                  ground (arith, counted s f.hexdigest r (some refs) found agree.1, there) in
                sym (same_path s f.hexdigest i r e x' (sym (file_eq-path (at r s.store) f eq))))
              (omega (arith, one)) in
          subst (Removes s f.relative_path) (sym (remove_indexed s i refs kept e has found taken)) (
            refl,
            (
              PathsAgree-without f.relative_path
                  (insert f.hexdigest kept s.hexdigest_to_snapshotfiles) s agree.0,
              DigestsAgree-unindex s i kept e x
                  (λ r. counts r ∙ ap (λ o. occurrences r (or_empty o)) (sym found)) agree.1,
            ),
            refl,
            refl,
          )
      | inr has ↦ subst (Removes s f.relative_path) (sym (remove_plain s i e has)) (
        refl,
        (
          PathsAgree-without f.relative_path s.hexdigest_to_snapshotfiles s agree.0,
          DigestsAgree-without s i e has agree.1,
        ),
        refl,
        refl,
      )
    ]
