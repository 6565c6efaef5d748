-- ===== src/Snapshotter/Register.antt =====
-- rohmu/delta/snapshot.py: what writing a new object into the tables does.

use rohmu.Snapshotter.{Snapshotter, at, has_hexdigest, index, register}
use rohmu.Base.{
  Dict, ℕ, String, List, lookup, insert, ◌<◌, ◌++◌, ◌≡◌, length, ◌∷◌, [], none, ◌+◌, false, ◌&&◌,
  ◌==◌, str_eq, Bool-cases, refl, if◌then◌else◌, arith, lookup-insert, inl, inr, ==_refl, lt→ltb,
  true, eq_iff, Bool, sym, ap, some, ◌∙◌, some-injective, ==→eq, subst,
}
use rohmu.Snapshotter.Tables.{
  occurrences, expected, PathsAgree, str_eq_refl, DigestsAgree, files_at, files_at-insert,
  TablesAgree,
}

occurrences-snoc :
    (k i : ℕ) (refs : List ℕ)
    → occurrences k (refs ++ i ∷ []) ≡ occurrences k refs + (if i == k then 1 else 0)
unfolding occurrences
occurrences-snoc k i [] = ground arith
occurrences-snoc k i (r ∷ rs) = omega (arith, occurrences-snoc k i rs)

-- What a state has that differs from another in its tables only.
abbrev tabled : Dict ℕ → Dict (List ℕ) → Snapshotter → Snapshotter
tabled paths hexdigests s = record s {
  relative_path_to_snapshotfile = paths;
  hexdigest_to_snapshotfiles = hexdigests;
}

-- An object whose path leads nowhere stands under no digest.
unlisted :
    (s : Snapshotter) (h : String) (k : ℕ)
    → lookup (at k s.store).relative_path s.relative_path_to_snapshotfile ≡ none
    → expected s h k ≡ false
unfolding expected
unlisted s h k e = rw e refl

str_eq_sym : (a b : String) → str_eq a b ≡ true → str_eq b a ≡ true
str_eq_sym a b h = (eq_iff b a).1 (sym ((eq_iff a b).0 h))

str_ne_sym : (a b : String) → str_eq a b ≡ false → str_eq b a ≡ false
str_ne_sym a b h = elim (Bool-cases (str_eq b a)) [
  | inl e ↦ absurd (cc (h, str_eq_sym b a e))
  | inr e ↦ e
]

module _ (s : Snapshotter) (i : ℕ) where
  abbrev placed : Dict ℕ
  placed = insert (at i s.store).relative_path i s.relative_path_to_snapshotfile

  expected_new :
      (hexdigests : Dict (List ℕ)) (h : String)
      → i < length s.store
      → expected (tabled placed hexdigests s) h i
        ≡ (has_hexdigest (at i s.store) && str_eq h (at i s.store).hexdigest)
  unfolding expected
  expected_new hexdigests h le =
      rw
        (
          lookup-insert (at i s.store).relative_path (at i s.store).relative_path i
              s.relative_path_to_snapshotfile,
          str_eq_refl (at i s.store).relative_path,
          ==_refl i,
          lt→ltb i (length s.store) le,
        )
        (ground arith)

  expected_clash :
      (hexdigests : Dict (List ℕ)) (h : String) (k : ℕ)
      → str_eq (at i s.store).relative_path (at k s.store).relative_path ≡ true
      → (i == k) ≡ false
      → expected (tabled placed hexdigests s) h k ≡ false
  unfolding expected
  expected_clash hexdigests h k b other =
      rw
        (
          lookup-insert (at i s.store).relative_path (at k s.store).relative_path i
              s.relative_path_to_snapshotfile,
          b,
          other,
        )
        refl

  expected_away :
      (hexdigests : Dict (List ℕ)) (h : String) (k : ℕ)
      → str_eq (at i s.store).relative_path (at k s.store).relative_path ≡ false
      → expected (tabled placed hexdigests s) h k ≡ expected s h k
  unfolding expected
  expected_away hexdigests h k b =
      rw
        (
          lookup-insert (at i s.store).relative_path (at k s.store).relative_path i
              s.relative_path_to_snapshotfile,
          b,
        )
        refl

  expected_other :
      (hexdigests : Dict (List ℕ)) (h : String) (k : ℕ)
      → lookup (at i s.store).relative_path s.relative_path_to_snapshotfile ≡ none
      → (i == k) ≡ false
      → expected (tabled placed hexdigests s) h k ≡ expected s h k
  expected_other hexdigests h k e other =
      elim (Bool-cases (str_eq (at i s.store).relative_path (at k s.store).relative_path)) [
        | inl b ↦
            let path = (eq_iff (at i s.store).relative_path (at k s.store).relative_path).0 b in
            let gone : lookup (at k s.store).relative_path s.relative_path_to_snapshotfile ≡ none =
              ap (λ q. lookup q s.relative_path_to_snapshotfile) (sym path) ∙ e in
            expected_clash hexdigests h k b other ∙ sym (unlisted s h k gone)
        | inr b ↦ expected_away hexdigests h k b
      ]

  abbrev Led : String → ℕ → Bool → Type 0
  Led q j c = (if c then some i else lookup q s.relative_path_to_snapshotfile) ≡ some j

  PathsAgree-placed :
      (hexdigests : Dict (List ℕ))
      → i < length s.store
      → PathsAgree s
      → PathsAgree (tabled placed hexdigests s)
  PathsAgree-placed hexdigests le agree q j e =
      let p = (at i s.store).relative_path in
      let led : Led q j (str_eq p q) =
        sym (lookup-insert p q i s.relative_path_to_snapshotfile) ∙ e in
      elim (Bool-cases (str_eq p q)) [
        | inl b ↦
            let same : i ≡ j = some-injective i j (subst (Led q j) b led) in
            subst (λ n. (n < length s.store) × ((at n s.store).relative_path ≡ q)) same
              (le, (eq_iff p q).0 b)
        | inr b ↦ agree q j (subst (Led q j) b led)
      ]

  -- An object without a digest.
  DigestsAgree-plain :
      lookup (at i s.store).relative_path s.relative_path_to_snapshotfile ≡ none
      → i < length s.store
      → has_hexdigest (at i s.store) ≡ false
      → DigestsAgree s
      → DigestsAgree (tabled placed s.hexdigest_to_snapshotfiles s)
  DigestsAgree-plain e le has agree h k =
      agree h k
      ∙ ap (λ (b : Bool). if b then 1 else 0)
          (elim (Bool-cases (i == k)) [
            | inl same ↦
                let eq : i ≡ k = ==→eq i k same in
                subst
                  (λ n.
                    expected s h n ≡ expected (tabled placed s.hexdigest_to_snapshotfiles s) h n)
                  eq
                  (unlisted s h i e
                    ∙ sym (expected_new s.hexdigest_to_snapshotfiles h le ∙ rw has refl))
            | inr other ↦ sym (expected_other s.hexdigest_to_snapshotfiles h k e other)
          ])

  DigestsAgree-indexed :
      lookup (at i s.store).relative_path s.relative_path_to_snapshotfile ≡ none
      → i < length s.store
      → has_hexdigest (at i s.store) ≡ true
      → DigestsAgree s
      → DigestsAgree
          (tabled placed (index (at i s.store).hexdigest i s.hexdigest_to_snapshotfiles) s)
  unfolding index
  DigestsAgree-indexed e le has agree h k =
      let f = at i s.store in
      let refs = files_at f.hexdigest s.hexdigest_to_snapshotfiles in
      let table = index f.hexdigest i s.hexdigest_to_snapshotfiles in
      rw (files_at-insert f.hexdigest h (refs ++ i ∷ []) s.hexdigest_to_snapshotfiles)
        (elim (Bool-cases (i == k)) [
          | inl same ↦
              subst
                (λ n.
                  occurrences n (
                    if str_eq f.hexdigest h
                    then refs ++ i ∷ []
                    else files_at h s.hexdigest_to_snapshotfiles)
                  ≡ (if expected (tabled placed table s) h n then 1 else 0))
                (==→eq i k same)
                (rw (expected_new table h le, has)
                  (elim (Bool-cases (str_eq f.hexdigest h)) [
                    | inl d ↦
                        rw (d, str_eq_sym f.hexdigest h d)
                          (ground (
                            arith,
                            occurrences-snoc i i refs,
                            agree f.hexdigest i,
                            unlisted s f.hexdigest i e,
                          ))
                    | inr d ↦
                        rw (d, str_ne_sym f.hexdigest h d)
                          (ground (arith, agree h i, unlisted s h i e))
                  ]))
          | inr other ↦
              rw (expected_other table h k e other) (elim (Bool-cases (str_eq f.hexdigest h)) [
                | inl d ↦ rw d (
                    subst (λ g. occurrences k (refs ++ i ∷ []) ≡ (if expected s g k then 1 else 0))
                      ((eq_iff f.hexdigest h).0 d)
                      (ground (arith, occurrences-snoc k i refs, agree f.hexdigest k, other)))
                | inr d ↦ rw d (agree h k)
              ])
        ])

  pub register-TablesAgree :
      lookup (at i s.store).relative_path s.relative_path_to_snapshotfile ≡ none
      → i < length s.store
      → TablesAgree s
      → TablesAgree (register i s)
  unfolding register
  register-TablesAgree e le agree = elim (Bool-cases (has_hexdigest (at i s.store))) [
    | inl has ↦ rw has (
      PathsAgree-placed (index (at i s.store).hexdigest i s.hexdigest_to_snapshotfiles) le agree.0,
      DigestsAgree-indexed e le has agree.1,
    )
    | inr has ↦ rw has (
      PathsAgree-placed s.hexdigest_to_snapshotfiles le agree.0,
      DigestsAgree-plain e le has agree.1,
    )
  ]
