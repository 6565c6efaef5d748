-- ===== src/Snapshotter/Addition.antt =====
-- rohmu/delta/snapshot.py: `_add_snapshotfile` keeps the tables in agreement.
use rohmu.Snapshotter.Removal.{remove_snapshotfile-Removes}
use rohmu.Snapshotter.Register.{register-TablesAgree}
use rohmu.Snapshotter.Tables.{TablesAgree, str_eq_refl}
use rohmu.Snapshotter.{
  register, Snapshotter, add_snapshotfile, SnapshotFile, remove_old, at, has_hexdigest,
  remove_snapshotfile,
}
use rohmu.Base.{
  List, String, ℕ, Dict, Outcome, lookup, ◌≡◌, None, Bool-cases, ◌<◌, remove, ok, some, length,
  none, insert, lookup-remove, Option-cases, inl, refl, lookup-insert, ◌∙◌, subst, inr, sym, ap,
  ap₂,
}

-- What an addition to tables over a store comes to.
abbrev pub Adds : List SnapshotFile → ℕ → Outcome None × Snapshotter → Type 0
Adds store i r =
    (r.0 ≡ ok tt)
    × TablesAgree r.1
    × (r.1.store ≡ store)
    × (lookup (at i store).relative_path r.1.relative_path_to_snapshotfile ≡ some i)

lookup-register :
    (t : Snapshotter) (i : ℕ)
    → lookup (at i t.store).relative_path (register i t).relative_path_to_snapshotfile ≡ some i
unfolding register
lookup-register t i =
    let p = (at i t.store).relative_path in
    let here : lookup p (insert p i t.relative_path_to_snapshotfile) ≡ some i =
      lookup-insert p p i t.relative_path_to_snapshotfile ∙ rw (str_eq_refl p) refl in
    elim (Bool-cases (has_hexdigest (at i t.store))) [
      | inl has ↦ rw has here
      | inr has ↦ rw has here
    ]

store-register : (t : Snapshotter) (i : ℕ) → (register i t).store ≡ t.store
unfolding register
store-register t i = elim (Bool-cases (has_hexdigest (at i t.store))) [
  | inl has ↦ rw has refl
  | inr has ↦ rw has refl
]

register-Adds :
    (t : Snapshotter) (i : ℕ)
    → TablesAgree t
    → i < length t.store
    → lookup (at i t.store).relative_path t.relative_path_to_snapshotfile ≡ none
    → Adds t.store i (ok tt, register i t)
register-Adds t i agree le e =
    (refl, register-TablesAgree t i e le agree, store-register t i, lookup-register t i)

add_first :
    (s : Snapshotter) (i : ℕ)
    → lookup (at i s.store).relative_path s.relative_path_to_snapshotfile ≡ none
    → add_snapshotfile i s ≡ (ok tt, register i s)
unfolding add_snapshotfile remove_old
add_first s i e = rw e refl

add_after :
    (s : Snapshotter) (i old : ℕ)
    → lookup (at i s.store).relative_path s.relative_path_to_snapshotfile ≡ some old
    → (remove_snapshotfile old s).0 ≡ ok tt
    → add_snapshotfile i s ≡ (ok tt, register i (remove_snapshotfile old s).1)
unfolding add_snapshotfile remove_old
add_after s i old e done = rw (e, done) refl

remove_gone : (p : String) (d : Dict ℕ) → lookup p (remove p d) ≡ none
remove_gone p d = lookup-remove p p d ∙ rw (str_eq_refl p) refl

-- An object added to tables that agree takes the place of whatever its path led to; the call does
-- not raise, and the tables agree again.
pub add_snapshotfile-Adds :
    (s : Snapshotter) (i : ℕ)
    → TablesAgree s
    → i < length s.store
    → Adds s.store i (add_snapshotfile i s)
add_snapshotfile-Adds s i agree le =
    let p = (at i s.store).relative_path in
    elim (Option-cases (lookup p s.relative_path_to_snapshotfile)) [
      | inl e ↦ subst (Adds s.store i) (sym (add_first s i e)) (register-Adds s i agree le e)
      | inr (old, e) ↦
          let path = (agree.0 p old e).1 in
          let led : lookup (at old s.store).relative_path s.relative_path_to_snapshotfile
              ≡ some old =
            ap (λ q. lookup q s.relative_path_to_snapshotfile) path ∙ e in
          let (done, agree', store, paths) = remove_snapshotfile-Removes s old agree led in
          let t = (remove_snapshotfile old s).1 in
          let gone : lookup (at i t.store).relative_path t.relative_path_to_snapshotfile ≡ none =
            ap₂ (λ (u : List SnapshotFile) (d : Dict ℕ). lookup (at i u).relative_path d) store
              (paths ∙ ap (λ q. remove q s.relative_path_to_snapshotfile) path)
            ∙ remove_gone p s.relative_path_to_snapshotfile in
          let le' : i < length t.store = subst (λ u. i < length u) (sym store) le in
          subst (Adds s.store i) (sym (add_after s i old e done))
            (subst (λ u. Adds u i (ok tt, register i t)) store (register-Adds t i agree' le' gone))
    ]
