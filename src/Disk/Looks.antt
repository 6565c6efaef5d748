-- ===== src/Disk/Looks.antt =====
-- The file system of the host: what stands at a path after a change, and the directory of a longer path.
use rohmu.Base.{
  ◌≡◌, false, [], ◌++◌, ◌≢◌, ◌⊎◌, ◌∷◌, refl, if◌then◌else◌, ap, Bool-cases, some, none, ==_refl,
  sym, arith, inr, bytes_eq_refl, inl, bytes_eq→eq, ◌==◌, ◌∙◌,
}
use rohmu.Disk.{look, split_path, dirname, bytes_eq, put, unset, ℕ, Node, Disk, slash, place}
use rohmu.Storage.Values.{Text}

pub bytes_eq→ne : (p q : Text) → bytes_eq p q ≡ false → p ≢ q
bytes_eq→ne p q h e = cc (h, ap (bytes_eq p) (sym e), bytes_eq_refl p)

-- Two keys that are one with a third are one.
not_both : (i p q : Text) → bytes_eq i p ≡ false → (bytes_eq i q ≡ false) ⊎ (bytes_eq p q ≡ false)
not_both i p q h = elim (Bool-cases (bytes_eq i q)) [
  | inr e ↦ inl e
  | inl e ↦ elim (Bool-cases (bytes_eq p q)) [
    | inr d ↦ inr d
    | inl d ↦ absurd (bytes_eq→ne i p h (bytes_eq→eq i q e ∙ sym (bytes_eq→eq p q d)))
  ]
]

pub look-put :
    (p q : Text) (node : Node) (disk : Disk)
    → look q (put p node disk) ≡ (if bytes_eq p q then some node else look q disk)
unfolding look put
look-put p q node [] = refl
look-put p q node ((i, old) ∷ disk) =
    ground (arith, not_both i p q, bytes_eq→eq i p, look-put p q node disk)

pub look-unset :
    (p q : Text) (disk : Disk)
    → look q (unset p disk) ≡ (if bytes_eq p q then none else look q disk)
unfolding look unset
look-unset p q [] = ground arith
look-unset p q ((i, old) ∷ disk) =
    ground (arith, not_both i p q, bytes_eq→eq i p, look-unset p q disk)

place-append :
    (c : ℕ) (head tail name : Text)
    → place c head (tail ++ name) ≡ ((place c head tail).0, (place c head tail).1 ++ name)
unfolding place
place-append c [] tail name = elim (Bool-cases (c == slash)) [
  | inl e ↦ rw e refl
  | inr e ↦ rw e refl
]
place-append c (h ∷ head) tail name = refl

-- A name without a slash, put behind a path, leaves its directory.
split_path-append :
    (p name : Text)
    → split_path name ≡ ([], name)
    → split_path (p ++ name) ≡ ((split_path p).0, (split_path p).1 ++ name)
unfolding split_path
split_path-append [] name h = h
split_path-append (c ∷ p) name h =
    rw (split_path-append p name h) (place-append c (split_path p).0 (split_path p).1 name)

pub dirname-append :
    (p name : Text) → split_path name ≡ ([], name) → dirname (p ++ name) ≡ dirname p
unfolding dirname
dirname-append p name h = rw (split_path-append p name h) refl

pub longer_differs : (p : Text) (c : ℕ) (name : Text) → bytes_eq p (p ++ c ∷ name) ≡ false
longer_differs [] c name = refl
longer_differs (x ∷ p) c name = rw (==_refl x) (longer_differs p c name)
