-- ===== src/Storage/Callbacks.antt =====
-- rohmu/object_storage/base.py: the two adapters of progress callbacks undo each other.
use rohmu.Storage.{to_proportional, to_incremental}
use rohmu.Base.{
  List, ℕ, ◌∷◌, ◌≡◌, Bool-cases, if◌then◌else◌, ltb, inl, [], inr, refl, Option, lt→ltb, ◌+◌, arith,
  some, ◌-◌, ap, none, ge→ltb, subst,
}

-- What the callback is given, before what follows.
unfoldable pub handed : Option ℕ → List ℕ → List ℕ
handed none rest = rest
handed (some increment) rest = increment ∷ rest

-- What the callbacks behind both adapters are given for a list of increments.
unfoldable pub adapted : List ℕ → ℕ → ℕ → List ℕ
adapted [] so_far last = []
adapted (d ∷ ds) so_far last =
    let (progress, counted) = to_proportional d so_far in
    let (given, last') = to_incremental progress last in
    let rest = adapted ds counted last' in handed given rest

unfoldable pub nonzero : List ℕ → List ℕ
nonzero [] = []
nonzero (d ∷ ds) = let rest = nonzero ds in if ltb 0 d then d ∷ rest else rest

gained : (n d : ℕ) → n + d - n ≡ d
gained n d = omega arith

adapted-nonzero : (ds : List ℕ) (n : ℕ) → adapted ds n n ≡ nonzero ds
unfolding adapted handed nonzero to_proportional to_incremental
adapted-nonzero [] n = refl
adapted-nonzero (d ∷ ds) n = elim (Bool-cases (ltb 0 d)) [
  | inl e ↦
      rw (lt→ltb n (n + d) (ground arith), e, gained n d)
        (ap (λ t. d ∷ t) (adapted-nonzero ds (n + d)))
  | inr e ↦
      rw (ge→ltb n (n + d) (ground arith), e)
        (subst (λ k. adapted ds k n ≡ nonzero ds) (ground arith) (adapted-nonzero ds n))
]

-- Increments that are turned into proportions and back reach the callback as they were, but for
-- those of 0.
pub progress_roundtrip : (ds : List ℕ) → adapted ds 0 0 ≡ nonzero ds
progress_roundtrip ds = adapted-nonzero ds 0
