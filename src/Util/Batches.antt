-- ===== src/Util/Batches.antt =====
-- rohmu/util.py: what `batched` yields.
use rohmu.Util.{batches, batched}
use rohmu.Base.{
  List, ℕ, ◌∷◌, length, suc, ◌≡◌, ◌<◌, ◌≤◌, err, ◌++◌, arith, value_error, [], ap, ok, take, ge→ltb,
  drop, zero, length-drop, refl, ◌∙◌, take-append-drop, Bool-cases, leb, inl, length-take, inr,
  drop_all,
}

-- The batches one after the other.
unfoldable pub rejoin {ℓ} : {A : Type ℓ} → List (List A) → List A
rejoin [] = []
rejoin (b ∷ bs) = b ++ rejoin bs

-- Every batch but the last has n elements, and the last between 1 and n.
abbrev pub Batched {ℓ} : {A : Type ℓ} → ℕ → List (List A) → Type 0
Batched n [] = Unit
Batched n (b ∷ []) = (0 < length b) × (length b ≤ n)
Batched n (b ∷ c ∷ bs) = (length b ≡ n) × Batched n (c ∷ bs)

module _ {ℓ} {A : Type ℓ} where
  pub batches-rejoin :
      (fuel m : ℕ) (xs : List A) → length xs ≤ fuel → rejoin (batches fuel (suc m) xs) ≡ xs
  unfolding batches rejoin
  batches-rejoin zero m [] h = refl
  batches-rejoin zero m (x ∷ xs) h = absurd (omega arith)
  batches-rejoin (suc fuel) m [] h = refl
  batches-rejoin (suc fuel) m (x ∷ xs) h =
      ap (λ t. x ∷ t)
        (ap (λ t. take m xs ++ t)
            (batches-rejoin fuel m (drop m xs) (omega (arith, length-drop m xs)))
          ∙ take-append-drop m xs)

  full :
      {m : ℕ} (b : List A) (bs : List (List A))
      → Batched (suc m) bs
      → length b ≡ suc m
      → Batched (suc m) (b ∷ bs)
  full b [] h e = (omega arith, omega arith)
  full b (c ∷ bs) h e = (e, h)

  batches-nil : (fuel m : ℕ) → batches {A = A} fuel (suc m) [] ≡ []
  unfolding batches
  batches-nil zero m = refl
  batches-nil (suc fuel) m = refl

  batches-Batched : (fuel m : ℕ) (xs : List A) → Batched (suc m) (batches fuel (suc m) xs)
  unfolding batches
  batches-Batched zero m xs = tt
  batches-Batched (suc fuel) m [] = tt
  batches-Batched (suc fuel) m (x ∷ xs) = elim (Bool-cases (leb m (length xs))) [
    | inl e ↦
        full (x ∷ take m xs) (batches fuel (suc m) (drop m xs)) (batches-Batched fuel m (drop m xs))
          (ground (arith, length-take m xs))
    | inr e ↦
        rw (drop_all m xs (ground arith), batches-nil fuel m)
          (omega arith, ground (arith, length-take m xs))
  ]

  -- `batched` refuses a size below one, and otherwise yields the input cut into batches.
  pub batched_lem :
      (xs : List A) (n : ℕ)
      → (n ≡ 0 → batched xs n ≡ err value_error)
        × (0 < n → (bs : List (List A)) × (batched xs n ≡ ok bs) × (rejoin bs ≡ xs) × Batched n bs)
  unfolding batched
  batched_lem xs zero = (λ h. refl, λ h. absurd (omega arith))
  batched_lem xs (suc m) = (
    λ h. absurd (omega arith),
    λ h. (
      batches (suc (length xs)) (suc m) xs,
      rw (ge→ltb (suc m) 1 (omega arith)) refl,
      batches-rejoin (suc (length xs)) m xs (omega arith),
      batches-Batched (suc (length xs)) m xs,
    ),
  )
