-- ===== src/Google/Attempts.antt =====
-- rohmu/object_storage/google.py: how often `_retry_on_reset` makes an attempt, and which one counts.
use rohmu.Base.{ℕ, ◌≡◌, ◌≤◌, suc, ◌⊎◌, zero, true, inr, arith, Bool-cases, inl, ◌∙◌, refl, ap}
use rohmu.Google.Retries.{
  Result, after_call, retry_with, retry_on_reset, returned, failed, is_retried,
}

-- A result that is retried
unfoldable pub Retried : {A : Type 0} → Result A → Type 0
Retried (returned a) = ⊥
Retried (failed failure) = is_retried failure ≡ true

module _ {A C : Type 0} (action : C → Result A × C) where
  -- The state behind so many calls
  unfoldable pub behind : ℕ → C → C
  behind zero c = c
  behind (suc n) c = behind n (action c).1

  -- The first k calls from this state fail, each so that it is retried.
  abbrev pub AllRetried : ℕ → C → Type 0
  AllRetried zero c = Unit
  AllRetried (suc k) c = Retried (action c).0 × AllRetried k (action c).1

  after_call-cases :
      (again : C → Result A × C) (x : Result A × C)
      → ((Retried x.0) × (after_call action again x ≡ again x.1))
        ⊎ ((Retried x.0 → ⊥) × (after_call action again x ≡ x))
  unfolding after_call Retried
  after_call-cases again (returned a, c) = inr (λ h. h, refl)
  after_call-cases again (failed failure, c) = elim (Bool-cases (is_retried failure)) [
    | inl e ↦ inl (e, rw e refl)
    | inr e ↦ inr (λ h. cc (e, h), rw e refl)
  ]

  pub retry_with-AllRetried :
      (retries : ℕ) (c : C)
      → (k : ℕ) × (k ≤ retries)
        × AllRetried k c
        × (retry_with action retries c ≡ action (behind k c))
        × ((k ≡ retries) ⊎ (Retried (action (behind k c)).0 → ⊥))
  unfolding retry_with behind
  retry_with-AllRetried zero c = (0, omega arith, tt, refl, inl refl)
  retry_with-AllRetried (suc retries) c =
      elim (after_call-cases (retry_with action retries) (action c)) [
        | inr (final, e) ↦ (0, omega arith, tt, e, inr final)
        | inl (retried, e) ↦
            let (k, le, all, result, last) = retry_with-AllRetried retries (action c).1 in
            (
              suc k,
              omega (arith, le),
              (retried, all),
              e ∙ result,
              elim last [ inl same ↦ inl (ap (λ n. suc n) same) | inr final ↦ inr final ],
            )
      ]

  -- `_retry_on_reset` makes k calls, at most 60, that fail in a way that is retried, and gives the result of
  -- the next one, which is not retried unless k is 60.
  pub retry_on_reset-AllRetried :
      (c : C)
      → (k : ℕ) × (k ≤ 60)
        × AllRetried k c
        × (retry_on_reset action c ≡ action (behind k c))
        × ((k ≡ 60) ⊎ (Retried (action (behind k c)).0 → ⊥))
  unfolding retry_on_reset
  retry_on_reset-AllRetried c = retry_with-AllRetried 60 c
