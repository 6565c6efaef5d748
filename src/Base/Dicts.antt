-- ===== src/Base/Dicts.antt =====
-- Python's `dict` with text keys, as an association list in order of insertion.
use Prim.Native.Nat.{ℕ, ◌+◌, ◌≤◌}
use Prim.Native.String.{String}
use mathlib.Core.Path.{◌≡◌, refl, sym, subst}
use mathlib.Core.Bool.{Bool}
use mathlib.Core.Option.{Option, none, some, some-injective}
use mathlib.Core.List.{List, [], ◌∷◌}
use text.Mathlib.Text.{◌==◌ as str_eq}
use text.Mathlib.TextEquality.{eq_iff}
use native.Mathlib.Omega.{arith}
use mathlib.Core.Logic.{inl, inr}
use rohmu.Base.Tests.{if◌then◌else◌, Bool-cases}

abbrev pub Dict {ℓ} : Type ℓ → Type ℓ
Dict V = List (String × V)

module _ {ℓ} {V : Type ℓ} where
  -- `d.get(k)`
  unfoldable pub lookup : String → Dict V → Option V
  lookup k [] = none
  lookup k ((j, v) ∷ d) = if str_eq j k then some v else lookup k d

  -- `d[k] = v`
  unfoldable pub insert : String → V → Dict V → Dict V
  insert k v [] = (k, v) ∷ []
  insert k v ((j, w) ∷ d) = if str_eq j k then (j, v) ∷ d else (j, w) ∷ insert k v d

  -- `d.pop(k, None)`
  unfoldable pub remove : String → Dict V → Dict V
  remove k [] = []
  remove k ((j, w) ∷ d) = let rest = remove k d in if str_eq j k then rest else (j, w) ∷ rest

  -- `{k: v for k, v in d.items() if keep(v)}`
  unfoldable pub keep_values : (V → Bool) → Dict V → Dict V
  keep_values keep [] = []
  keep_values keep ((j, w) ∷ d) =
      let rest = keep_values keep d in if keep w then (j, w) ∷ rest else rest

  -- A number for each entry, added up.
  unfoldable pub sum_values : (V → ℕ) → Dict V → ℕ
  sum_values weight [] = 0
  sum_values weight ((_, w) ∷ d) = weight w + sum_values weight d

  -- What the entry of a key weighs.
  abbrev pub weight_of : (V → ℕ) → Option V → ℕ
  weight_of weight none = 0
  weight_of weight (some v) = weight v

  -- A predicate of every entry.
  abbrev pub Entries {κ} : (String → V → Type κ) → Dict V → Type κ
  Entries P [] = Unit
  Entries P ((k, v) ∷ d) = P k v × Entries P d

  pub lookup-insert :
      (k j : String) (v : V) (d : Dict V)
      → lookup j (insert k v d) ≡ (if str_eq k j then some v else lookup j d)
  unfolding lookup insert
  lookup-insert k j v [] = refl
  lookup-insert k j v ((i, w) ∷ d) =
      ground (arith, eq_iff k j, eq_iff i k, eq_iff i j, lookup-insert k j v d)

  pub lookup-remove :
      (k j : String) (d : Dict V)
      → lookup j (remove k d) ≡ (if str_eq k j then none else lookup j d)
  unfolding lookup remove
  lookup-remove k j [] = ground arith
  lookup-remove k j ((i, w) ∷ d) =
      ground (arith, eq_iff k j, eq_iff i k, eq_iff i j, lookup-remove k j d)

  -- Writing an entry exchanges its weight for the old one's.
  pub sum_values-insert :
      (weight : V → ℕ) (k : String) (v : V) (d : Dict V)
      → sum_values weight (insert k v d) + weight_of weight (lookup k d)
        ≡ sum_values weight d + weight v
  unfolding sum_values insert lookup
  sum_values-insert weight k v [] = omega arith
  sum_values-insert weight k v ((i, w) ∷ d) = ground (arith, sum_values-insert weight k v d)

  pub sum_values-keep :
      (weight : V → ℕ) (keep : V → Bool) (d : Dict V)
      → sum_values weight (keep_values keep d) ≤ sum_values weight d
  unfolding sum_values keep_values
  sum_values-keep weight keep [] = omega arith
  sum_values-keep weight keep ((i, w) ∷ d) = ground (arith, sum_values-keep weight keep d)

  pub Entries-insert {κ} :
      (P : String → V → Type κ) (k : String) (v : V) (d : Dict V)
      → P k v
      → Entries P d
      → Entries P (insert k v d)
  unfolding insert
  Entries-insert P k v [] p h = (p, tt)
  Entries-insert P k v ((j, w) ∷ d) p h = elim (Bool-cases (str_eq j k)) [
    | inl e ↦ rw e (subst (λ i. P i v) (sym ((eq_iff j k).0 e)) p, h.1)
    | inr e ↦ rw e (h.0, Entries-insert P k v d p h.1)
  ]

  pub Entries-keep {κ} :
      (P : String → V → Type κ) (keep : V → Bool) (d : Dict V)
      → Entries P d
      → Entries P (keep_values keep d)
  unfolding keep_values
  Entries-keep P keep [] h = h
  Entries-keep P keep ((j, w) ∷ d) h = elim (Bool-cases (keep w)) [
    | inl e ↦ rw e (h.0, Entries-keep P keep d h.1)
    | inr e ↦ rw e (Entries-keep P keep d h.1)
  ]

  -- What `lookup` gives at a first entry, by the test of its key.
  Chosen : String → V → V → Dict V → Bool → Type ℓ
  Chosen k v w d c = (if c then some w else lookup k d) ≡ some v

  pub Entries-lookup {κ} :
      (P : String → V → Type κ) (k : String) (v : V) (d : Dict V)
      → Entries P d
      → lookup k d ≡ some v
      → P k v
  unfolding lookup Chosen
  Entries-lookup P k v [] h e = absurd (cc e)
  Entries-lookup P k v ((j, w) ∷ d) h e = elim (Bool-cases (str_eq j k)) [
    | inl b ↦
        subst (λ i. P i v) ((eq_iff j k).0 b)
          (subst (λ u. P j u) (some-injective w v (subst (Chosen k v w d) b e)) h.0)
    | inr b ↦ Entries-lookup P k v d h.1 (subst (Chosen k v w d) b e)
  ]
