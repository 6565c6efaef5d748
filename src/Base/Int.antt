-- ===== src/Base/Int.antt =====
-- Signed integers over the native numbers, for the arguments that Python allows to be negative.
use Prim.Native.Nat.{ℕ, suc, ◌+◌, ◌-◌}
use mathlib.Core.Bool.{Bool, true, false}
use mathlib.Core.List.{List}
use rohmu.Base.Tests.{leb, ltb, if◌then◌else◌}
use rohmu.Base.Lists.{length, take, drop}

-- `negsuc n` is -(n + 1).
pub data ℤ : Type 0 where
  pos : ℕ → ℤ
  negsuc : ℕ → ℤ

-- a - b of two numbers
abbrev pub sub_ℕ : ℕ → ℕ → ℤ
sub_ℕ a b = if leb b a then pos (a - b) else negsuc (b - a - 1)

-- a - b of an integer and a number
infixl 65 ◌-ℕ◌
abbrev pub ◌-ℕ◌ : ℤ → ℕ → ℤ
pos a -ℕ b = sub_ℕ a b
negsuc a -ℕ b = negsuc (a + b)

abbrev pub is_negative : ℤ → Bool
is_negative (pos n) = false
is_negative (negsuc n) = true

-- `i < n` for a number `n`
abbrev pub below : ℤ → ℕ → Bool
below (pos i) n = ltb i n
below (negsuc i) n = true

module _ {ℓ} {A : Type ℓ} where
  -- `xs[:i]` and `xs[i:]`; a negative `i` counts from the end.
  abbrev pub slice_to : ℤ → List A → List A
  slice_to (pos n) xs = take n xs
  slice_to (negsuc n) xs = take (length xs - suc n) xs

  abbrev pub slice_from : ℤ → List A → List A
  slice_from (pos n) xs = drop n xs
  slice_from (negsuc n) xs = drop (length xs - suc n) xs
