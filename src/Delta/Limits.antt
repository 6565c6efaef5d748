-- ===== src/Delta/Limits.antt =====
-- rohmu/delta/common.py: `SizeLimitedFile` reads as a file cut at its limit.
use rohmu.Delta.{SizeLimitedFile, read_limited, read_raw, can_read}
use rohmu.Base.{
  ℕ, List, Bytes, drop, take, ◌≡◌, pos, min, ok, ◌-◌, arith, ◌+◌, length, suc, sym, negsuc,
  take-nil, refl, ◌∷◌, ap, zero, [],
}

module _ {ℓ} {A : Type ℓ} where
  drop-take : (c n : ℕ) (xs : List A) → drop c (take n xs) ≡ take (n - c) (drop c xs)
  drop-take zero n xs = let e : n - 0 ≡ n = omega arith in rw e refl
  drop-take (suc c) zero xs = let e : 0 - suc c ≡ 0 = omega arith in rw e refl
  drop-take (suc c) (suc n) [] = sym (take-nil (suc n - suc c))
  drop-take (suc c) (suc n) (x ∷ xs) =
      let e : suc n - suc c ≡ n - c = omega arith in rw e (drop-take c n xs)

  take-take : (m n : ℕ) (xs : List A) → take m (take n xs) ≡ take (min n m) xs
  take-take zero n xs = let e : min n 0 ≡ 0 = omega arith in rw e refl
  take-take (suc m) zero xs = let e : min 0 (suc m) ≡ 0 = omega arith in rw e refl
  take-take (suc m) (suc n) [] = sym (take-nil (min (suc n) (suc m)))
  take-take (suc m) (suc n) (x ∷ xs) =
      let e : min (suc n) (suc m) ≡ suc (min n m) = omega arith in
      rw e (ap (λ t. x ∷ t) (take-take m n xs))

min_self : (n : ℕ) → min n n ≡ n
min_self n = omega arith

-- The file as it would be if it ended at the limit.
abbrev cut : SizeLimitedFile → Bytes
cut s = take s.file_size s.file

-- A `read` of n bytes, or of all with -1, gives what the same `read` of the file cut at the limit
-- would give, and moves the cursor over it.
pub read_limited-cut :
    (s : SizeLimitedFile) (n : ℕ)
    → (read_limited (pos n) s ≡ (
      ok (take n (drop s.cursor (cut s))),
      record s { cursor = s.cursor + length (take n (drop s.cursor (cut s))) },
    ))
      × (read_limited (negsuc 0) s ≡ (
        ok (drop s.cursor (cut s)),
        record s { cursor = s.cursor + length (drop s.cursor (cut s)) },
      ))
unfolding read_limited read_raw can_read
read_limited-cut s n =
    rw
      (
        drop-take s.cursor s.file_size s.file,
        take-take n (s.file_size - s.cursor) (drop s.cursor s.file),
      )
      (refl, rw (min_self (can_read s)) refl)
