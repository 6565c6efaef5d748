-- ===== src/Storage/Readers.antt =====
-- Files that are open for reading (the language's): what is left, and how the next reads are cut. A
-- read of `n` bytes gives between 1 and `n` of them unless nothing is left; `pieces` holds one less
-- than the most that each of the next reads gives, and a read past its end is not cut.
use rohmu.Base.{
  Bytes, ℕ, List, [], ◌++◌, ◌≡◌, take, length, ◌⊎◌, inl, drop, ◌≤◌, ◌<◌, arith, ◌∷◌, is_empty,
  take-append-drop, suc, min, length-take, inr, zero, refl,
}

pub record Reader : Type 0 where
  pub rest : Bytes
  pub pieces : List ℕ

abbrev pub whole : Bytes → Reader
whole bytes = record { rest = bytes; pieces = [] }

unfoldable pub read_cut : ℕ → Bytes → List ℕ → Bytes × Reader
read_cut n rest [] = (take n rest, record { rest = drop n rest; pieces = [] })
read_cut n rest (p ∷ ps) =
    (take (min n (suc p)) rest, record { rest = drop (min n (suc p)) rest; pieces = ps })

-- `fd.read(n)`
unfoldable pub read_some : ℕ → Reader → Bytes × Reader
read_some n reader = read_cut n reader.rest reader.pieces

-- What a read has given, and what it leaves.
abbrev pub Given : ℕ → Bytes → Bytes × Reader → Type 0
Given n bytes (got, after) =
    (got ++ after.rest ≡ bytes) × (length got ≤ n) × (is_empty got ≡ is_empty (take n bytes))

empty_alike :
    (n k : ℕ) (bytes : Bytes)
    → (n ≡ 0) ⊎ (0 < k)
    → k ≤ n
    → is_empty (take k bytes) ≡ is_empty (take n bytes)
empty_alike zero zero bytes e le = refl
empty_alike zero (suc k) bytes e le = absurd (omega arith)
empty_alike (suc n) zero bytes (inl e) le = absurd (omega arith)
empty_alike (suc n) zero bytes (inr e) le = absurd (omega arith)
empty_alike (suc n) (suc k) [] e le = refl
empty_alike (suc n) (suc k) (x ∷ bytes) e le = refl

cut-Given :
    (n k : ℕ) (bytes : Bytes) (ps : List ℕ)
    → (n ≡ 0) ⊎ (0 < k)
    → k ≤ n
    → Given n bytes (take k bytes, record { rest = drop k bytes; pieces = ps })
cut-Given n k bytes ps some_of le =
    (take-append-drop k bytes, omega (arith, length-take k bytes), empty_alike n k bytes some_of le)

read_cut-Given : (n : ℕ) (bytes : Bytes) (ps : List ℕ) → Given n bytes (read_cut n bytes ps)
unfolding read_cut
read_cut-Given zero bytes [] = cut-Given 0 0 bytes [] (inl refl) (omega arith)
read_cut-Given (suc n) bytes [] =
    cut-Given (suc n) (suc n) bytes [] (inr (omega arith)) (omega arith)
read_cut-Given zero bytes (p ∷ ps) = cut-Given 0 (min 0 (suc p)) bytes ps (inl refl) (omega arith)
read_cut-Given (suc n) bytes (p ∷ ps) =
    cut-Given (suc n) (min (suc n) (suc p)) bytes ps (inr (omega arith)) (omega arith)

pub read_some-Given : (n : ℕ) (reader : Reader) → Given n reader.rest (read_some n reader)
unfolding read_some
read_some-Given n reader = read_cut-Given n reader.rest reader.pieces
