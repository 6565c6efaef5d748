-- ===== src/S3/Chunks.antt =====
-- rohmu/object_storage/s3.py: what `_read_bytes` gives, however the source cuts its reads.
use rohmu.Storage.Readers.{Reader, read_some, read_some-Given}
use rohmu.S3.Multipart.{read_results, joined_results, read_bytes}
use rohmu.Base.{
  zero, Bytes, List, ℕ, Option, Every, is_empty, ◌≡◌, none, false, true, join, ◌++◌, ◌≤◌, take, ◌∷◌,
  [], ◌<◌, drop, length, some, arith, ◌-◌, sym, ap, refl, ◌+◌, ◌∙◌, append-nil, take_beyond,
  take-append-drop, ap₂, drop_beyond, suc, Bool-cases, inl, inr, ◌==◌,
}

unfoldable pub some_unless_empty : Bytes → Option Bytes
some_unless_empty [] = none
some_unless_empty (x ∷ xs) = some (x ∷ xs)

abbrev pub Nonempty : List Bytes → Type 0
Nonempty results = Every (λ result. is_empty result ≡ false) results

empty_eq : (xs : Bytes) → is_empty xs ≡ true → xs ≡ []
empty_eq [] h = refl
empty_eq (x ∷ xs) h = absurd (cc h)

positive_length : (xs : Bytes) → is_empty xs ≡ false → 0 < length xs
positive_length [] h = absurd (cc h)
positive_length (x ∷ xs) h = omega arith

-- What the reads have given of the bytes there were.
abbrev pub Collected : ℕ → Bytes → List Bytes × Reader → Type 0
Collected n bytes (results, after) =
    (join results ≡ take n bytes) × (after.rest ≡ drop n bytes) × Nonempty results

-- A first read, and what follows it.
Collected-next :
    (n : ℕ) (bytes got left : Bytes) (results : List Bytes) (after : Reader)
    → got ++ left ≡ bytes
    → length got ≤ n
    → is_empty got ≡ false
    → Collected (n - length got) left (results, after)
    → Collected n bytes (got ∷ results, after)
Collected-next n bytes got left results after parts le full (joins, leaves, each) =
    let at : length got + (n - length got) ≡ n = omega arith in
    (
      ap (λ t. got ++ t) joins
          ∙ sym (take_beyond (n - length got) got left)
          ∙ ap₂ (λ k b. take k b) at parts,
      leaves ∙ sym (drop_beyond (n - length got) got left) ∙ ap₂ (λ k b. drop k b) at parts,
      (full, each),
    )

Collected-end :
    (n : ℕ) (bytes got left : Bytes) (after : Reader)
    → got ++ left ≡ bytes
    → is_empty got ≡ is_empty (take n bytes)
    → is_empty got ≡ true
    → after.rest ≡ left
    → Collected n bytes ([], after)
Collected-end n bytes [] left after parts alike e rest =
    let none_left : take n bytes ≡ [] = empty_eq (take n bytes) (sym alike) in
    (
      sym none_left,
      rest ∙ parts ∙ sym (take-append-drop n bytes) ∙ ap (λ t. t ++ drop n bytes) none_left,
      tt,
    )
Collected-end n bytes (x ∷ got) left after parts alike e rest = cc

not_zero : (n : ℕ) → (suc n == 0) ≡ false
not_zero n = ground arith

pub read_results-Collected :
    (rounds n : ℕ) (stream : Reader)
    → n ≤ rounds
    → Collected n stream.rest (read_results rounds n stream)
unfolding read_results
read_results-Collected zero zero stream le = (refl, refl, tt)
read_results-Collected zero (suc n) stream le = absurd (omega arith)
read_results-Collected (suc rounds) zero stream le = (refl, refl, tt)
read_results-Collected (suc rounds) (suc n) stream le =
    let r = read_some (suc n) stream in
    let (parts, within, alike) = read_some-Given (suc n) stream in
    elim (Bool-cases (is_empty r.0)) [
      | inl e ↦
          rw (not_zero n, e) (Collected-end (suc n) stream.rest r.0 r.1.rest r.1 parts alike e refl)
      | inr e ↦
          rw (not_zero n, e)
            (Collected-next (suc n) stream.rest r.0 r.1.rest
              (read_results rounds (suc n - length r.0) r.1).0
              (read_results rounds (suc n - length r.0) r.1).1 parts within e
              (read_results-Collected rounds (suc n - length r.0) r.1
                (ground (arith, positive_length r.0 e))))
    ]

joined_results-join :
    (results : List Bytes)
    → Nonempty results
    → joined_results results ≡ some_unless_empty (join results)
unfolding joined_results some_unless_empty
joined_results-join [] each = refl
joined_results-join ((x ∷ xs) ∷ []) each = ap (λ t. some (x ∷ t)) (sym (append-nil xs))
joined_results-join ((x ∷ xs) ∷ result ∷ results) each = refl
joined_results-join ([] ∷ []) (e, each) = absurd (cc e)
joined_results-join ([] ∷ result ∷ results) (e, each) = absurd (cc e)

-- A read of n bytes from a source that may give less than it is asked for gives the first n of those
-- that are left, or all of them, and None when there is none; the source goes on behind them.
pub read_bytes_lem :
    (stream : Reader) (n : ℕ)
    → ((read_bytes stream n).0 ≡ some_unless_empty (take n stream.rest))
      × ((read_bytes stream n).1.rest ≡ drop n stream.rest)
unfolding read_bytes
read_bytes_lem stream n =
    let (joins, leaves, each) = read_results-Collected n n stream (omega arith) in
    (joined_results-join (read_results n n stream).0 each ∙ ap some_unless_empty joins, leaves)
