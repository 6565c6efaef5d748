-- ===== src/S3/Order.antt =====
-- rohmu/object_storage/s3.py: the list of chunks that completes a concurrent upload.
use rohmu.Storage.Values.{Text, set_etag, insert_part, sorted_parts}
use rohmu.Base.{
  ℕ, List, Option, none, ◌∷◌, ◌≡◌, ◌≤◌, [], suc, Bool-cases, ◌∙◌, arith, if◌then◌else◌, ap, leb,
  ◌==◌, some, inl, refl, inr,
}

unfoldable pub etag_of : ℕ → List (ℕ × Text) → Option Text
etag_of k [] = none
etag_of k ((n, etag) ∷ chunks) = if n == k then some etag else etag_of k chunks

-- Numbers that grow strictly, from `low` on
abbrev pub Ascending : ℕ → List (ℕ × Text) → Type 0
Ascending low [] = Unit
Ascending low (part ∷ parts) = (low ≤ part.0) × Ascending (suc part.0) parts

abbrev pub Distinct : List (ℕ × Text) → Type 0
Distinct [] = Unit
Distinct (part ∷ parts) = (etag_of part.0 parts ≡ none) × Distinct parts

pub etag_of-set_etag :
    (k number : ℕ) (etag : Text) (chunks : List (ℕ × Text))
    → etag_of k (set_etag number etag chunks)
      ≡ (if number == k then some etag else etag_of k chunks)
unfolding etag_of set_etag
etag_of-set_etag k number etag [] = refl
etag_of-set_etag k number etag ((n, old) ∷ chunks) =
    ground (arith, etag_of-set_etag k number etag chunks)

pub set_etag-Distinct :
    (number : ℕ) (etag : Text) (chunks : List (ℕ × Text))
    → Distinct chunks
    → Distinct (set_etag number etag chunks)
unfolding etag_of set_etag
set_etag-Distinct number etag [] d = (refl, tt)
set_etag-Distinct number etag ((n, old) ∷ chunks) (fresh, d) = elim (Bool-cases (n == number)) [
  | inl e ↦ rw e (fresh, d)
  | inr e ↦ rw e (
    rw (etag_of-set_etag n number etag chunks) (ground (arith, fresh)),
    set_etag-Distinct number etag chunks d,
  )
]

etag_of-insert_part :
    (k : ℕ) (part : ℕ × Text) (parts : List (ℕ × Text))
    → etag_of k (insert_part part parts) ≡ (if part.0 == k then some part.1 else etag_of k parts)
unfolding etag_of insert_part
etag_of-insert_part k part [] = refl
etag_of-insert_part k part (other ∷ parts) = ground (arith, etag_of-insert_part k part parts)

pub etag_of-sorted_parts :
    (k : ℕ) (parts : List (ℕ × Text)) → etag_of k (sorted_parts parts) ≡ etag_of k parts
unfolding etag_of sorted_parts
etag_of-sorted_parts k [] = refl
etag_of-sorted_parts k (part ∷ parts) =
    etag_of-insert_part k part (sorted_parts parts)
    ∙ ap (λ o. if part.0 == k then some part.1 else o) (etag_of-sorted_parts k parts)

insert_part-Ascending :
    (low : ℕ) (part : ℕ × Text) (parts : List (ℕ × Text))
    → low ≤ part.0
    → etag_of part.0 parts ≡ none
    → Ascending low parts
    → Ascending low (insert_part part parts)
unfolding etag_of insert_part
insert_part-Ascending low part [] le fresh asc = (le, tt)
insert_part-Ascending low part (other ∷ parts) le fresh (first, asc) =
    elim (Bool-cases (leb part.0 other.0)) [
      | inl e ↦ rw e (le, (ground arith, asc))
      | inr e ↦
          rw e (
            first,
            insert_part-Ascending (suc other.0) part parts (ground arith) (ground arith) asc,
          )
    ]

pub sorted_parts-Ascending :
    (parts : List (ℕ × Text)) → Distinct parts → Ascending 0 (sorted_parts parts)
unfolding sorted_parts
sorted_parts-Ascending [] d = tt
sorted_parts-Ascending (part ∷ parts) (fresh, d) =
    insert_part-Ascending 0 part (sorted_parts parts) (omega arith)
      (etag_of-sorted_parts part.0 parts ∙ fresh) (sorted_parts-Ascending parts d)
