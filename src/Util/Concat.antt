-- ===== src/Util/Concat.antt =====
-- rohmu/util.py: `BinaryStreamsConcatenation` reads as one file that holds the files' contents.
use rohmu.Util.{
  Concatenation, read_loop, BinaryFile, read_chunk, read_current, read_file, next_file, is_none,
  is_zero, positive, read, read_started, new_concatenation,
}
use rohmu.Base.{
  List, Option, ℕ, Bytes, Outcome, ◌∷◌, Bool, ◌++◌, [], ◌≡◌, some, ok, none, take, drop, ℤ, true,
  ◌+◌, ◌*◌, length, ◌≤◌, suc, pos, arith, Bool-cases, leb, inl, inr, zero, sub_ℕ, append-nil, ◌-◌,
  length-take, take_within, sym, drop_within, ◌∙◌, ap, take_all, drop_all, refl, take_beyond,
  drop_beyond, append_assoc, false, negsuc, ◌-ℕ◌, ◌<◌,
}

-- What the files have left, one after the other.
unfoldable pub contents_of : List BinaryFile → Bytes
contents_of [] = []
contents_of (file ∷ files) = file.left ++ contents_of files

unfoldable pub left_in : Option BinaryFile → Bytes
left_in none = []
left_in (some file) = file.left

unfoldable pub contents : Concatenation → Bytes
contents s = left_in s.current_file ++ contents_of s.iter_files

-- What a `read` of some bytes does to the contents.
abbrev Taken : ℕ → Bytes → Bytes → Outcome Bytes × Concatenation → Type 0
Taken n result before r = (r.0 ≡ ok (result ++ take n before)) × (contents r.1 ≡ drop n before)

abbrev rounds : Bytes → ℕ
rounds [] = 1
rounds (x ∷ xs) = 2

rounds_le : (bytes : Bytes) → rounds bytes ≤ 2
rounds_le [] = omega arith
rounds_le (x ∷ xs) = omega arith

abbrev reading : Bytes → Bool → List BinaryFile → List BinaryFile → Concatenation
reading bytes closed files before = record {
  iter_files = files;
  current_file = some (record { left = bytes; closed = closed });
  closed_files = before;
}

sub_ℕ_le : (a b : ℕ) → b ≤ a → sub_ℕ a b ≡ pos (a - b)
sub_ℕ_le a b le = ground arith

sub_ℕ_zero : (m : ℕ) → sub_ℕ (suc m) 0 ≡ pos (suc m)
sub_ℕ_zero m = sub_ℕ_le (suc m) 0 (omega arith) ∙ ap pos (omega arith)

sub_ℕ_self : (a b : ℕ) → a ≡ b → sub_ℕ a b ≡ pos 0
sub_ℕ_self a b eq = ground arith

read_loop-positive :
    (fuel m : ℕ) (size : ℤ) (result bytes : Bytes) (closed : Bool) (files before : List BinaryFile)
    → positive size ≡ true
    → rounds bytes + 2 * length files ≤ fuel
    → Taken
        (suc m)
        result
        (bytes ++ contents_of files)
        (read_loop fuel size (pos (suc m)) result (reading bytes closed files before))
unfolding read_loop read_chunk read_current read_file next_file is_none is_zero contents left_in
    contents_of
read_loop-positive zero m size result [] closed files before p le = absurd (omega arith)
read_loop-positive zero m size result (x ∷ xs) closed files before p le = absurd (omega arith)
read_loop-positive (suc fuel) m size result [] closed [] before p le =
    (rw (append-nil result) refl, refl)
read_loop-positive (suc fuel) m size result [] closed (file ∷ files) before p le =
    rw (sub_ℕ_zero m, p, append-nil result)
      (read_loop-positive fuel m size result file.left file.closed files
        (record { left = []; closed = true } ∷ before) p (omega (arith, rounds_le file.left)))
read_loop-positive (suc fuel) m size result (x ∷ xs) closed files before p le =
    elim (Bool-cases (leb m (length xs))) [
      | inl e ↦
          let le : m ≤ length xs = ground arith in
          rw
            (
              sub_ℕ_self (suc m) (suc (length (take m xs))) (omega (arith, length-take m xs)),
              p,
              take_within m xs (contents_of files) le,
            )
            (refl, sym (drop_within m xs (contents_of files) le))
      | inr e ↦
          let n : ℕ = m - suc (length xs) in
          let split : m ≡ length xs + suc n = ground arith in
          let left : sub_ℕ (suc m) (suc (length xs)) ≡ pos (suc n) =
            sub_ℕ_le (suc m) (suc (length xs)) (ground arith) ∙ ap pos (ground arith) in
          rw (take_all m xs (ground arith), drop_all m xs (ground arith), left, p)
            let h =
                read_loop-positive fuel n size (result ++ x ∷ xs) [] closed files before p
                  (omega arith) in
              let taken : take m (xs ++ contents_of files)
                  ≡ xs ++ take (suc n) (contents_of files) =
                ap (λ k. take k (xs ++ contents_of files)) split
                ∙ take_beyond (suc n) xs (contents_of files) in
              let dropped : drop m (xs ++ contents_of files) ≡ drop (suc n) (contents_of files) =
                ap (λ k. drop k (xs ++ contents_of files)) split
                ∙ drop_beyond (suc n) xs (contents_of files) in
              (
                h.0
                    ∙ ap ok (
                        append_assoc result (x ∷ xs) (take (suc n) (contents_of files))
                        ∙ ap (λ t. result ++ x ∷ t) (sym taken)),
                h.1 ∙ sym dropped,
              )
    ]

positive-sub : (size : ℤ) (n : ℕ) → positive size ≡ false → positive (size -ℕ n) ≡ false
unfolding positive
positive-sub (pos zero) zero h = refl
positive-sub (pos zero) (suc n) h = ground arith
positive-sub (pos (suc m)) n h = absurd (cc h)
positive-sub (negsuc m) n h = refl

read_file_all :
    (size : ℤ) (file : BinaryFile)
    → positive size ≡ false
    → read_file size file ≡ (file.left, record file { left = [] })
unfolding read_file positive
read_file_all (pos zero) file h = refl
read_file_all (pos (suc m)) file h = absurd (cc h)
read_file_all (negsuc m) file h = refl

-- A `read` without a limit: everything is read, and every file is closed.
abbrev Drained : ℕ → Bytes → Bytes → Outcome Bytes × Concatenation → Type 0
Drained n result before r =
    (r.0 ≡ ok (result ++ before))
    × (r.1.iter_files ≡ [])
    × (r.1.current_file ≡ none)
    × (length r.1.closed_files ≡ n)

read_loop_all :
    (fuel : ℕ) (size left : ℤ) (result bytes : Bytes) (closed : Bool)
    (files before : List BinaryFile)
    → positive size ≡ false
    → positive left ≡ false
    → rounds bytes + 2 * length files ≤ fuel
    → Drained
        (length before + suc (length files))
        result
        (bytes ++ contents_of files)
        (read_loop fuel size left result (reading bytes closed files before))
unfolding read_loop read_chunk read_current next_file is_none contents_of
read_loop_all zero size left result [] closed files before p q le = absurd (omega arith)
read_loop_all zero size left result (x ∷ xs) closed files before p q le = absurd (omega arith)
read_loop_all (suc fuel) size left result [] closed [] before p q le =
    rw (read_file_all left (record { left = []; closed = closed }) q, append-nil result)
      (refl, refl, refl, omega arith)
read_loop_all (suc fuel) size left result [] closed (file ∷ files) before p q le =
    rw (read_file_all left (record { left = []; closed = closed }) q, p, append-nil result)
      (let (r, i, c, n) =
          read_loop_all fuel size (left -ℕ 0) result file.left file.closed files
            (record { left = []; closed = true } ∷ before) p (positive-sub left 0 q)
            (omega (arith, rounds_le file.left)) in
        (r, i, c, omega (arith, n)))
read_loop_all (suc fuel) size left result (x ∷ xs) closed files before p q le =
    rw (read_file_all left (record { left = x ∷ xs; closed = closed }) q, p)
      (let (r, i, c, n) =
          read_loop_all fuel size (left -ℕ suc (length xs)) (result ++ x ∷ xs) [] closed files
            before p (positive-sub left (suc (length xs)) q) (omega arith) in
        (r ∙ ap ok (append_assoc result (x ∷ xs) (contents_of files)), i, c, n))

-- From the start, a `read` of n > 0 bytes gives the first n bytes of the contents of the files put
-- together, or all if they are fewer, and leaves the rest to be read.
pub concatenation_read :
    (n : ℕ) (files : List BinaryFile)
    → 0 < n
    → let r = read (pos n) (new_concatenation files) in
      (r.0 ≡ ok (take n (contents_of files))) × (contents r.1 ≡ drop n (contents_of files))
unfolding read read_loop read_chunk read_started next_file read_current contents contents_of left_in
    is_none positive
concatenation_read zero files h = absurd (omega arith)
concatenation_read (suc n) [] h = (refl, refl)
concatenation_read (suc n) (file ∷ files) h =
    let reads =
      read_loop-positive (suc (suc (suc (2 * length (file ∷ files))))) n (pos (suc n)) [] file.left
        file.closed files [] refl (omega (arith, rounds_le file.left)) in
    reads

-- And a `read` without a limit, or with the limit 0, gives all the contents and closes every file.
pub concatenation_read_all :
    (size : ℤ) (files : List BinaryFile)
    → positive size ≡ false
    → let r = read size (new_concatenation files) in
      (r.0 ≡ ok (contents_of files))
      × (r.1.iter_files ≡ [])
      × (r.1.current_file ≡ none)
      × (length r.1.closed_files ≡ length files)
unfolding read read_loop read_chunk read_started next_file read_current contents_of is_none
concatenation_read_all size [] h = (refl, refl, refl, refl)
concatenation_read_all size (file ∷ files) h =
    let (r, i, c, n) =
      read_loop_all (suc (suc (suc (2 * length (file ∷ files))))) size size [] file.left file.closed
        files [] h h (omega (arith, rounds_le file.left)) in
    (r, i, c, omega (arith, n))
