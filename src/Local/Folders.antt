-- ===== src/Local/Folders.antt =====
-- rohmu/object_storage/local.py: the directories that are made on the way to a file.
use rohmu.Base.{
  ◌≡◌, ◌≤◌, ◌<◌, is_empty, ◌||◌, some, arith, bytes_eq, true, none, ok, false, ◌∙◌, suc, refl,
  Bool-cases, ap, zero, inr, if◌then◌else◌, bytes_eq_refl, inl, bytes_eq→eq, ◌∷◌, subst, sym, [],
}
use rohmu.Disk.Looks.{look-put}
use rohmu.Disk.{
  makedirs_rounds, mkdir, and_then, is_something, is_directory, has_directory, look, put, directory,
  dirname, Disk,
}
use rohmu.Local.{Local, makedirs, set_disk_if, set_disk, ℕ, length, Bool, Outcome}
use rohmu.Storage.Values.{Text}

-- So many directories are missing on the way up from a path to one that is there, as is the one above it.
abbrev pub Opens : ℕ → Text → Disk → Type 0
Opens zero path disk = (look path disk ≡ some directory) × (has_directory path disk ≡ true)
Opens (suc n) path disk =
    (look path disk ≡ none) × (length (dirname path) < length path) × Opens n (dirname path) disk

Opens-within : (n : ℕ) (path : Text) (disk : Disk) → Opens n path disk → n ≤ length path
Opens-within zero path disk opens = omega arith
Opens-within (suc n) path disk (nothing, shorter, opens) =
    omega (arith, shorter, Opens-within n (dirname path) disk opens)

longer_path : (p q : Text) → length p < length q → bytes_eq p q ≡ false
longer_path p q h = elim (Bool-cases (bytes_eq p q)) [
  | inr e ↦ e
  | inl e ↦ absurd (omega (arith, ap length (bytes_eq→eq p q e), h))
]

parent_there :
    (dir : Text) (disk : Disk)
    → (is_empty dir || is_directory (look dir disk)) ≡ true
    → (is_empty dir || is_something (look dir disk)) ≡ true
unfolding is_directory is_something
parent_there dir disk h = ground arith

pub either_true : (c : Bool) → (c || true) ≡ true
either_true true = refl
either_true false = refl

makedirs_rounds_lem :
    (path : Text) (disk : Disk) (rounds : ℕ)
    → look path disk ≡ some directory
    → has_directory path disk ≡ true
    → makedirs_rounds (suc rounds) path disk ≡ ok disk
unfolding makedirs_rounds mkdir and_then is_something is_directory has_directory
makedirs_rounds_lem path disk rounds there above =
    rw (parent_there (dirname path) disk above, there) refl

mkdir_new :
    (path : Text) (disk : Disk)
    → look path disk ≡ none
    → look (dirname path) disk ≡ some directory
    → mkdir path disk ≡ ok (put path directory disk)
unfolding mkdir is_something is_directory
mkdir_new path disk nothing there = rw (nothing, there, either_true (is_empty (dirname path))) refl

-- What the making of directories comes to: nothing changes at longer paths.
abbrev Made : Text → Disk → Outcome Disk → Type 0
Made path disk x =
    (after : Disk) × (x ≡ ok after)
    × (look path after ≡ some directory)
    × ((q : Text) → length path < length q → look q after ≡ look q disk)

mkdir-Made :
    (path : Text) (before disk : Disk)
    → look path disk ≡ none
    → look (dirname path) disk ≡ some directory
    → ((q : Text) → length path < length q → look q disk ≡ look q before)
    → Made path before (mkdir path disk)
mkdir-Made path before disk nothing there same = (
  put path directory disk,
  mkdir_new path disk nothing there,
  look-put path path directory disk
      ∙ ap (λ (c : Bool). if c then some directory else look path disk) (bytes_eq_refl path),
  λ q longer.
      look-put path q directory disk
      ∙ ap (λ (c : Bool). if c then some directory else look q disk) (longer_path path q longer)
      ∙ same q longer,
)

nonempty : (n : ℕ) (path : Text) → n < length path → is_empty path ≡ false
nonempty n [] h = absurd (omega arith)
nonempty n (c ∷ path) h = refl

-- The test of `os.makedirs`
abbrev parent_is : Text → Disk → Bool
parent_is path disk = is_empty (dirname path) || is_something (look (dirname path) disk)

parent_made :
    (path : Text) (disk : Disk)
    → look (dirname path) disk ≡ some directory
    → parent_is path disk ≡ true
unfolding is_something
parent_made path disk there = rw there (either_true (is_empty (dirname path)))

parent_missing :
    (n : ℕ) (path : Text) (disk : Disk)
    → n < length (dirname path)
    → look (dirname path) disk ≡ none
    → parent_is path disk ≡ false
unfolding is_something
parent_missing n path disk some_left nothing =
    rw (nothing, nonempty n (dirname path) some_left) refl

makedirs_rounds-Made :
    (n rounds : ℕ) (path : Text) (disk : Disk)
    → Opens n path disk
    → n < rounds
    → Made path disk (makedirs_rounds rounds path disk)
unfolding makedirs_rounds and_then
makedirs_rounds-Made n zero path disk opens le = absurd (omega arith)
makedirs_rounds-Made zero (suc rounds) path disk (there, above) le =
    (disk, makedirs_rounds_lem path disk rounds there above, there, λ q longer. refl)
makedirs_rounds-Made (suc zero) (suc rounds) path disk (nothing, shorter, (there, above)) le =
    subst (Made path disk)
      (sym (
        ap
          (λ (b : Bool).
            and_then (mkdir path)
              (if b then ok disk else makedirs_rounds rounds (dirname path) disk))
          (parent_made path disk there)))
      (mkdir-Made path disk disk nothing there (λ q longer. refl))
makedirs_rounds-Made (suc (suc n)) (suc rounds) path disk (nothing, shorter, opens) le =
    let (after, made, there, same) =
      makedirs_rounds-Made (suc n) rounds (dirname path) disk opens (omega (arith, le)) in
    subst (Made path disk)
      (sym (
        ap
          (λ (b : Bool).
            and_then (mkdir path)
              (if b then ok disk else makedirs_rounds rounds (dirname path) disk))
          (parent_missing (length (dirname (dirname path))) path disk opens.1 opens.0)
        ∙ ap (and_then (mkdir path)) made))
      (mkdir-Made path disk after (same path shorter ∙ nothing) there
        (λ q longer. same q (omega (arith, shorter, longer))))

-- The directories that are missing are made.
pub makedirs-Opens :
    (n : ℕ) (path : Text) (s : Local)
    → Opens n path s.disk
    → (after : Disk) × (makedirs path s ≡ (ok tt, record s { disk = after }))
      × (look path after ≡ some directory)
      × ((q : Text) → length path < length q → look q after ≡ look q s.disk)
unfolding makedirs set_disk_if set_disk
makedirs-Opens n path s opens =
    let (after, made, there, same) =
      makedirs_rounds-Made n (suc (length path)) path s.disk opens
        (omega (arith, Opens-within n path s.disk opens)) in
    (after, ap (λ x. set_disk_if x s) made, there, same)
