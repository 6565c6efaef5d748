-- ===== src/Disk.antt =====
-- The file system of the host, as the language gives it to the code: paths, files and directories, and what
-- the calls of `os`, `os.path` and `shutil` that the code makes do to them.
pub mod Looks
use rohmu.Storage.{rstrip, slash, ends_with_slash, starts_with}
use rohmu.Storage.Values.{Text}
use rohmu.Base.{
  Bytes, List, Option, Outcome, ℕ, none, ◌∷◌, Bool, if◌then◌else◌, diverge, ok, bytes_eq, false,
  is_empty, err, some, suc, true, ◌==◌, ◌||◌, os_error, [], zero, ◌++◌,
}

pub data Node : Type 0 where
  file : Bytes → Node
  directory : Node

-- Paths and what stands there, in the order in which a directory is listed
abbrev pub Disk : Type 0
Disk = List (Text × Node)

unfoldable pub look : Text → Disk → Option Node
look path [] = none
look path ((p, node) ∷ disk) = if bytes_eq p path then some node else look path disk

unfoldable pub put : Text → Node → Disk → Disk
put path node [] = (path, node) ∷ []
put path node ((p, old) ∷ disk) =
    if bytes_eq p path then (p, node) ∷ disk else (p, old) ∷ put path node disk

unfoldable pub unset : Text → Disk → Disk
unset path [] = []
unset path ((p, old) ∷ disk) =
    let rest = unset path disk in if bytes_eq p path then rest else (p, old) ∷ rest

-- `os.path.exists`, `os.path.isfile` and `os.path.isdir`, of what stands at a path
unfoldable pub is_something : Option Node → Bool
is_something none = false
is_something (some node) = true

unfoldable pub is_file : Option Node → Bool
is_file (some (file bytes)) = true
is_file other = false

unfoldable pub is_directory : Option Node → Bool
is_directory (some directory) = true
is_directory other = false

-- `os.path.split`, before the slashes behind the head are dropped: up to the last slash, and the rest
unfoldable pub place : ℕ → Text → Text → Text × Text
place c [] tail = if c == slash then (c ∷ [], tail) else ([], c ∷ tail)
place c (h ∷ head) tail = (c ∷ h ∷ head, tail)

unfoldable pub split_path : Text → Text × Text
split_path [] = ([], [])
split_path (c ∷ cs) = let (head, tail) = split_path cs in place c head tail

-- Slashes alone are kept.
unfoldable pub dirname : Text → Text
dirname path =
    let head = (split_path path).0 in if is_empty (rstrip head) then head else rstrip head

unfoldable pub basename : Text → Text
basename path = (split_path path).1

-- `os.path.join`
unfoldable pub join_path : Text → Text → Text
join_path a [] = if is_empty a || ends_with_slash a then a else a ++ slash ∷ []
join_path a (c ∷ cs) =
    if c == slash
    then c ∷ cs
    else if is_empty a || ends_with_slash a
    then a ++ c ∷ cs
    else a ++ slash ∷ c ∷ cs

-- `os.mkdir`, where a directory that is there is no error: its parent must be a directory, and the
-- working directory, "", is one.
unfoldable pub mkdir : Text → Disk → Outcome Disk
mkdir path disk =
    if is_something (look path disk)
    then (if is_directory (look path disk) then ok disk else err os_error)
    else if is_empty (dirname path) || is_directory (look (dirname path) disk)
    then ok (put path directory disk)
    else err os_error

unfoldable pub and_then : (Disk → Outcome Disk) → Outcome Disk → Outcome Disk
and_then f (ok disk) = f disk
and_then f (err e) = err e
and_then f diverge = diverge

-- `os.makedirs(path, exist_ok=True)`; each round drops a part of the path.
unfoldable pub makedirs_rounds : ℕ → Text → Disk → Outcome Disk
makedirs_rounds zero path disk = diverge
makedirs_rounds (suc rounds) path disk = and_then (mkdir path) (
    if is_empty (dirname path) || is_something (look (dirname path) disk)
    then ok disk
    else makedirs_rounds rounds (dirname path) disk)

-- Whether the directory of a path is there
unfoldable pub has_directory : Text → Disk → Bool
has_directory path disk = is_empty (dirname path) || is_directory (look (dirname path) disk)

-- `shutil.rmtree`: the directory and everything under it
unfoldable pub drop_tree : Text → Disk → Disk
drop_tree path [] = []
drop_tree path ((p, node) ∷ disk) =
    let rest = drop_tree path disk in
    if bytes_eq p path || starts_with (path ++ slash ∷ []) p then rest else (p, node) ∷ rest
