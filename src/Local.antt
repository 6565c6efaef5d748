-- ===== src/Local.antt =====
-- rohmu/object_storage/local.py: the state that a local transfer works on, and the calls that it makes of
-- the host's files.
pub mod Objects
pub mod Listing
pub mod Concurrent
pub mod Ranges
pub mod Writes
pub mod Saves
pub mod Folders
pub mod Roundtrip
use rohmu.Storage.{lstrip, kept_prefix, format_key_for_backend, rstrip}
use rohmu.Storage.Readers.{Reader}
use rohmu.Base.{
  Method, ℕ, Outcome, Option, Bytes, None, ◌∷◌, Bool, ok, some, false, [], raise, err,
  if◌then◌else◌, List, loop_forever, suc, file_not_found, os_error, length, pure, diverge, none,
  true, Error,
}
use rohmu.Disk.{
  Disk, Node, makedirs_rounds, look, has_directory, join_path, is_directory, file, put, unset,
  drop_tree, directory,
}
use rohmu.Storage.Values.{Metadata, Text}

-- What the code takes from elsewhere: `json.dump` and `json.load` of metadata, the hex digest of SHA-256,
-- the path that `tempfile.mkstemp` makes for a prefix, a suffix and a directory, the time of a file and the
-- size of a directory, `uuid4` and the decimal text of a number.
pub record Runtime : Type 0 where
  pub dump : Metadata → Bytes
  pub load : Bytes → Option Metadata
  pub hexdigest : Bytes → Text
  pub mkstemp : Text → Text → Text → Disk → Text
  pub mtime : Text → Disk → ℕ
  pub directory_size : ℕ
  pub uuid : Disk → Text
  pub str : ℕ → Text

-- What a listing yields: an object, with its name, size, time, metadata if they are asked for, and digest if
-- there is one; or a prefix.
pub data Item : Type 0 where
  listed_object : Text → ℕ → ℕ → Option Metadata → Option Text → Item
  listed_prefix : Text → Item

pub data Event : Type 0 where
  object_created : Text → ℕ → Metadata → Event
  object_copied : Text → ℕ → Option Metadata → Event
  object_deleted tree_deleted : Text → Event
  progressed : ℕ → ℕ → Event
  upload_progressed : ℕ → Event
  yielded : Item → Event

-- The disk, the file that is read, the exception of a read beyond its end, if there is one, the file that is written, and the
-- events so far, the newest first.
pub record Local : Type 0 where
  pub disk : Disk
  pub source : Reader
  pub source_fails : Option Error
  pub target : Bytes
  pub events : List Event

unfoldable pub record_event : Event → Method Local None
record_event event s = (ok tt, record s { events = event ∷ s.events })

unfoldable pub set_disk : Disk → Method Local None
set_disk disk s = (ok tt, record s { disk = disk })

-- `key.strip("/")`
unfoldable pub strip : Text → Text
strip key = lstrip (rstrip key)

-- The prefix that `__init__` keeps; a transfer keeps nothing else.
unfoldable pub local_prefix : Text → Option Text → Text
local_prefix dir prefix =
    kept_prefix (some (join_path dir (strip (elim prefix [ none ↦ [] | some p ↦ p ]))))

unfoldable pub target_path : Text → Text → Text
target_path prefix key = format_key_for_backend prefix (strip key) false false

-- ".metadata", ".metadata_tmp", "_hash" and ".concurrent_upload_"
abbrev pub dot_metadata : Text
dot_metadata = 46 ∷ 109 ∷ 101 ∷ 116 ∷ 97 ∷ 100 ∷ 97 ∷ 116 ∷ 97 ∷ []

abbrev pub dot_metadata_tmp : Text
dot_metadata_tmp = 46 ∷ 109 ∷ 101 ∷ 116 ∷ 97 ∷ 100 ∷ 97 ∷ 116 ∷ 97 ∷ 95 ∷ 116 ∷ 109 ∷ 112 ∷ []

abbrev pub hash_key : Text
hash_key = 95 ∷ 104 ∷ 97 ∷ 115 ∷ 104 ∷ []

abbrev pub dot_concurrent_upload : Text
dot_concurrent_upload =
    46 ∷ 99 ∷ 111 ∷ 110 ∷ 99 ∷ 117 ∷ 114 ∷ 114 ∷ 101 ∷ 110 ∷ 116 ∷ 95 ∷ 117 ∷ 112 ∷ 108 ∷ 111 ∷ 97
    ∷ 100 ∷ 95 ∷ []

-- `LOCAL_CHUNK_SIZE`
abbrev pub chunk_size : ℕ
chunk_size = 1048576

unfoldable pub set_disk_if : Outcome Disk → Method Local None
set_disk_if (ok disk) = set_disk disk
set_disk_if (err e) = raise e
set_disk_if diverge = loop_forever

unfoldable pub makedirs : Text → Method Local None
makedirs path s = set_disk_if (makedirs_rounds (suc (length path)) path s.disk) s

-- `open(path, "rb")` and a read of all
unfoldable pub contents_of : Option Node → Method Local Bytes
contents_of none = raise file_not_found
contents_of (some directory) = raise os_error
contents_of (some (file bytes)) = pure bytes

unfoldable pub read_all : Text → Method Local Bytes
read_all path s = contents_of (look path s.disk) s

-- `open(path, "wb")` and the writing of these bytes
unfoldable pub write_node : Text → Bytes → Bool → Option Node → Method Local None
write_node path bytes in_directory (some directory) s = (err os_error, s)
write_node path bytes in_directory (some (file old)) s =
    (ok tt, record s { disk = put path (file bytes) s.disk })
write_node path bytes true none s = (ok tt, record s { disk = put path (file bytes) s.disk })
write_node path bytes false none s = (err file_not_found, s)

unfoldable pub write_all : Text → Bytes → Method Local None
write_all path bytes s = write_node path bytes (has_directory path s.disk) (look path s.disk) s

-- `os.unlink`
unfoldable pub unlink_node : Text → Option Node → Method Local None
unlink_node path none s = (err file_not_found, s)
unlink_node path (some directory) s = (err os_error, s)
unlink_node path (some (file bytes)) s = (ok tt, record s { disk = unset path s.disk })

unfoldable pub unlink : Text → Method Local None
unlink path s = unlink_node path (look path s.disk) s

-- `os.rename` of a file
unfoldable pub rename_node : Text → Text → Option Node → Option Node → Method Local None
rename_node from into (some (file bytes)) (some directory) s = (err os_error, s)
rename_node from into (some (file bytes)) (some (file old)) s =
    (ok tt, record s { disk = put into (file bytes) (unset from s.disk) })
rename_node from into (some (file bytes)) none s =
    (ok tt, record s { disk = put into (file bytes) (unset from s.disk) })
rename_node from into (some directory) other s = (err os_error, s)
rename_node from into none other s = (err file_not_found, s)

unfoldable pub rename : Text → Text → Method Local None
rename from into s = rename_node from into (look from s.disk) (look into s.disk) s

-- `shutil.rmtree`
unfoldable pub rmtree : Text → Method Local None
rmtree path s =
    if is_directory (look path s.disk)
    then (ok tt, record s { disk = drop_tree path s.disk })
    else (err os_error, s)

-- `with contextlib.suppress(FileNotFoundError)`, of a call
unfoldable pub suppress_missing : Outcome None × Local → Outcome None × Local
suppress_missing (ok a, s) = (ok tt, s)
suppress_missing (err file_not_found, s) = (ok tt, s)
suppress_missing (err e, s) = (err e, s)
suppress_missing (diverge, s) = (diverge, s)
