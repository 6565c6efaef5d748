-- ===== src/Inotify.antt =====
-- rohmu/inotify.py: the parsing of an event buffer, and what `InotifyWatcher` makes of an event.
pub mod Buffers
pub mod Moves
use rohmu.Base.{
  Bytes, ℕ, ℤ, ◌∷◌, if◌then◌else◌, drop, List, ◌+◌, ltb, is_empty, take, [], length, ◌*◌, ◌^◌, ◌&&◌,
  suc, pos, ◌==◌, leb, negsuc, zero, ◌-◌, Bool, Option, bytes_eq, ◌++◌, Outcome, false, none, ◌/◌,
  ◌||◌, Method, some, ◌%◌, None, err, ok, key_error, ◌>>=◌, diverge,
}

-- A field of four bytes, the lowest first; of fewer bytes it is not read.
unfoldable pub field : Bytes → ℕ
field [] = 0
field (a ∷ []) = 0
field (a ∷ b ∷ []) = 0
field (a ∷ b ∷ c ∷ []) = 0
field (a ∷ b ∷ c ∷ d ∷ rest) = a + 256 * (b + 256 * (c + 256 * d))

-- A number of 32 bits read as a signed one
unfoldable pub signed : ℕ → ℤ
signed n = if ltb n (2 ^ 31) then pos n else negsuc (2 ^ 32 - n - 1)

-- `name.rstrip(b"\0")`
unfoldable pub rstrip_nul : Bytes → Bytes
rstrip_nul [] = []
rstrip_nul (c ∷ cs) = let rest = rstrip_nul cs in if is_empty rest && c == 0 then [] else c ∷ rest

pub record Event : Type 0 where
  pub wd : ℤ
  pub mask : ℕ
  pub cookie : ℕ
  pub name : Bytes

-- The event at the start of a buffer, and the length that its name has there.
unfoldable pub name_length : Bytes → ℕ
name_length buffer = field (drop 12 buffer)

unfoldable pub event_at : Bytes → Event
event_at buffer = record {
  wd = signed (field buffer);
  mask = field (drop 4 buffer);
  cookie = field (drop 8 buffer);
  name = rstrip_nul (take (name_length buffer) (drop 16 buffer));
}

-- The loop of `parse_inotify_buffer`, on what the buffer has from its `i` on; each round takes at
-- least 16 bytes.
unfoldable pub parse_loop : ℕ → Bytes → List Event
parse_loop zero buffer = []
parse_loop (suc fuel) buffer =
    let rest = parse_loop fuel (drop (16 + name_length buffer) buffer) in
    if leb 16 (length buffer) then event_at buffer ∷ rest else []

unfoldable pub parse_inotify_buffer : Bytes → List Event
parse_inotify_buffer buffer = parse_loop (length buffer) buffer

-- What goes to the queue: the full path, where a moved file comes from, and the watched path.
pub data Message : Type 0 where
  close_write deleted created : Bytes → Bytes → Message
  moved : Bytes → Bytes → Bytes → Message

-- `InotifyWatcher`: its two tables, what it has put to the queue, and the watches it has removed.
pub record Watcher : Type 0 where
  pub watch_to_path : List (ℤ × Bytes)
  pub cookies : List (ℕ × Bytes)
  pub queue : List Message
  pub removed : List ℤ

unfoldable pub int_eq : ℤ → ℤ → Bool
int_eq (pos a) (pos b) = a == b
int_eq (pos a) (negsuc b) = false
int_eq (negsuc a) (pos b) = false
int_eq (negsuc a) (negsuc b) = a == b

unfoldable pub path_of : ℤ → List (ℤ × Bytes) → Option Bytes
path_of wd [] = none
path_of wd ((w, path) ∷ watches) = if int_eq w wd then some path else path_of wd watches

unfoldable pub unwatch : ℤ → List (ℤ × Bytes) → List (ℤ × Bytes)
unwatch wd [] = []
unwatch wd ((w, path) ∷ watches) =
    let rest = unwatch wd watches in if int_eq w wd then rest else (w, path) ∷ rest

unfoldable pub source_of : ℕ → List (ℕ × Bytes) → Option Bytes
source_of cookie [] = none
source_of cookie ((c, path) ∷ cookies) = if c == cookie then some path else source_of cookie cookies

unfoldable pub forget_cookie : ℕ → List (ℕ × Bytes) → List (ℕ × Bytes)
forget_cookie cookie [] = []
forget_cookie cookie ((c, path) ∷ cookies) =
    let rest = forget_cookie cookie cookies in if c == cookie then rest else (c, path) ∷ rest

-- `mask & flag` for a flag of one bit
unfoldable pub has : ℕ → ℕ → Bool
has mask flag = mask / flag % 2 == 1

-- `os.path.join(directory, name)`; "/" is 47.
unfoldable pub join_path : Bytes → Bytes → Bytes
join_path directory name =
    if bytes_eq (take 1 name) (47 ∷ [])
    then name
    else if is_empty directory || bytes_eq (drop (length directory - 1) directory) (47 ∷ [])
    then directory ++ name
    else directory ++ 47 ∷ name

unfoldable pub put : Message → Watcher → Watcher
put message s = record s { queue = s.queue ++ message ∷ [] }

-- The message for a file that has been moved here; a source of no characters counts as none.
unfoldable pub moved_here : Option Bytes → Bytes → Bytes → Message
moved_here none full watched = created full watched
moved_here (some []) full watched = created full watched
moved_here (some (c ∷ cs)) full watched = moved full (c ∷ cs) watched

-- The branches of `create_event` once the paths are known
unfoldable pub dispatch : Event → Bytes → Bytes → Watcher → Watcher
dispatch e full watched s =
    if has e.mask 256
    then s
    else if has e.mask 8
    then put (close_write full watched) s
    else if has e.mask 512
    then put (deleted full watched) s
    else if has e.mask 1024
    then record s { watch_to_path = unwatch e.wd s.watch_to_path; removed = s.removed ++ e.wd ∷ [] }
    else if has e.mask 64
    then record s { cookies = (e.cookie, full) ∷ forget_cookie e.cookie s.cookies }
    else if has e.mask 128
    then put (moved_here (source_of e.cookie s.cookies) full watched)
        (record s { cookies = forget_cookie e.cookie s.cookies })
    else s

unfoldable pub on_watch : Event → Option Bytes → Bytes → Method Watcher None
on_watch e none name s = (err key_error, s)
on_watch e (some watched) name s = (ok tt, dispatch e (join_path watched name) watched s)

unfoldable pub decoded : Event → Outcome Bytes → Method Watcher None
decoded e (ok name) s = on_watch e (path_of e.wd s.watch_to_path) name s
decoded e (err x) s = (err x, s)
decoded e diverge s = (diverge, s)

-- `create_event`; `decode` is `name.decode("utf8")`.
unfoldable pub create_event : (Bytes → Outcome Bytes) → Event → Method Watcher None
create_event decode e s = if has e.mask 32768 then (ok tt, s) else decoded e (decode e.name) s

-- `read_events` for a buffer that has been read: the events of the queue overflow (-1) are passed
-- over.
unfoldable pub handle_events : (Bytes → Outcome Bytes) → List Event → Method Watcher None
handle_events decode [] s = (ok tt, s)
handle_events decode (e ∷ es) s =
    if int_eq e.wd (negsuc 0)
    then handle_events decode es s
    else (create_event decode e >>= λ _. handle_events decode es) s

unfoldable pub read_events : (Bytes → Outcome Bytes) → Bytes → Method Watcher None
read_events decode event_buffer = handle_events decode (parse_inotify_buffer event_buffer)
