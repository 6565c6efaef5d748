-- ===== src/Local/Saves.antt =====
-- rohmu/object_storage/local.py: where a file can be stored, and what `_save_metadata` leaves there.
use rohmu.Local.Folders.{Opens}
use rohmu.Disk.Looks.{look-put, look-unset}
use rohmu.Local.Objects.{save_metadata, atomic_create_file, after_rename}
use rohmu.Base.{
  ◌≡◌, some, none, ◌≢◌, false, true, ℕ, bytes_eq, ◌++◌, ok, Bool-cases, ap, length, inr, refl, inl,
  bytes_eq→eq, Bool, ◌∷◌, Outcome, ==_refl, None, if◌then◌else◌, [], ◌∙◌, bytes_eq_refl, sym, ◌<◌,
}
use rohmu.Disk.{
  is_directory, Disk, look, Node, dirname, has_directory, directory, file, put, unset, basename,
}
use rohmu.Storage.Values.{Text, sanitize_metadata}
use rohmu.Local.{
  Runtime, write_all, rename, Metadata, Option, write_node, rename_node, Bytes, Local, dot_metadata,
  dot_metadata_tmp,
}

-- What is taken of the runtime: metadata that are written are read as they were, and a temporary file is
-- made at a path where nothing stands.
abbrev pub Loads : Runtime → Type 0
Loads runtime = (metadata : Metadata) → runtime.load (runtime.dump metadata) ≡ some metadata

abbrev pub Fresh : Runtime → Type 0
Fresh runtime =
    (name suffix dir : Text) (disk : Disk) → look (runtime.mkstemp name suffix dir disk) disk ≡ none

-- A path at which a file can be stored: it is not the root, a directory stands somewhere on the way up from it,
-- with the one above it and with nothing in between, and neither the path nor that of its metadata is a
-- directory.
abbrev pub Ready : Text → Disk → Type 0
Ready path disk =
    ((missing : ℕ) × Opens missing (dirname path) disk)
    × (length (dirname path) < length path)
    × (is_directory (look path disk) ≡ false)
    × (is_directory (look (path ++ dot_metadata) disk) ≡ false)

pub look_differs : (p q : Text) (disk : Disk) → look p disk ≢ look q disk → bytes_eq p q ≡ false
look_differs p q disk h = elim (Bool-cases (bytes_eq p q)) [
  | inr e ↦ e
  | inl e ↦ absurd (h (ap (λ r. look r disk) (bytes_eq→eq p q e)))
]

pub not_directory : (o : Option Node) → is_directory o ≡ false → o ≢ some directory
unfolding is_directory
not_directory o h e = cc (ap is_directory e, h)

-- What `open(path, "wb")` leaves where no directory stands
pub write_all-Ready :
    (path : Text) (bytes : Bytes) (s : Local)
    → has_directory path s.disk ≡ true
    → is_directory (look path s.disk) ≡ false
    → write_all path bytes s ≡ (ok tt, record s { disk = put path (file bytes) s.disk })
unfolding write_all write_node is_directory
write_all-Ready path bytes s above free = written path bytes s (look path s.disk) free above
  where
    written :
        (path : Text) (bytes : Bytes) (s : Local) (o : Option Node)
        → is_directory o ≡ false
        → has_directory path s.disk ≡ true
        → write_node path bytes (has_directory path s.disk) o s
          ≡ (ok tt, record s { disk = put path (file bytes) s.disk })
    written path bytes s none free above = rw above refl
    written path bytes s (some directory) free above = absurd (cc free)
    written path bytes s (some (file old)) free above = refl

-- What a successful `os.rename` of a file leaves
rename-Ready :
    (from into : Text) (bytes : Bytes) (s : Local)
    → look from s.disk ≡ some (file bytes)
    → is_directory (look into s.disk) ≡ false
    → rename from into s ≡ (ok tt, record s { disk = put into (file bytes) (unset from s.disk) })
unfolding rename rename_node is_directory
rename-Ready from into bytes s there free = rw there (renamed (look into s.disk) free)
  where
    renamed :
        (o : Option Node)
        → is_directory o ≡ false
        → rename_node from into (some (file bytes)) o s
          ≡ (ok tt, record s { disk = put into (file bytes) (unset from s.disk) })
    renamed none free = refl
    renamed (some directory) free = absurd (cc free)
    renamed (some (file old)) free = refl

some_not_none : {node : Node} → some node ≢ none
some_not_none h = cc

either_free :
    (c : Bool) (json : Bytes) (o : Option Node)
    → is_directory o ≡ false
    → is_directory (if c then some (file json) else o) ≡ false
unfolding is_directory
either_free true json o free = refl
either_free false json o free = free

shorter_differs : (path : Text) → bytes_eq (path ++ dot_metadata) path ≡ false
shorter_differs [] = refl
shorter_differs (c ∷ path) = rw (==_refl c) (shorter_differs path)

module _ (runtime : Runtime) where
  -- Metadata that are saved beside a file
  abbrev pub Saved : Text → Bytes → Metadata → Local → Outcome None × Local → Type 0
  Saved path bytes metadata s x =
      (x.0 ≡ ok tt)
      × (look path x.1.disk ≡ some (file bytes))
      × (look (path ++ dot_metadata) x.1.disk
          ≡ some (file (runtime.dump (sanitize_metadata metadata))))
      × (x.1.target ≡ s.target)

  pub save_metadata-Saved :
      (path : Text) (bytes : Bytes) (metadata : Metadata) (s : Local)
      → Fresh runtime
      → look path s.disk ≡ some (file bytes)
      → has_directory (path ++ dot_metadata) s.disk ≡ true
      → is_directory (look (path ++ dot_metadata) s.disk) ≡ false
      → Saved path bytes metadata s (save_metadata runtime path metadata s)
  unfolding save_metadata atomic_create_file after_rename
  save_metadata-Saved path bytes metadata s fresh there above free =
      let beside = path ++ dot_metadata in
      let json = runtime.dump (sanitize_metadata metadata) in
      let tmp = runtime.mkstemp (basename beside) dot_metadata_tmp (dirname beside) s.disk in
      let nothing = fresh (basename beside) dot_metadata_tmp (dirname beside) s.disk in
      let t : Local = record s { disk = put tmp (file json) s.disk } in
      let tmp_there : look tmp t.disk ≡ some (file json) =
        look-put tmp tmp (file json) s.disk
        ∙ ap (λ (c : Bool). if c then some (file json) else look tmp s.disk) (bytes_eq_refl tmp) in
      let not_path : bytes_eq tmp path ≡ false =
        look_differs tmp path s.disk (λ e. some_not_none (sym there ∙ sym e ∙ nothing)) in
      let still_free : is_directory (look beside t.disk) ≡ false =
        ap is_directory (look-put tmp beside (file json) s.disk)
        ∙ either_free (bytes_eq tmp beside) json (look beside s.disk) free in
      let kept : look path (unset tmp t.disk) ≡ some (file bytes) =
        look-unset tmp path t.disk
        ∙ ap (λ (c : Bool). if c then none else look path t.disk) not_path
        ∙ look-put tmp path (file json) s.disk
        ∙ ap (λ (c : Bool). if c then some (file json) else look path s.disk) not_path
        ∙ there in
      rw (above, rename-Ready tmp beside json t tmp_there still_free)
        (
          refl,
          look-put beside path (file json) (unset tmp t.disk)
              ∙ ap (λ (c : Bool). if c then some (file json) else look path (unset tmp t.disk))
                  (shorter_differs path)
              ∙ kept,
          look-put beside beside (file json) (unset tmp t.disk)
              ∙ ap (λ (c : Bool). if c then some (file json) else look beside (unset tmp t.disk))
                  (bytes_eq_refl beside),
          refl,
        )
