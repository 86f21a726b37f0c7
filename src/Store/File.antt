-- ===== src/Store/File.antt =====
-- `BaseFileStore` of persista/store/file.py. The file system and what saves and loads the files of a
-- subclass are not part of the program, so they are an interface, with what the store relies on as
-- laws; names are those in the store's directory, and that a call of the system can fail, for
-- instance on a name that is too long, is left out, but for saving and loading.
pub mod Reads
pub mod Contract
use persista.Common.{
  ℕ, ◌-◌, ℤ, pos, Bool, true, false, String, text_keys, Option, none, some, List, [], ◌∷◌, ◌==◌,
  ◌≡◌, map, Result, ok, err, runtime_error, value_error, not_a_directory, Exec, pure, lift, ◌>>=◌,
  ◌>>◌, is_some, select, concat, length, leb, ◌&&◌, if◌then◌else◌,
}
use Prim.Native.String as Text
use persista.Dict
use persista.Dict.{Dict}
use persista.Store.Types.{OnConflict, Fields, Object}
use persista.Store.Normalize.{normalize_on_conflict}
use persista.Store.Validation.{validate_batch_size}
use persista.Store.Conflicts.{member}
use persista.Store.InMemory.{matches}
use persista.Store.Writes

pub record Files (V : Type 0) : Type 1 where
  pub Fs : Type 0
  -- path.mkdir(parents=True, exist_ok=True), and whether path.exists() and not path.is_dir()
  pub mkdir : Fs → Fs
  pub is_other : Fs → Bool
  -- path.is_file(), path.unlink(missing_ok=True), and the names that iterdir() yields
  pub is_file : Fs → String → Bool
  pub unlink : Fs → String → Fs
  pub names : Fs → List String
  -- _save and _load
  pub save : String → Fields V → Exec Fs (Unit {0})
  pub load : Fs → String → Result (Fields V)

-- Every file can be loaded, as the fields that were saved in it, and is among the names.
pub record IsFiles {V : Type 0} (files : Files V) (content : files.Fs → String → Option (Fields V))
    : Type 0 where
  pub file_content : (d : files.Fs) (n : String) → files.is_file d n ≡ is_some (content d n)
  pub load_content :
      (d : files.Fs) (n : String) (v : Fields V) → content d n ≡ some v → files.load d n ≡ ok v
  pub saves : (d : files.Fs) (n : String) (v : Fields V) → (files.save n v d).0 ≡ ok tt
  pub content_save :
      (d : files.Fs) (n m : String) (v : Fields V)
      → content (files.save n v d).1 m ≡ (if n == m then some v else content d m)
  pub content_unlink :
      (d : files.Fs) (n m : String)
      → content (files.unlink d n) m ≡ (if n == m then none else content d m)
  pub file_names :
      (d : files.Fs) (n : String) → files.is_file d n ≡ true → member (files.names d) n ≡ true

-- `extension` of a subclass, and quote(key, safe="") and unquote of urllib
pub record Naming : Type 0 where
  pub extension : String
  pub quote : String → String
  pub unquote : String → String

-- JsonFileStore.extension and PickleFileStore.extension
abbrev pub json_naming : (String → String) → (String → String) → Naming
json_naming quote unquote = record { extension = ".json"; quote = quote; unquote = unquote }

abbrev pub pickle_naming : (String → String) → (String → String) → Naming
pickle_naming quote unquote = record { extension = ".pkl"; quote = quote; unquote = unquote }

-- name.endswith(extension); a position counts the bytes of the text.
unfoldable pub ends_with : String → String → Bool
ends_with name extension =
    leb (Text.len extension) (Text.len name)
    && (Text.slice name (Text.len name - Text.len extension) (Text.len name) == extension)

-- the state: `_closed`, and the file system
pub record FileStore (D : Type 0) : Type 0 where
  pub closed : Bool
  pub fs : D

module _ {V : Type 0} (files : Files V) (naming : Naming) where
  open files use {Fs, is_file, unlink, names, save, load}
  open naming use {extension, quote, unquote}

  -- __init__
  unfoldable pub init : Fs → Result (FileStore Fs)
  init fs =
      if extension == ""
      then err value_error
      else if files.is_other fs
      then err not_a_directory
      else ok (record { closed = true; fs = fs })

  unfoldable pub key_to_path : String → String
  key_to_path key = Text.◌++◌ (quote key) extension

  -- name[: -len(extension)], for a name that ends with the extension
  unfoldable pub path_to_key : String → String
  path_to_key name = unquote (Text.slice name 0 (Text.len name - Text.len extension))

  -- _check_open
  unfoldable pub check_open : Exec (FileStore Fs) (Unit {0})
  check_open s = if s.closed then (err runtime_error, s) else (ok tt, s)

  unfoldable pub open_store : Exec (FileStore Fs) (Unit {0})
  open_store s =
      if s.closed then (ok tt, record { closed = false; fs = files.mkdir s.fs }) else (ok tt, s)

  unfoldable pub close : Exec (FileStore Fs) (Unit {0})
  close s = (ok tt, record s { closed = true })

  -- self._load(file_path) if file_path.is_file() else None
  unfoldable pub load_if_file : Fs → String → Result (Option (Fields V))
  load_if_file d name =
      if is_file d name
      then elim (load d name) [ err e ↦ err e | ok value ↦ ok (some value) ]
      else ok none

  unfoldable pub get : String → Exec (FileStore Fs) (Option (Fields V))
  unfolding check_open load_if_file key_to_path
  get key = do check_open; λ s. (load_if_file s.fs (key_to_path key), s)

  unfoldable pub get_many : List String → Exec (FileStore Fs) (List (Option (Fields V)))
  unfolding get
  get_many [] = pure []
  get_many (key ∷ keys) = do value ← get key; values ← get_many keys; pure (value ∷ values)

  unfoldable pub contains : String → Exec (FileStore Fs) Bool
  unfolding check_open key_to_path
  contains key = do check_open; λ s. (ok (is_file s.fs (key_to_path key)), s)

  unfoldable pub contains_many : List String → Exec (FileStore Fs) (List Bool)
  unfolding contains
  contains_many [] = pure []
  contains_many (key ∷ keys) = do
    exists ← contains key
    found ← contains_many keys
    pure (exists ∷ found)

  -- one save of _set_many
  unfoldable pub save_item : String → Fields V → Exec (FileStore Fs) (Unit {0})
  unfolding key_to_path
  save_item key value s =
      let saved = save (key_to_path key) value s.fs in (saved.0, record s { fs = saved.1 })

  -- _set_many: what was saved before a failure stays saved.
  unfoldable pub save_all : Dict String (Fields V) → Exec (FileStore Fs) (Unit {0})
  unfolding save_item
  save_all [] = pure tt
  save_all ((key, value) ∷ items) = do save_item key value; save_all items

  unfoldable pub set_many : Dict String (Fields V) → String → Exec (FileStore Fs) (Unit {0})
  unfolding check_open Writes.set_resolved get contains_many save_all normalize_on_conflict
  set_many [] on_conflict = check_open
  set_many (item ∷ items) on_conflict = do
    check_open
    strategy ← lift (normalize_on_conflict on_conflict)
    Writes.set_resolved get contains_many save_all (item ∷ items) strategy

  unfoldable pub set : String → Fields V → String → Exec (FileStore Fs) (Unit {0})
  unfolding set_many
  set key value on_conflict = set_many ((key, value) ∷ []) on_conflict

  unfoldable pub delete : String → Exec (FileStore Fs) (Unit {0})
  unfolding check_open key_to_path
  delete key = do check_open; λ s. (ok tt, record s { fs = unlink s.fs (key_to_path key) })

  unfoldable pub delete_many : List String → Exec (FileStore Fs) (Unit {0})
  unfolding delete
  delete_many [] = pure tt
  delete_many (key ∷ keys) = do delete key; delete_many keys

  -- _iter_files, as the list of what it yields
  unfoldable pub iter_files : Fs → List String
  unfolding ends_with
  iter_files d = select (λ name. is_file d name && ends_with name extension) (names d)

  -- the loop of clear
  unfoldable pub unlink_all : List String → Fs → Fs
  unlink_all [] d = d
  unlink_all (name ∷ names) d = unlink_all names (unlink d name)

  unfoldable pub clear : Exec (FileStore Fs) (Unit {0})
  unfolding check_open unlink_all iter_files
  clear = do check_open; λ s. (ok tt, record s { fs = unlink_all (iter_files s.fs) s.fs })

  unfoldable pub keys : Exec (FileStore Fs) (List String)
  unfolding check_open path_to_key iter_files
  keys = do check_open; λ s. (ok (map path_to_key (iter_files s.fs)), s)

  unfoldable pub count : Exec (FileStore Fs) ℕ
  unfolding check_open iter_files
  count = do check_open; λ s. (ok (length (iter_files s.fs)), s)

  -- (self._path_to_key(file_path), self._load(file_path)) for each file
  unfoldable pub load_items : Fs → List String → Result (List (String × Fields V))
  unfolding path_to_key
  load_items d [] = ok []
  load_items d (name ∷ names) = elim (load d name) [
    | err e ↦ err e
    | ok value ↦ elim (load_items d names) [
      | err e ↦ err e
      | ok items ↦ ok ((path_to_key name, value) ∷ items)
    ]
  ]

  module _ (batchify : List (String × Fields V) → ℤ → List (List (String × Fields V))) where
    -- The batches that the generator yields when it is run to its end. `batchify` is that of
    -- coola.utils.batching.
    unfoldable pub iter_batches : ℤ → Exec (FileStore Fs) (List (Dict String (Fields V)))
    unfolding check_open load_items iter_files
    iter_batches batch_size = do
      lift (validate_batch_size batch_size)
      check_open
      items ← λ s. (load_items s.fs (iter_files s.fs), s)
      pure (map Dict.of_pairs (batchify items batch_size))

    -- filter, over the values of the base class
    unfoldable pub filter : ⦃o : Object V⦄ → Dict String V → Exec (FileStore Fs) (List (Fields V))
    unfolding iter_batches matches
    filter field_filters = do
      batches ← iter_batches (pos 32)
      pure (select (matches field_filters) (concat (map Dict.values batches)))
