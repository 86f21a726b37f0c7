-- ===== src/Store/Registry.antt =====
-- persista/store/registry.py, and `to_uri` and `from_uri` of the stores at a path (in
-- persista/store/file.py, sqlite.py, duckdb.py and lmdb.py).
use persista.Common.{
  Bool, true, String, text_keys, Option, none, some, [], ◌∷◌, ◌≡◌, refl, ok, err, value_error, Exec,
  pure, lift, ◌>>=◌, ◌>>◌, arith,
}
use persista.Dict
use persista.Dict.{Dict}
use persista.Dict.Laws
use persista.Store.Uri.{Urls, IsUrls, encode_path_uri, decode_path_uri, decode-encode}

-- the classes that are registered from the start
pub data StoreClass : Type 0 where
  in_memory_store : StoreClass
  null_store : StoreClass
  json_file_store : StoreClass
  pickle_file_store : StoreClass
  sqlite_store : StoreClass
  pickle_sqlite_store : StoreClass
  typed_sqlite_store : StoreClass
  duckdb_store : StoreClass
  typed_duckdb_store : StoreClass
  lmdb_store : StoreClass
  pickle_lmdb_store : StoreClass
  postgres_store : StoreClass
  redis_store : StoreClass

-- _SCHEMES
abbrev pub schemes : Dict String StoreClass
schemes =
    ("memory", StoreClass.in_memory_store)
    ∷ ("null", StoreClass.null_store)
    ∷ ("file+json", StoreClass.json_file_store)
    ∷ ("file+pickle", StoreClass.pickle_file_store)
    ∷ ("sqlite", StoreClass.sqlite_store)
    ∷ ("sqlite+pickle", StoreClass.pickle_sqlite_store)
    ∷ ("sqlite+typed", StoreClass.typed_sqlite_store)
    ∷ ("duckdb", StoreClass.duckdb_store)
    ∷ ("duckdb+typed", StoreClass.typed_duckdb_store)
    ∷ ("lmdb", StoreClass.lmdb_store)
    ∷ ("lmdb+pickle", StoreClass.pickle_lmdb_store)
    ∷ ("postgresql", StoreClass.postgres_store)
    ∷ ("postgres", StoreClass.postgres_store)
    ∷ ("redis", StoreClass.redis_store)
    ∷ ("rediss", StoreClass.redis_store)
    ∷ []

-- What the classes do: from_uri, and open of a store. `W` is all that opening a store acts on.
pub record Classes (C S W : Type 0) : Type 0 where
  pub from_uri : C → String → Bool → Exec W S
  pub open_store : S → Exec W (Unit {0})

-- register_scheme, on the registry
unfoldable pub register_scheme : {C : Type 0} → String → C → Exec (Dict String C) (Unit {0})
register_scheme scheme store_cls registry = (ok tt, Dict.set registry scheme store_cls)

module _ (urls : Urls) where
  -- to_uri of a store at a path
  unfoldable pub path_to_uri : String → String → String
  unfolding encode_path_uri
  path_to_uri scheme path = encode_path_uri urls scheme path

module _ (urls : Urls) {S W : Type 0} where
  -- from_uri of a class of stores at a path, with what its constructor does
  unfoldable pub path_from_uri : (String → Bool → Exec W S) → String → String → Bool → Exec W S
  unfolding decode_path_uri
  path_from_uri construct scheme uri read_only = do
    path ← lift (decode_path_uri urls uri scheme)
    construct path read_only

module _ (urls : Urls) {C S W : Type 0} (classes : Classes C S W) where
  open classes use {open_store}

  -- what follows the lookup of the class
  unfoldable pub open_class : Option C → String → Bool → Exec W S
  open_class none uri read_only = lift (err value_error)
  open_class (some store_cls) uri read_only = do
    store ← classes.from_uri store_cls uri read_only
    open_store store
    pure store

  unfoldable pub store_from_uri : Dict String C → String → Bool → Exec W S
  unfolding open_class
  store_from_uri registry uri read_only = do
    parts ← lift (urls.urlsplit uri)
    open_class (Dict.get registry parts.scheme) uri read_only

  module _ {is_plain : String → String → Bool} (laws : IsUrls urls is_plain) where
    -- If a class whose from_uri makes a store of the path in the uri is registered under a plain
    -- scheme, store_from_uri of the uri of a store at a plain path makes a store of that path and
    -- opens it.
    pub store_from_uri-path_to_uri :
        (registry : Dict String C) (scheme path : String) (store_cls : C)
        (construct : String → Bool → Exec W S) (read_only : Bool) (w : W)
        → is_plain scheme (urls.quote path) ≡ true
        → ((uri : String) (w : W)
            → classes.from_uri store_cls uri read_only w
              ≡ path_from_uri urls construct scheme uri read_only w)
        → store_from_uri
            (register_scheme scheme store_cls registry).1
            (path_to_uri urls scheme path)
            read_only
            w
          ≡ (do store ← construct path read_only; open_store store; pure store) w
    unfolding store_from_uri path_to_uri path_from_uri register_scheme encode_path_uri
    store_from_uri-path_to_uri registry scheme path store_cls construct read_only w plain at_path =
        let j = laws.joined scheme path plain in
        let found : Dict.get (Dict.set registry scheme store_cls) scheme ≡ some store_cls = ground (
          arith,
          Laws.get-set registry scheme scheme store_cls,
          text_keys.test_iff scheme scheme,
        ) in
        rw (j.1, j.2, found, open_class, at_path, decode-encode urls laws scheme path plain) refl
