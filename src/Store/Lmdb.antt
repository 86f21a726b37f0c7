-- ===== src/Store/Lmdb.antt =====
-- `BaseLmdbStore` of persista/store/lmdb.py. The environment is not part of the program, so it is an
-- interface, with what the store relies on as laws; a key stands for its bytes, and that a call of the
-- environment can fail, for instance on a key that is too long, is left out. The two subclasses are
-- given by `_encode` and `_decode`.
pub mod Reads
pub mod Transaction
pub mod Contract
use persista.Common.{
  ℕ, ℤ, pos, Bool, true, false, String, text_keys, Option, none, some, List, [], ◌∷◌, ◌==◌, ◌≡◌,
  map, Result, ok, err, runtime_error, key_error, Exec, pure, lift, ◌>>=◌, ◌>>◌, is_some, select,
  concat, if◌then◌else◌,
}
use persista.Dict
use persista.Dict.{Dict}
use persista.Store.Types.{OnConflict, Fields, Object}
use persista.Store.Normalize.{normalize_on_conflict}
use persista.Store.Validation.{validate_batch_size}
use persista.Store.Conflicts.{member, refuse, or_empty}
use persista.Store.InMemory.{matches}

-- `B` is the type of encoded values.
pub record Environment (B : Type 0) : Type 1 where
  pub Db : Type 0
  -- txn.get, txn.put, txn.delete, and txn.drop without deleting the database
  pub get : Db → String → Option B
  pub put : Db → String → B → Db
  pub delete : Db → String → Db
  pub drop : Db → Db
  -- the keys of a cursor, and the number of entries
  pub keys : Db → List String
  pub entries : Db → ℕ

pub record IsEnvironment {B : Type 0} (env : Environment B) : Type 0 where
  pub get_put :
      (d : env.Db) (j k : String) (b : B)
      → env.get (env.put d j b) k ≡ (if j == k then some b else env.get d k)
  pub get_delete :
      (d : env.Db) (j k : String)
      → env.get (env.delete d j) k ≡ (if j == k then none else env.get d k)
  pub get_drop : (d : env.Db) (k : String) → env.get (env.drop d) k ≡ none

-- _encode and _decode
pub record Coding (B V : Type 0) : Type 0 where
  pub encode : Fields V → B
  pub decode : B → Result (Fields V)

-- the state: `_closed`, and the database
pub record LmdbStore (D : Type 0) : Type 0 where
  pub closed : Bool
  pub db : D

module _ {B V : Type 0} (env : Environment B) (coding : Coding B V) where
  open env use {Db}
  open coding use {encode, decode}

  -- _check_open
  unfoldable pub check_open : Exec (LmdbStore Db) (Unit {0})
  check_open s = if s.closed then (err runtime_error, s) else (ok tt, s)

  unfoldable pub open_store : Exec (LmdbStore Db) (Unit {0})
  open_store s = (ok tt, record s { closed = false })

  unfoldable pub close : Exec (LmdbStore Db) (Unit {0})
  close s = (ok tt, record s { closed = true })

  -- self._decode(raw) if raw is not None else None
  unfoldable pub decode_raw : Option B → Result (Option (Fields V))
  decode_raw none = ok none
  decode_raw (some raw) = elim (decode raw) [ ok value ↦ ok (some value) | err e ↦ err e ]

  unfoldable pub decode_raws : List (Option B) → Result (List (Option (Fields V)))
  unfolding decode_raw
  decode_raws [] = ok []
  decode_raws (raw ∷ raws) = elim (decode_raw raw) [
    | err e ↦ err e
    | ok value ↦ elim (decode_raws raws) [ err e ↦ err e | ok values ↦ ok (value ∷ values) ]
  ]

  unfoldable pub get : String → Exec (LmdbStore Db) (Option (Fields V))
  unfolding check_open decode_raw
  get key = do check_open; λ s. (decode_raw (env.get s.db key), s)

  unfoldable pub get_many : List String → Exec (LmdbStore Db) (List (Option (Fields V)))
  unfolding check_open decode_raws
  get_many [] = do check_open; pure []
  get_many (key ∷ keys) = do check_open; λ s. (decode_raws (map (env.get s.db) (key ∷ keys)), s)

  unfoldable pub contains : String → Exec (LmdbStore Db) Bool
  unfolding check_open
  contains key = do check_open; λ s. (ok (is_some (env.get s.db key)), s)

  unfoldable pub contains_many : List String → Exec (LmdbStore Db) (List Bool)
  unfolding check_open
  contains_many [] = do check_open; pure []
  contains_many (key ∷ keys) = do
    check_open
    λ s. (ok (map (λ k. is_some (env.get s.db k)) (key ∷ keys)), s)

  -- the loop of _set_many
  unfoldable pub put_all : Dict String (Fields V) → Db → Db
  put_all [] d = d
  put_all ((key, value) ∷ items) d = put_all items (env.put d key (encode value))

  -- on_conflict == "skip"
  abbrev is_skip : OnConflict → Bool
  is_skip OnConflict.skip = true
  is_skip _ = false

  -- one round of the loop of set_many in its transaction
  unfoldable pub put_item : OnConflict → List String → String → Fields V → Db → Result Db
  unfolding member decode_raw
  put_item on_conflict conflicts key value d =
      if member conflicts key
      then if is_skip on_conflict then ok d else elim (decode_raw (env.get d key)) [
        | err e ↦ err e
        | ok existing ↦ ok (env.put d key (encode (Dict.update (or_empty existing) value)))
      ]
      else ok (env.put d key (encode value))

  unfoldable pub put_items : OnConflict → List String → Dict String (Fields V) → Db → Result Db
  unfolding put_item
  put_items on_conflict conflicts [] d = ok d
  put_items on_conflict conflicts ((key, value) ∷ items) d =
      elim (put_item on_conflict conflicts key value d) [
        | err e ↦ err e
        | ok d' ↦ put_items on_conflict conflicts items d'
      ]

  -- {key for key in keys if txn.get(...) is not None}
  abbrev conflicts_in : Dict String (Fields V) → Db → List String
  conflicts_in items d = select (λ key. is_some (env.get d key)) (Dict.keys items)

  -- The write transaction of set_many: an exception in it leaves the database as it was.
  unfoldable pub resolve : Dict String (Fields V) → OnConflict → Exec (LmdbStore Db) (Unit {0})
  unfolding refuse put_items
  resolve items on_conflict s = elim (refuse on_conflict (conflicts_in items s.db)) [
    | err e ↦ (err e, s)
    | ok _ ↦ elim (put_items on_conflict (conflicts_in items s.db) items s.db) [
      | err e ↦ (err e, s)
      | ok d ↦ (ok tt, record s { db = d })
    ]
  ]

  -- set_many behind the checks and the normalization
  unfoldable pub set_resolved : Dict String (Fields V) → OnConflict → Exec (LmdbStore Db) (Unit {0})
  unfolding resolve put_all
  set_resolved items OnConflict.overwrite s = (ok tt, record s { db = put_all items s.db })
  set_resolved items on_conflict s = resolve items on_conflict s

  unfoldable pub set_many : Dict String (Fields V) → String → Exec (LmdbStore Db) (Unit {0})
  unfolding check_open set_resolved
  set_many [] on_conflict = check_open
  set_many (item ∷ items) on_conflict = do
    check_open
    strategy ← lift (normalize_on_conflict on_conflict)
    set_resolved (item ∷ items) strategy

  unfoldable pub set : String → Fields V → String → Exec (LmdbStore Db) (Unit {0})
  unfolding set_many
  set key value on_conflict = set_many ((key, value) ∷ []) on_conflict

  unfoldable pub delete : String → Exec (LmdbStore Db) (Unit {0})
  unfolding check_open
  delete key = do check_open; λ s. (ok tt, record s { db = env.delete s.db key })

  -- the loop of delete_many
  unfoldable pub delete_all : List String → Db → Db
  delete_all [] d = d
  delete_all (key ∷ keys) d = delete_all keys (env.delete d key)

  unfoldable pub delete_many : List String → Exec (LmdbStore Db) (Unit {0})
  unfolding check_open delete_all
  delete_many [] = check_open
  delete_many (key ∷ keys) = do
    check_open
    λ s. (ok tt, record s { db = delete_all (key ∷ keys) s.db })

  unfoldable pub clear : Exec (LmdbStore Db) (Unit {0})
  unfolding check_open
  clear = do check_open; λ s. (ok tt, record s { db = env.drop s.db })

  unfoldable pub keys : Exec (LmdbStore Db) (List String)
  unfolding check_open
  keys = do check_open; λ s. (ok (env.keys s.db), s)

  unfoldable pub count : Exec (LmdbStore Db) ℕ
  unfolding check_open
  count = do check_open; λ s. (ok (env.entries s.db), s)

  -- {key: self._decode(raw) for key, raw in raws if raw is not None}
  unfoldable pub decode_present : Db → List String → Result (Dict String (Fields V))
  unfolding decode_raw
  decode_present d [] = ok []
  decode_present d (key ∷ keys) = elim (decode_raw (env.get d key)) [
    | err e ↦ err e
    | ok none ↦ decode_present d keys
    | ok (some value) ↦ elim (decode_present d keys) [
      | err e ↦ err e
      | ok rest ↦ ok ((key, value) ∷ rest)
    ]
  ]

  unfoldable pub decode_batches : Db → List (List String) → Result (List (Dict String (Fields V)))
  unfolding decode_present
  decode_batches d [] = ok []
  decode_batches d (keys ∷ batches) = elim (decode_present d keys) [
    | err e ↦ err e
    | ok batch ↦ elim (decode_batches d batches) [
      | err e ↦ err e
      | ok rest ↦ ok (Dict.of_pairs batch ∷ rest)
    ]
  ]

  -- The batches that the generator yields when it is run to its end. `batchify` is that of
  -- coola.utils.batching.
  unfoldable pub iter_batches :
      (List String → ℤ → List (List String))
      → ℤ
      → Exec (LmdbStore Db) (List (Dict String (Fields V)))
  unfolding check_open decode_batches
  iter_batches batchify batch_size = do
    lift (validate_batch_size batch_size)
    check_open
    λ s. (decode_batches s.db (batchify (env.keys s.db) batch_size), s)

  -- filter, over the values of the base class
  unfoldable pub filter :
      ⦃o : Object V⦄
      → (List String → ℤ → List (List String))
      → Dict String V
      → Exec (LmdbStore Db) (List (Fields V))
  unfolding check_open iter_batches matches
  filter batchify field_filters = do
    check_open
    batches ← iter_batches batchify (pos 32)
    pure (select (matches field_filters) (concat (map Dict.values batches)))
