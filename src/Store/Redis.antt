-- ===== src/Store/Redis.antt =====
-- `BaseRedisStore` of persista/store/redis.py, beside other clients of its server. The server is not
-- part of the program, so its commands are an interface, with what the store relies on as laws; a
-- pipeline is one step. The two subclasses are given by `_encode` and `_decode`.
pub mod Plans
pub mod Tracked
pub mod Runs
use persista.Common.{
  ℕ, ℤ, pos, Bool, true, false, not, String, text_keys, Option, none, some, List, [], ◌∷◌, ◌==◌,
  ◌≡◌, ◌||◌, ◌&&◌, map, Result, ok, err, runtime_error, value_error, Exec, pure, lift, ◌>>=◌, ◌>>◌,
  is_some, select, concat, if◌then◌else◌,
}
use persista.Dict
use persista.Dict.{Dict}
use persista.Store.Types.{OnConflict, Fields, Object}
use persista.Store.Normalize.{normalize_on_conflict}
use persista.Store.Validation.{validate_batch_size}
use persista.Store.Conflicts.{member, resolve_conflicts}
use persista.Store.InMemory.{matches}

-- _KEYS_SET
abbrev pub keys_set : String
keys_set = "__keys__"

-- GET, SET, DEL; SISMEMBER, SADD, SREM, SMEMBERS and SCARD on the set under `keys_set`. `B` is the type
-- of encoded values.
pub record Server (B : Type 0) : Type 1 where
  pub Db : Type 0
  pub get : Db → String → Option B
  pub set : Db → String → B → Db
  pub delete : Db → List String → Db
  pub is_member : Db → String → Bool
  pub add : Db → List String → Db
  pub remove : Db → List String → Db
  pub members : Db → List String
  pub card : Db → ℕ

-- SET and DEL of another key leave the set alone.
pub record IsServer {B : Type 0} (server : Server B) : Type 0 where
  pub get_set :
      (d : server.Db) (j k : String) (b : B)
      → (j == keys_set) ≡ false
      → server.get (server.set d j b) k ≡ (if j == k then some b else server.get d k)
  pub is_member_set :
      (d : server.Db) (j k : String) (b : B)
      → (j == keys_set) ≡ false
      → server.is_member (server.set d j b) k ≡ server.is_member d k
  pub get_delete :
      (d : server.Db) (js : List String) (k : String)
      → member js keys_set ≡ false
      → server.get (server.delete d js) k ≡ (if member js k then none else server.get d k)
  pub is_member_delete :
      (d : server.Db) (js : List String) (k : String)
      → member js keys_set ≡ false
      → server.is_member (server.delete d js) k ≡ server.is_member d k
  pub get_add :
      (d : server.Db) (js : List String) (k : String)
      → (k == keys_set) ≡ false
      → server.get (server.add d js) k ≡ server.get d k
  pub is_member_add :
      (d : server.Db) (js : List String) (k : String)
      → server.is_member (server.add d js) k ≡ (member js k || server.is_member d k)
  pub get_remove :
      (d : server.Db) (js : List String) (k : String)
      → (k == keys_set) ≡ false
      → server.get (server.remove d js) k ≡ server.get d k
  pub is_member_remove :
      (d : server.Db) (js : List String) (k : String)
      → server.is_member (server.remove d js) k ≡ (server.is_member d k && not (member js k))

-- _encode and _decode
pub record Coding (B V : Type 0) : Type 0 where
  pub encode : Fields V → B
  pub decode : B → Result (Fields V)

-- the state: `_closed`, and the database of the server
pub record RedisStore (D : Type 0) : Type 0 where
  pub closed : Bool
  pub db : D

unfoldable pub check_no_reserved_key : String → Result (Unit {0})
check_no_reserved_key key = if key == keys_set then err value_error else ok tt

unfoldable pub check_no_reserved_keys : List String → Result (Unit {0})
unfolding check_no_reserved_key member
check_no_reserved_keys keys = if member keys keys_set then check_no_reserved_key keys_set else ok tt

module _ {B V : Type 0} (server : Server B) (coding : Coding B V) where
  open server use {Db}
  open coding use {encode, decode}

  -- _check_open
  unfoldable pub check_open : Exec (RedisStore Db) (Unit {0})
  check_open s = if s.closed then (err runtime_error, s) else (ok tt, s)

  unfoldable pub open_store : Exec (RedisStore Db) (Unit {0})
  open_store s = (ok tt, record s { closed = false })

  unfoldable pub close : Exec (RedisStore Db) (Unit {0})
  close s = (ok tt, record s { closed = true })

  -- self._decode(value) if value is not None else None
  unfoldable pub decode_raw : Option B → Result (Option (Fields V))
  decode_raw none = ok none
  decode_raw (some raw) = elim (decode raw) [ ok value ↦ ok (some value) | err e ↦ err e ]

  unfoldable pub decode_raws : List (Option B) → Result (List (Option (Fields V)))
  unfolding decode_raw
  decode_raws [] = ok []
  decode_raws (raw ∷ raws) = elim (decode_raw raw) [
    | err e ↦ err e
    | ok value ↦ elim (decode_raws raws) [ err e ↦ err e | ok values ↦ ok (value ∷ values) ]
  ]

  unfoldable pub get : String → Exec (RedisStore Db) (Option (Fields V))
  unfolding check_open check_no_reserved_key decode_raw
  get key = do
    check_open
    _ ← lift (check_no_reserved_key key)
    λ s. (decode_raw (server.get s.db key), s)

  unfoldable pub get_many : List String → Exec (RedisStore Db) (List (Option (Fields V)))
  unfolding check_open check_no_reserved_keys decode_raws
  get_many [] = do check_open; pure []
  get_many (key ∷ keys) = do
    check_open
    _ ← lift (check_no_reserved_keys (key ∷ keys))
    λ s. (decode_raws (map (server.get s.db) (key ∷ keys)), s)

  unfoldable pub contains : String → Exec (RedisStore Db) Bool
  unfolding check_open check_no_reserved_key
  contains key = do
    check_open
    _ ← lift (check_no_reserved_key key)
    λ s. (ok (server.is_member s.db key), s)

  unfoldable pub contains_many : List String → Exec (RedisStore Db) (List Bool)
  unfolding check_open check_no_reserved_keys
  contains_many [] = do check_open; pure []
  contains_many (key ∷ keys) = do
    check_open
    _ ← lift (check_no_reserved_keys (key ∷ keys))
    λ s. (ok (map (server.is_member s.db) (key ∷ keys)), s)

  -- pipe.set of each item
  unfoldable pub set_all : Dict String (Fields V) → Db → Db
  set_all [] d = d
  set_all ((key, value) ∷ items) d = set_all items (server.set d key (encode value))

  -- the pipeline that writes the items and adds their keys to the set
  unfoldable pub write : Dict String (Fields V) → Db → Db
  unfolding set_all
  write [] d = d
  write (item ∷ items) d = server.add (set_all (item ∷ items) d) (Dict.keys (item ∷ items))

  -- The retries of set_many. Each database of `others` is what other clients make of the one before,
  -- while a try runs; it changes a watched key, so the pipeline raises WatchError and the next try
  -- starts. After the last of them a try runs undisturbed.
  unfoldable pub retry :
      Dict String (Fields V) → OnConflict → List Db → Exec (RedisStore Db) (Unit {0})
  unfolding write get contains_many resolve_conflicts
  retry items on_conflict [] = do
    to_write ← resolve_conflicts get items on_conflict contains_many
    λ s. (ok tt, record s { db = write to_write s.db })
  retry items on_conflict (d ∷ others) = do
    _ ← resolve_conflicts get items on_conflict contains_many
    λ s. retry items on_conflict others (record s { db = d })

  -- set_many behind the checks and the normalization
  unfoldable pub set_resolved :
      List Db → Dict String (Fields V) → OnConflict → Exec (RedisStore Db) (Unit {0})
  unfolding write retry
  set_resolved others items OnConflict.overwrite s = (ok tt, record s { db = write items s.db })
  set_resolved others items on_conflict s = retry items on_conflict others s

  unfoldable pub set_many :
      List Db → Dict String (Fields V) → String → Exec (RedisStore Db) (Unit {0})
  unfolding check_open check_no_reserved_keys normalize_on_conflict set_resolved
  set_many others [] on_conflict = check_open
  set_many others (item ∷ items) on_conflict = do
    check_open
    _ ← lift (check_no_reserved_keys (Dict.keys (item ∷ items)))
    strategy ← lift (normalize_on_conflict on_conflict)
    set_resolved others (item ∷ items) strategy

  unfoldable pub set : List Db → String → Fields V → String → Exec (RedisStore Db) (Unit {0})
  unfolding set_many
  set others key value on_conflict = set_many others ((key, value) ∷ []) on_conflict

  unfoldable pub delete : String → Exec (RedisStore Db) (Unit {0})
  unfolding check_open check_no_reserved_key
  delete key = do
    check_open
    _ ← lift (check_no_reserved_key key)
    λ s. (ok tt, record s { db = server.remove (server.delete s.db (key ∷ [])) (key ∷ []) })

  unfoldable pub delete_many : List String → Exec (RedisStore Db) (Unit {0})
  unfolding check_open check_no_reserved_keys
  delete_many [] = check_open
  delete_many (key ∷ keys) = do
    check_open
    _ ← lift (check_no_reserved_keys (key ∷ keys))
    λ s. (ok tt, record s { db = server.remove (server.delete s.db (key ∷ keys)) (key ∷ keys) })

  unfoldable pub keys : Exec (RedisStore Db) (List String)
  unfolding check_open
  keys = do check_open; λ s. (ok (server.members s.db), s)

  unfoldable pub clear : Exec (RedisStore Db) (Unit {0})
  unfolding keys delete_many
  clear = do all_keys ← keys; delete_many all_keys

  unfoldable pub count : Exec (RedisStore Db) ℕ
  unfolding check_open
  count = do check_open; λ s. (ok (server.card s.db), s)

  -- {key: self._decode(value) for key, value in zip(batch, values) if value is not None}
  unfoldable pub decode_present : Db → List String → Result (Dict String (Fields V))
  unfolding decode_raw
  decode_present d [] = ok []
  decode_present d (key ∷ keys) = elim (decode_raw (server.get d key)) [
    | err e ↦ err e
    | ok none ↦ decode_present d keys
    | ok (some value) ↦ elim (decode_present d keys) [
      | err e ↦ err e
      | ok rest ↦ ok ((key, value) ∷ rest)
    ]
  ]

  unfoldable pub decode_batches : Db → List (List String) → Result (List (Dict String (Fields V)))
  unfolding decode_present
  decode_batches d [] = ok []
  decode_batches d (keys ∷ batches) = elim (decode_present d keys) [
    | err e ↦ err e
    | ok batch ↦ elim (decode_batches d batches) [
      | err e ↦ err e
      | ok rest ↦ ok (Dict.of_pairs batch ∷ rest)
    ]
  ]

  -- The batches that the generator yields when it is run to its end with no other client at work.
  -- `batchify` is that of coola.utils.batching.
  unfoldable pub iter_batches :
      (List String → ℤ → List (List String))
      → ℤ
      → Exec (RedisStore Db) (List (Dict String (Fields V)))
  unfolding check_open decode_batches
  iter_batches batchify batch_size = do
    lift (validate_batch_size batch_size)
    check_open
    λ s. (decode_batches s.db (batchify (server.members s.db) batch_size), s)

  -- filter, over the values of the base class
  unfoldable pub filter :
      ⦃o : Object V⦄
      → (List String → ℤ → List (List String))
      → Dict String V
      → Exec (RedisStore Db) (List (Fields V))
  unfolding check_open iter_batches matches
  filter batchify field_filters = do
    check_open
    batches ← iter_batches batchify (pos 32)
    pure (select (matches field_filters) (concat (map Dict.values batches)))
