-- ===== src/Cache.antt =====
-- `Cache` of persista/cache/cache.py: entries that expire, over any store. A method is an action on
-- the backing store, handed the `time.time()` that it reads; times and ttls count ticks of one clock.
pub mod Types
pub mod Spec
pub mod Refines
pub mod Expiry
pub mod Compute
pub mod Many
pub mod Batches
pub mod Split
pub mod Keys
pub mod Memoize
pub mod Disabled
use persista.Common.{
  ℕ, ℤ, pos, negsuc, zero, ◌+◌, ◌-◌, suc, Bool, true, false, String, text_keys, Option, none, some,
  List, [], ◌∷◌, ◌++◌, map, Result, ok, err, value_error, type_error, key_error, Exec, pure, lift,
  ◌>>=◌, ◌>>◌, is_some, ltb, if◌then◌else◌,
}
use persista.Common.Int.{is_negative}
use persista.Dict
use persista.Dict.{Dict}
use persista.Store.Types.{OnConflict, Fields}
use persista.Store.Base.{BaseStore}
use Types.{Value, null, time, obj, Ttl, unset, given}

-- resolved_ttl is not None and resolved_ttl < 0
abbrev pub is_invalid : Option ℤ → Bool
is_invalid none = false
is_invalid (some ttl) = is_negative ttl

-- __init__: the default ttl of the new cache
unfoldable pub init : Option ℤ → Result (Option ℤ)
init default_ttl = if is_invalid default_ttl then err value_error else ok default_ttl

-- resolved_ttl == 0
abbrev is_zero : Option ℤ → Bool
is_zero (some (pos zero)) = true
is_zero _ = false

-- ttl is _UNSET
abbrev pub choose_ttl : Option ℤ → Ttl → Option ℤ
choose_ttl default_ttl unset = default_ttl
choose_ttl default_ttl (given ttl) = ttl

-- _resolve_ttl
unfoldable pub resolve_ttl : Option ℤ → Ttl → Result (Option ℤ)
resolve_ttl default_ttl ttl =
    let resolved_ttl = choose_ttl default_ttl ttl in
    if is_invalid resolved_ttl then err value_error else ok resolved_ttl

module _ {A : Type 0} where
  -- None if resolved_ttl is None else time.time() + resolved_ttl
  abbrev pub expiry : ℕ → Option ℤ → Value A
  expiry now none = null
  expiry now (some (pos ttl)) = time (now + ttl)
  expiry now (some (negsuc n)) = time (now - suc n)

  -- {"value": value, "expires_at": expires_at}
  abbrev pub entry_of : Value A → Value A → Fields (Value A)
  entry_of value expires_at = ("value", value) ∷ ("expires_at", expires_at) ∷ []

  -- entry[name]
  unfoldable pub item : Fields (Value A) → String → Result (Value A)
  item entry name = elim (Dict.get entry name) [
    | none ↦ err (key_error (name ∷ []))
    | some value ↦ ok value
  ]

  -- expires_at is not None and now > expires_at
  unfoldable pub is_expired : ℕ → Value A → Result Bool
  is_expired now null = ok false
  is_expired now (time t) = ok (ltb t now)
  is_expired now (obj a) = err type_error

  -- one round of the loop of `_split_many`
  unfoldable pub split_entry :
      ℕ
      → String
      → Option (Fields (Value A))
      → Dict String (Value A)
      → List String
      → Result (Dict String (Value A) × List String)
  unfolding item is_expired
  split_entry now key none hits expired_keys = ok (hits, expired_keys)
  split_entry now key (some entry) hits expired_keys = elim (item entry "expires_at") [
    | err e ↦ err e
    | ok expires_at ↦ elim (is_expired now expires_at) [
      | err e ↦ err e
      | ok true ↦ ok (hits, expired_keys ++ key ∷ [])
      | ok false ↦ elim (item entry "value") [
        | err e ↦ err e
        | ok value ↦ ok (Dict.set hits key value, expired_keys)
      ]
    ]
  ]

  -- _split_many, with the two results that its loop fills
  unfoldable pub split_many :
      ℕ
      → List String
      → List (Option (Fields (Value A)))
      → Dict String (Value A)
      → List String
      → Result (Dict String (Value A) × List String)
  unfolding split_entry
  split_many now [] [] hits expired_keys = ok (hits, expired_keys)
  split_many now (key ∷ keys) (entry ∷ entries) hits expired_keys =
      elim (split_entry now key entry hits expired_keys) [
        | err e ↦ err e
        | ok (hits', expired_keys') ↦ split_many now keys entries hits' expired_keys'
      ]
  split_many now _ _ hits expired_keys = err value_error

  -- hits.get(key, default)
  abbrev hit_or : Dict String (Value A) → Value A → String → String × Value A
  hit_or hits default key = (key, elim (Dict.get hits key) [ none ↦ default | some v ↦ v ])

  -- {key: {"value": value, "expires_at": expires_at} for key, value in items.items()}
  abbrev entries_of : Value A → Dict String (Value A) → Dict String (Fields (Value A))
  entries_of expires_at = map (λ e. (e.0, entry_of e.1 expires_at))

module _ {A : Type 0} (b : BaseStore (Value A)) where
  open b use {State}

  pub closed : State → Bool
  closed = b.closed

  pub open_cache : Exec State (Unit {0})
  open_cache = b.open_store

  pub close : Exec State (Unit {0})
  close = b.close

  -- `_get` behind the read of the store
  look_up_entry : ℕ → String → Option (Fields (Value A)) → Exec State (Bool × Value A)
  unfolding item is_expired
  look_up_entry now key none = pure (false, null)
  look_up_entry now key (some entry) = do
    expires_at ← lift (item entry "expires_at")
    expired ← lift (is_expired now expires_at)
    if expired
        then (do b.delete key; pure (false, null))
        else (do value ← lift (item entry "value"); pure (true, value))

  -- _get
  pub look_up : ℕ → String → Exec State (Bool × Value A)
  unfolding look_up_entry
  look_up now key = do entry ← b.get key; look_up_entry now key entry

  pub try_get : ℕ → String → Exec State (Bool × Value A)
  unfolding look_up
  try_get = look_up

  pub get : ℕ → String → Value A → Exec State (Value A)
  unfolding look_up
  get now key default = do found ← look_up now key; pure (if found.0 then found.1 else default)

  pub contains : ℕ → String → Exec State Bool
  unfolding look_up
  contains now key = do found ← look_up now key; pure found.0

  -- `set` behind the check of the ttl
  set_resolved : ℕ → String → Value A → Option ℤ → Exec State (Unit {0})
  set_resolved now key value resolved_ttl =
      if is_zero resolved_ttl
      then b.delete key
      else b.set key (entry_of value (expiry now resolved_ttl)) OnConflict.overwrite

  pub set : Option ℤ → ℕ → String → Value A → Ttl → Exec State (Unit {0})
  unfolding set_resolved resolve_ttl
  set default_ttl now key value ttl = do
    resolved_ttl ← lift (resolve_ttl default_ttl ttl)
    set_resolved now key value resolved_ttl

  -- if expired_keys: self._store.delete_many(expired_keys)
  evict : List String → Exec State (Unit {0})
  evict [] = pure tt
  evict (key ∷ keys) = b.delete_many (key ∷ keys)

  pub try_get_many : ℕ → List String → Exec State (Dict String (Value A))
  unfolding split_many evict
  try_get_many now [] = pure []
  try_get_many now (key ∷ keys) = do
    entries ← b.get_many (key ∷ keys)
    split ← lift (split_many now (key ∷ keys) entries [] [])
    evict split.1
    pure split.0

  pub get_many : ℕ → List String → Value A → Exec State (Dict String (Value A))
  unfolding try_get_many
  get_many now [] default = pure []
  get_many now (key ∷ keys) default = do
    hits ← try_get_many now (key ∷ keys)
    pure (Dict.of_pairs (map (hit_or hits default) (key ∷ keys)))

  pub contains_many : ℕ → List String → Exec State (List Bool)
  unfolding try_get_many
  contains_many now keys = do hits ← try_get_many now keys; pure (map (Dict.contains hits) keys)

  set_many_resolved : ℕ → Dict String (Value A) → Option ℤ → Exec State (Unit {0})
  set_many_resolved now items resolved_ttl =
      if is_zero resolved_ttl
      then b.delete_many (Dict.keys items)
      else b.set_many (entries_of (expiry now resolved_ttl) items) OnConflict.overwrite

  pub set_many : Option ℤ → ℕ → Dict String (Value A) → Ttl → Exec State (Unit {0})
  unfolding set_many_resolved resolve_ttl
  set_many default_ttl now [] ttl = pure tt
  set_many default_ttl now (item ∷ items) ttl = do
    resolved_ttl ← lift (resolve_ttl default_ttl ttl)
    set_many_resolved now (item ∷ items) resolved_ttl

  pub delete : String → Exec State (Unit {0})
  delete = b.delete

  pub delete_many : List String → Exec State (Unit {0})
  delete_many = b.delete_many

  pub clear : Exec State (Unit {0})
  clear = b.clear

  -- `get_or_compute` behind the lookup. `fn` is the call with its arguments: it may raise, and it may
  -- use the store itself.
  compute_on_miss :
      Option ℤ → ℕ → String → Exec State (Value A) → Ttl → Bool × Value A → Exec State (Value A)
  unfolding set
  compute_on_miss default_ttl now key fn ttl (true, value) = pure value
  compute_on_miss default_ttl now key fn ttl (false, _) = do
    value ← fn
    set default_ttl now key value ttl
    pure value

  -- The first time is read by the lookup, the second when the computed value is stored.
  pub get_or_compute : Option ℤ → ℕ → ℕ → String → Exec State (Value A) → Ttl → Exec State (Value A)
  unfolding look_up compute_on_miss
  get_or_compute default_ttl now later key fn ttl = do
    found ← look_up now key
    compute_on_miss default_ttl later key fn ttl found
