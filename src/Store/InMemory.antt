-- ===== src/Store/InMemory.antt =====
-- `InMemoryStore` of persista/store/in_memory.py. A method is an action on the store; the lock makes
-- each one a single step. Values are immutable here, so `copy.deepcopy` is the identity.
pub mod Laws
pub mod Valid
pub mod Iteration
pub mod Contract
use persista.Common.{
  ℕ, ℤ, Bool, true, false, String, text_keys, Option, none, some, List, [], ◌∷◌, map, ◌==◌, Exec,
  pure, lift, ◌>>=◌, ◌>>◌, select, all, length, if◌then◌else◌, err, ok, runtime_error,
}
use persista.Dict
use persista.Dict.{Dict}
use persista.Store.Types.{OnConflict, Fields, Object}
use persista.Store.Normalize.{normalize_on_conflict, name}
use persista.Store.Validation.{validate_batch_size}
use persista.Store.Writes

pub record InMemoryStore (V : Type 0) : Type 0 where
  pub entries : Dict String (Fields V)
  pub closed : Bool

-- batchify of coola.utils.batching, at the pairs of a store
abbrev pub Batchify : Type 0 → Type 0
Batchify V = List (String × Fields V) → ℤ → List (List (String × Fields V))

module _ {V : Type 0} where
  -- __init__
  abbrev pub init : InMemoryStore V
  init = record { entries = []; closed = true }

  -- _check_open
  unfoldable pub check_open : Exec (InMemoryStore V) (Unit {0})
  check_open s = if s.closed then (err runtime_error, s) else (ok tt, s)

  pub open_store : Exec (InMemoryStore V) (Unit {0})
  open_store s = (ok tt, if s.closed then record { entries = []; closed = false } else s)

  pub close : Exec (InMemoryStore V) (Unit {0})
  close s = (ok tt, record { entries = []; closed = true })

  -- self._data.get(key)
  abbrev data_get : String → Exec (InMemoryStore V) (Option (Fields V))
  data_get key s = (ok (Dict.get s.entries key), s)

  pub get : String → Exec (InMemoryStore V) (Option (Fields V))
  unfolding check_open
  get key = do check_open; data_get key

  pub get_many : List String → Exec (InMemoryStore V) (List (Option (Fields V)))
  unfolding get
  get_many [] = pure []
  get_many (key ∷ keys) = do value ← get key; values ← get_many keys; pure (value ∷ values)

  pub contains : String → Exec (InMemoryStore V) Bool
  unfolding check_open
  contains key = do check_open; λ s. (ok (Dict.contains s.entries key), s)

  pub contains_many : List String → Exec (InMemoryStore V) (List Bool)
  unfolding check_open
  contains_many keys = do check_open; λ s. (ok (map (Dict.contains s.entries) keys), s)

  -- for key, value in items: self._data[key] = copy.deepcopy(value)
  write : Dict String (Fields V) → Exec (InMemoryStore V) (Unit {0})
  write items s = (ok tt, record s { entries = Dict.update s.entries items })

  -- set_many behind the check and the normalization
  set_resolved : Dict String (Fields V) → OnConflict → Exec (InMemoryStore V) (Unit {0})
  unfolding Writes.set_resolved write contains_many
  set_resolved = Writes.set_resolved data_get contains_many write

  unfoldable pub set_many : Dict String (Fields V) → String → Exec (InMemoryStore V) (Unit {0})
  unfolding check_open set_resolved
  set_many items on_conflict = do
    check_open
    strategy ← lift (normalize_on_conflict on_conflict)
    set_resolved items strategy

  unfoldable pub set : String → Fields V → String → Exec (InMemoryStore V) (Unit {0})
  unfolding set_many
  set key value on_conflict = set_many ((key, value) ∷ []) on_conflict

  pub delete : String → Exec (InMemoryStore V) (Unit {0})
  unfolding check_open
  delete key = do check_open; λ s. (ok tt, record s { entries = Dict.pop s.entries key })

  pub delete_many : List String → Exec (InMemoryStore V) (Unit {0})
  unfolding delete
  delete_many [] = pure tt
  delete_many (key ∷ keys) = do delete key; delete_many keys

  pub clear : Exec (InMemoryStore V) (Unit {0})
  unfolding check_open
  clear = do check_open; λ s. (ok tt, record s { entries = [] })

  pub keys : Exec (InMemoryStore V) (List String)
  unfolding check_open
  keys = do check_open; λ s. (ok (Dict.keys s.entries), s)

  pub count : Exec (InMemoryStore V) ℕ
  unfolding check_open
  count = do check_open; λ s. (ok (length s.entries), s)

  -- The batches that the generator yields when it is run to its end.
  pub iter_batches : Batchify V → ℤ → Exec (InMemoryStore V) (List (Dict String (Fields V)))
  unfolding check_open
  iter_batches batchify batch_size = do
    lift (validate_batch_size batch_size)
    check_open
    λ s. (ok (map Dict.of_pairs (batchify s.entries batch_size)), s)

module _ {V : Type 0} ⦃o : Object V⦄ where
  -- value.get(key), which is `None` for a missing field
  unfoldable pub field : Fields V → String → V
  field value key = elim (Dict.get value key) [ none ↦ o.none_value | some v ↦ v ]

  -- all(value.get(key) == val for key, val in field_filters.items())
  unfoldable pub matches : Dict String V → Fields V → Bool
  unfolding field
  matches field_filters value = all (λ f. o.equals (field value f.0) f.1) field_filters

  pub filter : Dict String V → Exec (InMemoryStore V) (List (Fields V))
  unfolding check_open matches
  filter [] = do check_open; λ s. (ok (Dict.values s.entries), s)
  filter (f ∷ field_filters) = do
    check_open
    λ s. (ok (select (matches (f ∷ field_filters)) (Dict.values s.entries)), s)
