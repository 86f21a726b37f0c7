-- ===== src/Store/Null.antt =====
-- `NullStore` of persista/store/null.py, which forgets what is written to it.
use persista.Common.{
  ℕ, ℤ, Bool, true, false, String, Option, none, List, [], map, Exec, pure, lift, err, ok, ◌>>◌,
  runtime_error, if◌then◌else◌,
}
use persista.Dict.{Dict}
use persista.Store.Types.{OnConflict, Fields}
use persista.Store.Validation.{validate_batch_size}
use persista.Store.Base.{BaseStore}

-- the one attribute, _closed
pub record NullStore : Type 0 where
  pub closed : Bool

-- __init__
abbrev pub init : NullStore
init = record { closed = true }

-- _check_open
unfoldable pub check_open : Exec NullStore (Unit {0})
check_open s = if s.closed then (err runtime_error, s) else (ok tt, s)

pub open_store : Exec NullStore (Unit {0})
open_store s = (ok tt, if s.closed then record { closed = false } else s)

pub close : Exec NullStore (Unit {0})
close s = (ok tt, record { closed = true })

module _ {V : Type 0} where
  unfoldable pub get : String → Exec NullStore (Option (Fields V))
  unfolding check_open
  get key = do check_open; pure none

  -- [None] * len(keys)
  unfoldable pub get_many : List String → Exec NullStore (List (Option (Fields V)))
  unfolding check_open
  get_many keys = do check_open; pure (map (λ _. none) keys)

  unfoldable pub set : String → Fields V → OnConflict → Exec NullStore (Unit {0})
  unfolding check_open
  set key value on_conflict = check_open

  unfoldable pub set_many : Dict String (Fields V) → OnConflict → Exec NullStore (Unit {0})
  unfolding check_open
  set_many items on_conflict = check_open

  pub filter : Dict String V → Exec NullStore (List (Fields V))
  unfolding check_open
  filter field_filters = do check_open; pure []

  pub iter_batches : ℤ → Exec NullStore (List (Dict String (Fields V)))
  unfolding check_open
  iter_batches batch_size = do lift (validate_batch_size batch_size); check_open; pure []

unfoldable pub delete : String → Exec NullStore (Unit {0})
unfolding check_open
delete key = check_open

unfoldable pub delete_many : List String → Exec NullStore (Unit {0})
unfolding check_open
delete_many keys = check_open

pub clear : Exec NullStore (Unit {0})
unfolding check_open
clear = check_open

unfoldable pub contains : String → Exec NullStore Bool
unfolding check_open
contains key = do check_open; pure false

-- [False] * len(keys)
pub contains_many : List String → Exec NullStore (List Bool)
unfolding check_open
contains_many keys = do check_open; pure (map (λ _. false) keys)

pub keys : Exec NullStore (List String)
unfolding check_open
keys = do check_open; pure []

pub count : Exec NullStore ℕ
unfolding check_open
count = do check_open; pure 0

-- the class, as a store
abbrev pub null_store : {V : Type 0} → BaseStore V
null_store = record {
  State = NullStore;
  closed = λ s. s.closed;
  open_store = open_store;
  close = close;
  get = get;
  get_many = get_many;
  set = set;
  set_many = set_many;
  delete = delete;
  delete_many = delete_many;
  clear = clear;
  contains = contains;
  contains_many = contains_many;
  keys = keys;
  count = count;
  iter_batches = iter_batches;
  filter = filter;
}
