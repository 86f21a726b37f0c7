-- ===== src/Record/RecordStore.antt =====
-- `RecordStore` of persista/record/store/record.py, over any store, with `values` of
-- persista/record/store/base.py.
pub mod Contract
pub mod Filtering
use persista.Common.{
  ℕ, ℤ, pos, Bool, true, false, String, text_keys, Option, none, some, List, [], ◌∷◌, ◌++◌, map,
  Result, ok, err, value_error, Exec, pure, lift, ◌>>=◌, ◌>>◌, select, all, concat,
}
use persista.Dict
use persista.Dict.{Dict}
use persista.Store.Types.{OnConflict, Fields, Object}
use persista.Store.Base.{BaseStore}
use persista.Record.{Record}
use persista.Record.Analysis.{by_id}

module _ {V : Type 0} where
  -- _to_value
  abbrev pub to_value : Record V → Fields V
  to_value r = r.metadata

  -- _from_value
  abbrev pub from_value : String → Fields V → Record V
  from_value record_id value = record { id = record_id; metadata = value }

  -- from_value(record_id, value) if value is not None else None
  abbrev pub record_of : String → Option (Fields V) → Option (Record V)
  record_of record_id none = none
  record_of record_id (some value) = some (from_value record_id value)

  -- the comprehension over zip(record_ids, values, strict=True)
  unfoldable pub zip_records :
      List String → List (Option (Fields V)) → Result (List (Option (Record V)))
  zip_records [] [] = ok []
  zip_records (i ∷ record_ids) (value ∷ values) = elim (zip_records record_ids values) [
    | ok rest ↦ ok (record_of i value ∷ rest)
    | err e ↦ err e
  ]
  zip_records _ _ = err value_error

  -- [from_value(record_id, value) for record_id, value in items]
  abbrev pub records_of : Dict String (Fields V) → List (Record V)
  records_of = map (λ e. from_value e.0 e.1)

module _ {V : Type 0} ⦃o : Object V⦄ where
  -- record.metadata.get(key) == val
  abbrev pub field_is : Option V → V → Bool
  field_is none val = o.equals o.none_value val
  field_is (some v) val = o.equals v val

  -- _matches
  unfoldable pub record_matches : Dict String V → Record V → Bool
  record_matches metadata_filters r =
      all (λ f. field_is (Dict.get r.metadata f.0) f.1) metadata_filters

  -- one batch of the scan
  unfoldable pub filter_batch :
      Dict String V → Dict String (Fields V) → List (Record V) → List (Record V)
  unfolding record_matches
  filter_batch metadata_filters batch records =
      records ++ select (record_matches metadata_filters) (records_of batch)

  unfoldable pub filter_batches :
      Dict String V → List (Dict String (Fields V)) → List (Record V) → List (Record V)
  unfolding filter_batch
  filter_batches metadata_filters [] records = records
  filter_batches metadata_filters (batch ∷ batches) records =
      filter_batches metadata_filters batches (filter_batch metadata_filters batch records)

module _ {V : Type 0} (b : BaseStore V) where
  open b use {State}

  unfoldable pub set_many : List (Record V) → Exec State (Unit {0})
  unfolding by_id
  set_many records = b.set_many (by_id records) OnConflict.overwrite

  unfoldable pub get : String → Exec State (Option (Record V))
  get record_id = do value ← b.get record_id; pure (record_of record_id value)

  unfoldable pub get_many : List String → Exec State (List (Option (Record V)))
  unfolding zip_records
  get_many record_ids = do values ← b.get_many record_ids; lift (zip_records record_ids values)

  -- The batches that the generator yields when it is run to its end.
  unfoldable pub iter_batches : ℤ → Exec State (List (List (Record V)))
  iter_batches batch_size = do batches ← b.iter_batches batch_size; pure (map records_of batches)

  unfoldable pub values : ℤ → Exec State (List (Record V))
  unfolding iter_batches
  values batch_size = do batches ← iter_batches batch_size; pure (concat batches)

  unfoldable pub delete : String → Exec State (Unit {0})
  delete = b.delete

  unfoldable pub delete_many : List String → Exec State (Unit {0})
  delete_many = b.delete_many

  unfoldable pub clear : Exec State (Unit {0})
  clear = b.clear

  unfoldable pub contains : String → Exec State Bool
  contains = b.contains

  unfoldable pub contains_many : List String → Exec State (List Bool)
  contains_many = b.contains_many

  unfoldable pub keys : Exec State (List String)
  keys = b.keys

  unfoldable pub count : Exec State ℕ
  count = b.count

  unfoldable pub open_store : Exec State (Unit {0})
  open_store = b.open_store

  unfoldable pub close : Exec State (Unit {0})
  close = b.close

  unfoldable pub closed : State → Bool
  closed = b.closed

  module _ ⦃o : Object V⦄ where
    -- `filter_items` is the store's method of that name, for a store that has one; else the scan reads
    -- batches of 32, the default of `iter_batches`.
    unfoldable pub filter :
        Option (Dict String V → Exec State (Dict String (Fields V)))
        → Dict String V
        → Exec State (List (Record V))
    unfolding filter_batches
    filter (some filter_items) metadata_filters = do
      items ← filter_items metadata_filters
      pure (records_of items)
    filter none metadata_filters = do
      batches ← b.iter_batches (pos 32)
      pure (filter_batches metadata_filters batches [])
