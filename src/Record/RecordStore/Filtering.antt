-- ===== src/Record/RecordStore/Filtering.antt =====
-- The scan of `RecordStore.filter` (persista/record/store/record.py) over an in-memory store, beside
-- the filter of that store.
use mathlib.Core.List.{map-append, append-nil, append_assoc}
use persista.Common.{
  Bool, false, String, text_keys, none, List, [], ◌∷◌, ◌++◌, ◌≡◌, refl, map, ok, concat, select,
  ◌∙◌, arith,
}
use persista.Dict
use persista.Dict.{Dict}
use persista.Store.Types.{Fields, Object}
use persista.Store.Batching.{IsBatchify}
use persista.Store.InMemory
use persista.Store.InMemory.{InMemoryStore, Batchify}
use persista.Store.InMemory.Contract.{in_memory}
use persista.Store.InMemory.Iteration
use persista.Record.{Record}
use persista.Record.RecordStore.{
  from_value, records_of, record_matches, filter_batch, filter_batches, filter,
}

module _ {V : Type 0} ⦃o : Object V⦄ where
  matches_metadata :
      (filters : Dict String V) (r : Record V)
      → record_matches filters r ≡ InMemory.matches filters r.metadata
  unfolding record_matches InMemory.matches InMemory.field
  matches_metadata [] r = refl
  matches_metadata (f ∷ filters) r = ground (arith, matches_metadata filters r)

  select-append :
      (p : Record V → Bool) (xs ys : List (Record V))
      → select p (xs ++ ys) ≡ select p xs ++ select p ys
  select-append p [] ys = refl
  select-append p (x ∷ xs) ys = ground (arith, select-append p xs ys)

  filter_batches-concat :
      (filters : Dict String V) (batches : List (Dict String (Fields V)))
      (records : List (Record V))
      → filter_batches filters batches records
        ≡ records ++ select (record_matches filters) (records_of (concat batches))
  unfolding filter_batches filter_batch
  filter_batches-concat filters [] records = rw append-nil refl
  filter_batches-concat filters (batch ∷ batches) records =
      filter_batches-concat filters batches (filter_batch filters batch records)
      ∙ rw
          (
            map-append,
            select-append (record_matches filters) (records_of batch) (records_of (concat batches)),
            append_assoc,
          )
          refl

  -- the metadata of the records that match are the values that match
  select-records_of :
      (filters : Dict String V) (d : Dict String (Fields V))
      → map (λ r. r.metadata) (select (record_matches filters) (records_of d))
        ≡ select (InMemory.matches filters) (Dict.values d)
  select-records_of filters [] = refl
  select-records_of filters ((k, v) ∷ d) =
      ground (arith, select-records_of filters d, matches_metadata filters (from_value k v))

  -- Over an open in-memory store whose keys are distinct, and with no filter method to push the
  -- filters down to, filter returns the records whose metadata match, in insertion order, and their
  -- metadata are what the filter of that store returns for the same filters.
  pub filter-in_memory :
      (batchify : Batchify V) (law : IsBatchify batchify) (s : InMemoryStore V)
      (filters : Dict String V)
      → s.closed ≡ false
      → Dict.IsDistinct s.entries
      → (records : List (Record V)) × (filter (in_memory batchify) none filters s ≡ (ok records, s))
        × (records ≡ select (record_matches filters) (records_of s.entries))
        × (InMemory.filter filters s ≡ (ok (map (λ r. r.metadata) records), s))
  unfolding filter
  filter-in_memory batchify law s filters is_open distinct =
      let (batches, yields, covers, _) =
        Iteration.iter_batches-concat s is_open batchify law distinct 31 in
      (
        filter_batches filters batches [],
        rw yields refl,
        filter_batches-concat filters batches [] ∙ rw covers refl,
        Iteration.filter_open s filters is_open
            ∙ rw
                (
                  filter_batches-concat filters batches [],
                  covers,
                  select-records_of filters s.entries,
                )
                refl,
      )
