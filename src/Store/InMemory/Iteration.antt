-- ===== src/Store/InMemory/Iteration.antt =====
-- What the iterations over an in-memory store yield: each entry once, in insertion order.
use persista.Store.Validation.{validate_batch_size}
use persista.Store.Conflicts.Members.{member-keys}
use mathlib.Core.List.{map-append}
use persista.Common.{
  ℕ, pos, suc, false, String, text_keys, List, [], ◌∷◌, map, ◌≡◌, refl, ok, arith, length, concat,
  length-map, select,
}
use persista.Dict
use persista.Dict.{Dict}
use persista.Dict.Order
use persista.Store.Types.{Fields, Object}
use persista.Store.Conflicts.{member}
use persista.Store.Base
use persista.Store.Batching.{IsBatchify, IsBounded}
use persista.Store.InMemory
use persista.Store.InMemory.{InMemoryStore, Batchify}
use persista.Store.InMemory.Contract.{in_memory}

module _ {V : Type 0} where
  values-concat :
      (batches : List (Dict String V))
      → concat (map Dict.values batches) ≡ Dict.values (concat batches)
  values-concat [] = refl
  values-concat (b ∷ bs) = rw (map-append, values-concat bs)

module _ {V : Type 0} ⦃o : Object V⦄ where
  -- every value matches no filters
  select_all : (values : List (Fields V)) → select (InMemory.matches []) values ≡ values
  unfolding InMemory.matches
  select_all [] = refl
  select_all (v ∷ values) = rw (select_all values) refl

  pub filter_open :
      (s : InMemoryStore V) (filters : Dict String V)
      → s.closed ≡ false
      → InMemory.filter filters s
        ≡ (ok (select (InMemory.matches filters) (Dict.values s.entries)), s)
  unfolding InMemory.filter
  filter_open s [] h = ground (arith, select_all (Dict.values s.entries))
  filter_open s (f ∷ filters) h = ground arith

module _ {V : Type 0} (s : InMemoryStore V) (is_open : s.closed ≡ false) where
  -- `keys` lists the keys that `contains` finds, each as often as `count` counts it.
  pub keys-count :
      (ks : List String) × (InMemory.keys s ≡ (ok ks, s))
      × (InMemory.count s ≡ (ok (length ks), s))
      × ((k : String) → InMemory.contains k s ≡ (ok (member ks k), s))
  unfolding InMemory.keys InMemory.count InMemory.contains
  keys-count = (
    Dict.keys s.entries,
    ground arith,
    ground (arith, length-map (λ (e : String × Fields V). e.0) s.entries),
    λ k. ground (arith, member-keys s.entries k),
  )

  module _ ⦃o : Object V⦄ (batchify : Batchify V) (law : IsBatchify batchify)
      (distinct : Dict.IsDistinct s.entries) (n : ℕ) where
    pub iter_batches-concat :
        (batches : List (Dict String (Fields V))) × (InMemory.iter_batches batchify (pos (suc n)) s
          ≡ (ok batches, s))
        × (concat batches ≡ s.entries)
        × IsBounded (suc n) batches
    unfolding InMemory.iter_batches validate_batch_size
    iter_batches-concat =
        let e : map Dict.of_pairs (batchify s.entries (pos (suc n)))
            ≡ batchify s.entries (pos (suc n)) =
          Order.map-of_pairs (batchify s.entries (pos (suc n)))
            (rw (law.covers s.entries n) distinct) in
        (
          batchify s.entries (pos (suc n)),
          ground (arith, e),
          law.covers s.entries n,
          law.bounded s.entries n,
        )

    -- `values` yields every value once, in insertion order, whatever the batch size.
    pub values_in_order :
        Base.values (in_memory batchify) (pos (suc n)) s ≡ (ok (Dict.values s.entries), s)
    unfolding Base.values
    values_in_order =
        let (batches, yields, covers, _) = iter_batches-concat in
        rw (yields, values-concat batches, covers)
