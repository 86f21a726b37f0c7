-- ===== src/Record/RecordStore/Contract.antt =====
-- `RecordStore` of persista/record/store/record.py over a store that keeps its contract.
use persista.Common.{
  false, String, text_keys, Option, none, some, List, [], ◌∷◌, ◌≡◌, refl, map, ok, arith,
}
use persista.Store.Types.{OnConflict, Fields}
use persista.Store.Spec.{View}
use persista.Store.Base.{BaseStore, IsStore}
use persista.Record.{Record}
use persista.Record.Analysis.{by_id}
use persista.Record.Analysis.Snapshots.{last_with_id, get-by_id, by_id-IsDistinct}
use persista.Record.RecordStore.{record_of, zip_records, set_many, get, get_many}
use persista.Store.Spec

map_eq :
    {A : Type 0} {B : Type 0} {C : Type 0} (f : A → C) (g : A → B) (k : B → C) (xs : List A)
    → ((x : A) → f x ≡ k (g x))
    → map f xs ≡ map k (map g xs)
map_eq f g k [] e = refl
map_eq f g k (x ∷ xs) e = cc (e x, map_eq f g k xs e)

module _ {V : Type 0} where
  zip_records-map :
      (view : View V) (ids : List String)
      → zip_records ids (map view ids) ≡ ok (map (λ i. record_of i (view i)) ids)
  unfolding zip_records
  zip_records-map view [] = refl
  zip_records-map view (i ∷ ids) = ground (arith, zip_records-map view ids)

  -- what `a` finds, or else what `b` does
  pub or_else : Option (Fields V) → Option (Fields V) → Option (Fields V)
  or_else none b = b
  or_else (some m) b = some m

module _ {V : Type 0} (b : BaseStore V) {view : b.State → View V} (h : IsStore b view) (s : b.State)
    (is_open : b.closed s ≡ false) where
  -- Over an open store that keeps its contract, set_many returns, and a get of an id then returns the
  -- last of the records with that id, or what it would have returned before if there is none.
  pub get-set_many_records :
      (records : List (Record V)) (i : String)
      → ((set_many b records s).0 ≡ ok tt)
        × (get b i (set_many b records s).1 ≡ (
          ok (record_of i (or_else (last_with_id records i) (view s i))),
          (set_many b records s).1,
        ))
  unfolding set_many get Spec.set_many Spec.after_write Spec.resolved or_else
  get-set_many_records records i =
      let written =
        h.sets_many s (by_id records) OnConflict.overwrite is_open (by_id-IsDistinct records) in
      let s' = (b.set_many (by_id records) OnConflict.overwrite s).1 in
      let found : view s' i ≡ or_else (last_with_id records i) (view s i) =
        ground (arith, written.shows i, get-by_id records i) in
      (written.result, rw (h.reads s' i written.stays_open, found) refl)

  -- Over an open store that keeps its contract, get_many returns for each id what get of that id
  -- returns.
  pub get_many-get_records :
      (ids : List String)
      → ((values : List (Option (Record V))) × (get_many b ids s ≡ (ok values, s))
          × (map (λ i. (get b i s).0) ids ≡ map (λ value. ok value) values))
  unfolding get_many get
  get_many-get_records ids = (
    map (λ i. record_of i (view s i)) ids,
    rw (h.reads_many s ids is_open, zip_records-map (view s) ids) refl,
    map_eq _ _ ok ids (λ i. rw (h.reads s i is_open) refl),
  )
