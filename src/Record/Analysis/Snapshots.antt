-- ===== src/Record/Analysis/Snapshots.antt =====
-- What `diff_records` of persista/record/analysis/diff.py reports.
use persista.Common.{
  Bool, false, not, String, text_keys, Option, none, some, List, [], ◌∷◌, ◌≡◌, refl, map, ◌&&◌,
  ◌==◌, select, is_some, if◌then◌else◌, arith,
}
use persista.Dict
use persista.Dict.{Dict}
use persista.Dict.Laws
use persista.Store.Types.{Fields, Object}
use persista.Store.Conflicts.{member}
use persista.Record.{Record}
use persista.Record.Analysis.{by_id, same_fields, diff_records}

module _ {V : Type 0} where
  -- the metadata of the last record with an id: that snapshot's record under the id
  pub last_with_id : List (Record V) → String → Option (Fields V)
  last_with_id [] i = none
  last_with_id (r ∷ records) i = elim (last_with_id records i) [
    | some m ↦ some m
    | none ↦ if r.id == i then some r.metadata else none
  ]

  get-update-by_id :
      (records : List (Record V)) (d : Dict String (Fields V)) (i : String)
      → Dict.get (Dict.update d (map (λ r. (r.id, r.metadata)) records)) i
        ≡ elim (last_with_id records i) [ some m ↦ some m | none ↦ Dict.get d i ]
  unfolding Dict.update last_with_id
  get-update-by_id [] d i = refl
  get-update-by_id (r ∷ records) d i = ground (
    arith,
    get-update-by_id records (Dict.set d r.id r.metadata) i,
    Laws.get-set d r.id i r.metadata,
  )

  pub get-by_id :
      (records : List (Record V)) (i : String) → Dict.get (by_id records) i ≡ last_with_id records i
  unfolding by_id Dict.of_pairs Dict.get
  get-by_id records i = ground (arith, get-update-by_id records [] i)

  pub by_id-IsDistinct : (records : List (Record V)) → Dict.IsDistinct (by_id records)
  unfolding by_id
  by_id-IsDistinct records = Laws.of_pairs-IsDistinct (map (λ r. (r.id, r.metadata)) records)

  member-select-keys :
      (p : String → Bool) (d : Dict String (Fields V)) (i : String)
      → member (select p (Dict.keys d)) i ≡ (p i && Dict.contains d i)
  unfolding member Dict.get
  member-select-keys p [] i = ground arith
  member-select-keys p ((j, v) ∷ d) i =
      ground (arith, member-select-keys p d i, text_keys.test_iff j i)

module _ {V : Type 0} ⦃o : Object V⦄ where
  -- both snapshots have a record, and their metadata differ
  pub differ : Option (Fields V) → Option (Fields V) → Bool
  differ (some old) (some new) = not (same_fields new old)
  differ _ _ = false

  -- An id is in added exactly if only the later snapshot has a record with it, in removed exactly if
  -- only the earlier one has, and in changed exactly if both have and the metadata of the last
  -- record with it differ between the two.
  pub diff_records-classifies :
      (before after : List (Record V)) (i : String)
      → (member (diff_records before after).added i
          ≡ (not (is_some (last_with_id before i)) && is_some (last_with_id after i)))
        × (member (diff_records before after).removed i
            ≡ (not (is_some (last_with_id after i)) && is_some (last_with_id before i)))
        × (member (diff_records before after).changed i
            ≡ differ (last_with_id before i) (last_with_id after i))
  unfolding diff_records differ
  diff_records-classifies before after i = (
    rw (member-select-keys _ (by_id after) i, get-by_id before i, get-by_id after i) refl,
    rw (member-select-keys _ (by_id before) i, get-by_id before i, get-by_id after i) refl,
    rw (member-select-keys _ (by_id after) i)
        (ground (arith, get-by_id before i, get-by_id after i)),
  )
