-- ===== src/Record/Analysis/Collisions.antt =====
-- What `find_id_collisions` of persista/record/analysis/id_collision.py reports.
mod Variants
use persista.Common.{
  Bool, false, not, String, text_keys, none, some, List, [], ◌∷◌, ◌≡◌, refl, ◌==◌, map, select, all,
  length, length-append, ltb, if◌then◌else◌, arith, ◌≤◌, ◌++◌, ◌||◌, true, ◌⊎◌, inl, inr, sym, ◌∙◌,
  Bool-cases,
}
use mathlib.Core.List.{append-nil, append_assoc}
use persista.Dict
use persista.Dict.{Dict}
use persista.Dict.Laws
use persista.Dict.Order
use persista.Dict.Select.{get-select, select-IsDistinct}
use persista.Store.Types.{Fields, Object}
use persista.Record.{Record}
use persista.Record.Analysis.{
  group_at, same_fields, add_variant, variants_from, find_id_collisions, any,
}
pub use Variants.{AreVariants}
use Variants.{distinct_from, distinct_from-AreVariants}

module _ {V : Type 0} ⦃o : Object V⦄ where
  -- the metadata of the records with an id, in order
  pub metadata_of : List (Record V) → String → List (Fields V)
  metadata_of records i = map (λ r. r.metadata) (select (λ r. r.id == i) records)

  group_at-variants_from :
      (records : List (Record V)) (d : Dict String (List (Fields V))) (i : String)
      → group_at (variants_from records d) i ≡ distinct_from (group_at d i) (metadata_of records i)
  unfolding variants_from distinct_from metadata_of
  group_at-variants_from [] d i = refl
  group_at-variants_from (r ∷ records) d i = ground (
    arith,
    group_at-variants_from records (Dict.set d r.id (add_variant (group_at d r.id) r.metadata)) i,
    Laws.get-set d r.id i (add_variant (group_at d r.id) r.metadata),
    text_keys.test_iff r.id i,
  )

  variants_from-IsDistinct :
      (records : List (Record V)) (d : Dict String (List (Fields V)))
      → Dict.IsDistinct d
      → Dict.IsDistinct (variants_from records d)
  unfolding variants_from
  variants_from-IsDistinct [] d h = h
  variants_from-IsDistinct (r ∷ records) d h =
      variants_from-IsDistinct records _ (Laws.set-IsDistinct d r.id _ h)

  length-distinct_from :
      (seen metadata : List (Fields V)) → length seen ≤ length (distinct_from seen metadata)
  unfolding distinct_from add_variant
  length-distinct_from seen [] = ground arith
  length-distinct_from seen (m ∷ metadata) =
      ground
        (arith, length-distinct_from (add_variant seen m) metadata, length-append seen (m ∷ []))

  -- more than one variant, exactly if one differs from the first
  long-distinct_from :
      (m : Fields V) (metadata : List (Fields V))
      → ltb 1 (length (distinct_from (m ∷ []) metadata)) ≡ not (all (same_fields m) metadata)
  unfolding distinct_from add_variant
  long-distinct_from m [] = ground arith
  long-distinct_from m (n ∷ metadata) =
      ground (arith, long-distinct_from m metadata, length-distinct_from (m ∷ n ∷ []) metadata)

module _ {V : Type 0} ⦃o : Object V⦄ where
  -- not all equal to the first
  pub vary : List (Fields V) → Bool
  vary [] = false
  vary (m ∷ metadata) = not (all (same_fields m) metadata)

  long-distinct :
      (metadata : List (Fields V)) → ltb 1 (length (distinct_from [] metadata)) ≡ vary metadata
  unfolding distinct_from vary add_variant
  long-distinct [] = ground arith
  long-distinct (m ∷ metadata) = long-distinct_from m metadata

  -- find_id_collisions reports an id exactly if the records with it do not all have the metadata of
  -- the first of them, and then under it some of the metadata of those records, in their order, such
  -- that no two are equal and each of the metadata is among them or equal to one of them.
  pub get-find_id_collisions :
      (records : List (Record V)) (i : String)
      → (variants : List (Fields V)) × AreVariants (metadata_of records i) variants
        × (Dict.get (find_id_collisions records) i
            ≡ (if vary (metadata_of records i) then some variants else none))
  unfolding find_id_collisions Dict.get
  get-find_id_collisions records i =
      let d = variants_from records [] in
      let h = variants_from-IsDistinct records [] tt in
      let p = λ (g : List (Fields V)). ltb 1 (length g) in
      (
        distinct_from [] (metadata_of records i),
        distinct_from-AreVariants (metadata_of records i),
        rw (Order.of_pairs_distinct (select (λ e. p e.1) d) (select-IsDistinct p d h)) (
            ground (
              arith,
              get-select p d i h,
              group_at-variants_from records [] i,
              long-distinct (metadata_of records i),
            )),
      )
