-- ===== src/Record/Sort/Ordered.antt =====
-- The order of the result of `sort_by_metadata` of persista/record/sort.py.
use persista.Common.{
  Bool, true, false, not, String, text_keys, none, some, List, [], ◌∷◌, ◌++◌, ◌≡◌, refl, map, all,
  arith,
}
use persista.Record.{Record, Order, value_of}
use persista.Record.Sort.{direction, insert, sort, present, missing, sort_by_metadata}
use persista.Record.Sort.Stable.{
  IsWeakOrder, IsKeyed, direction-IsWeakOrder, present-IsKeyed, sort-IsKeyed, all-append,
}

module _ {V A : Type 0} (less : V → V → Bool) where
  -- no element has a smaller key than one to its left
  abbrev IsSorted : List (V × A) → Type 0
  IsSorted [] = Unit {0}
  IsSorted (x ∷ xs) = (all (λ y. not (less y.0 x.0)) xs ≡ true) × IsSorted xs

  module _ (h : IsWeakOrder less) where
    all-insert :
        (v : V) (x : V × A) (ys : List (V × A))
        → all (λ y. not (less y.0 v)) (insert less x ys) ≡ all (λ y. not (less y.0 v)) (x ∷ ys)
    unfolding insert
    all-insert v x [] = refl
    all-insert v x (y ∷ ys) = ground (arith, all-insert v x ys)

    -- what is not below a key is not below a smaller one
    all_below :
        (v w : V) (ys : List (V × A))
        → less w v ≡ false
        → all (λ y. not (less y.0 w)) ys ≡ true
        → all (λ y. not (less y.0 v)) ys ≡ true
    all_below v w [] n a = refl
    all_below v w (y ∷ ys) n a = ground (arith, all_below v w ys n, h.cotrans y.0 w v)

    insert-IsSorted : (x : V × A) (ys : List (V × A)) → IsSorted ys → IsSorted (insert less x ys)
    unfolding insert
    insert-IsSorted x [] s = (refl, tt)
    insert-IsSorted x (y ∷ ys) s =
        ground (
          arith,
          insert-IsSorted x ys s.1,
          all-insert y.0 x ys,
          all_below x.0 y.0 ys,
          h.asym y.0 x.0,
        )

    sort-IsSorted : (xs : List (V × A)) → IsSorted (sort less xs)
    unfolding sort
    sort-IsSorted [] = tt
    sort-IsSorted (x ∷ xs) = insert-IsSorted x (sort less xs) (sort-IsSorted xs)

module _ {V : Type 0} (metadata_key : String) (less : V → V → Bool) where
  -- `s` may stand to the right of `r`: its key is not smaller, or it has none
  may_follow : Record V → Record V → Bool
  may_follow r s = elim (value_of metadata_key s) [
    | none ↦ true
    | some w ↦ elim (value_of metadata_key r) [ none ↦ false | some v ↦ not (less w v) ]
  ]

  pub IsOrdered : List (Record V) → Type 0
  IsOrdered [] = Unit {0}
  IsOrdered (r ∷ records) = (all (may_follow r) records ≡ true) × IsOrdered records

  all-keyed :
      (v : V) (r : Record V) (xs : List (V × Record V))
      → value_of metadata_key r ≡ some v
      → IsKeyed metadata_key xs
      → all (may_follow r) (map (λ x. x.1) xs) ≡ all (λ y. not (less y.0 v)) xs
  unfolding may_follow
  all-keyed v r [] e h = refl
  all-keyed v r ((w, s) ∷ xs) e h = ground (arith, all-keyed v r xs e h.1)

  all-missing :
      (r : Record V) (records : List (Record V))
      → all (may_follow r) (missing metadata_key records) ≡ true
  unfolding may_follow
  all-missing r [] = refl
  all-missing r (s ∷ records) = ground (arith, all-missing r records)

  missing-IsOrdered : (records : List (Record V)) → IsOrdered (missing metadata_key records)
  unfolding IsOrdered
  missing-IsOrdered [] = tt
  missing-IsOrdered (r ∷ records) = ground (arith, missing-IsOrdered records, all-missing r records)

  keyed-IsOrdered :
      (xs : List (V × Record V)) (rs : List (Record V))
      → IsKeyed metadata_key xs
      → IsSorted less xs
      → IsOrdered (map (λ x. x.1) xs ++ missing metadata_key rs)
  unfolding IsOrdered
  keyed-IsOrdered [] rs h s = missing-IsOrdered rs
  keyed-IsOrdered ((v, r) ∷ xs) rs h s = (
    ground (
      arith,
      all-append (may_follow r) (map (λ x. x.1) xs) (missing metadata_key rs),
      all-keyed v r xs h.0 h.1,
      all-missing r rs,
    ),
    keyed-IsOrdered xs rs h.1 s.1,
  )

  present-IsOrdered :
      (xs : List (V × Record V))
      → IsKeyed metadata_key xs
      → IsSorted less xs
      → IsOrdered (map (λ x. x.1) xs)
  unfolding IsOrdered
  present-IsOrdered [] h s = tt
  present-IsOrdered ((v, r) ∷ xs) h s =
      (ground (arith, all-keyed v r xs h.0 h.1), present-IsOrdered xs h.1 s.1)

module _ {V : Type 0} ⦃order : Order V⦄ (h : IsWeakOrder order.less) where
  -- If the keys' comparison is that of a total order up to ties, the result of sort_by_metadata is
  -- sorted by the metadata key, ascending or, with reverse, descending, and records without the key
  -- stand behind all that have it.
  pub sort_by_metadata-IsOrdered :
      (records : List (Record V)) (metadata_key : String) (keep_missing reverse : Bool)
      → IsOrdered metadata_key
          (direction reverse order.less)
          (sort_by_metadata records metadata_key keep_missing reverse)
  unfolding sort_by_metadata
  sort_by_metadata-IsOrdered records metadata_key false reverse =
      let less = direction reverse order.less in
      let w = direction-IsWeakOrder reverse order.less h in
      let xs = present metadata_key records in
      present-IsOrdered metadata_key less (sort less xs)
        (sort-IsKeyed metadata_key less xs (present-IsKeyed metadata_key records))
        (sort-IsSorted less w xs)
  sort_by_metadata-IsOrdered records metadata_key true reverse =
      let less = direction reverse order.less in
      let w = direction-IsWeakOrder reverse order.less h in
      let xs = present metadata_key records in
      keyed-IsOrdered metadata_key less (sort less xs) records
        (sort-IsKeyed metadata_key less xs (present-IsKeyed metadata_key records))
        (sort-IsSorted less w xs)
