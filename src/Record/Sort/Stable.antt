-- ===== src/Record/Sort/Stable.antt =====
-- What `sort_by_metadata` of persista/record/sort.py keeps: the sort is stable.
use mathlib.Core.List.{append-nil}
use persista.Common.{
  Bool, true, false, not, String, text_keys, none, some, List, [], ◌∷◌, ◌++◌, ◌≡◌, refl, map, ◌&&◌,
  select, all, arith, sym, ◌∙◌, ap, if◌then◌else◌, is_some,
}
use persista.Record.{Record, Order, value_of}
use persista.Record.Sort.{direction, insert, sort, present, missing, sort_by_metadata}

-- What is used of the comparison of the keys: it is that of some total order, up to ties.
pub record IsWeakOrder {V : Type 0} (less : V → V → Bool) : Type 0 where
  pub asym : (a b : V) → less a b ≡ true → less b a ≡ false
  pub cotrans : (a b c : V) → less a c ≡ true → less a b ≡ false → less b c ≡ true

module _ {V : Type 0} where
  reversed :
      (less : V → V → Bool)
      → IsWeakOrder less
      → (a b c : V) → less c a ≡ true
      → less b a ≡ false
      → less c b ≡ true
  reversed less h a b c e n = ground (arith, h.cotrans c b a, h.asym)

  pub direction-IsWeakOrder :
      (reverse : Bool) (less : V → V → Bool)
      → IsWeakOrder less
      → IsWeakOrder (direction reverse less)
  direction-IsWeakOrder false less h = h
  direction-IsWeakOrder true less h = record {
    asym = λ a b. h.asym b a;
    cotrans = λ a b c e n. reversed less h a b c e n;
  }

  -- neither key is smaller
  unfoldable pub ties : (V → V → Bool) → V → V → Bool
  ties less k v = not (less k v) && not (less v k)

module _ {V A : Type 0} (less : V → V → Bool) (h : IsWeakOrder less) where
  select-insert :
      (k : V) (x : V × A) (ys : List (V × A))
      → select (λ y. ties less k y.0) (insert less x ys) ≡ select (λ y. ties less k y.0) (x ∷ ys)
  unfolding insert ties
  select-insert k x [] = refl
  select-insert k x (y ∷ ys) = ground (arith, select-insert k x ys, h.cotrans y.0 k x.0)

  -- the elements whose keys tie with one key stay in their order, and none is lost or added
  select-sort :
      (k : V) (xs : List (V × A))
      → select (λ y. ties less k y.0) (sort less xs) ≡ select (λ y. ties less k y.0) xs
  unfolding sort
  select-sort k [] = refl
  select-sort k (x ∷ xs) = ground (arith, select-insert k x (sort less xs), select-sort k xs)

module _ {A : Type 0} where
  select-append : (p : A → Bool) (xs ys : List A) → select p (xs ++ ys) ≡ select p xs ++ select p ys
  select-append p [] ys = refl
  select-append p (x ∷ xs) ys = ground (arith, select-append p xs ys)

  pub all-append : (p : A → Bool) (xs ys : List A) → all p (xs ++ ys) ≡ (all p xs && all p ys)
  all-append p [] ys = refl
  all-append p (x ∷ xs) ys = ground (arith, all-append p xs ys)

module _ {V : Type 0} (metadata_key : String) where
  -- each record stands beside the value of its key
  abbrev pub IsKeyed : List (V × Record V) → Type 0
  IsKeyed [] = Unit {0}
  IsKeyed ((v, r) ∷ xs) = (value_of metadata_key r ≡ some v) × IsKeyed xs

  insert-IsKeyed :
      (less : V → V → Bool) (v : V) (r : Record V) (xs : List (V × Record V))
      → value_of metadata_key r ≡ some v
      → IsKeyed xs
      → IsKeyed (insert less (v, r) xs)
  unfolding insert
  insert-IsKeyed less v r [] e h = (e, tt)
  insert-IsKeyed less v r ((w, s) ∷ xs) e h = ground (arith, insert-IsKeyed less v r xs e h.1)

  pub sort-IsKeyed :
      (less : V → V → Bool) (xs : List (V × Record V)) → IsKeyed xs → IsKeyed (sort less xs)
  unfolding sort
  sort-IsKeyed less [] h = tt
  sort-IsKeyed less ((v, r) ∷ xs) h =
      insert-IsKeyed less v r (sort less xs) h.0 (sort-IsKeyed less xs h.1)

  pub present-IsKeyed : (records : List (Record V)) → IsKeyed (present metadata_key records)
  unfolding present
  present-IsKeyed [] = tt
  present-IsKeyed (r ∷ records) = ground (arith, present-IsKeyed records)

  none_missing :
      (xs : List (V × Record V)) → IsKeyed xs → missing metadata_key (map (λ x. x.1) xs) ≡ []
  none_missing [] h = refl
  none_missing ((v, r) ∷ xs) h = ground (arith, none_missing xs h.1)

  missing-missing :
      (records : List (Record V))
      → missing metadata_key (missing metadata_key records) ≡ missing metadata_key records
  missing-missing [] = refl
  missing-missing (r ∷ records) = ground (arith, missing-missing records)

  -- the record has the key, with a value that ties with `k`
  unfoldable pub has_tied : (V → V → Bool) → V → Record V → Bool
  unfolding ties
  has_tied less k r = elim (value_of metadata_key r) [ none ↦ false | some v ↦ ties less k v ]

  module _ (less : V → V → Bool) (k : V) where
    select-keyed :
        (xs : List (V × Record V))
        → IsKeyed xs
        → select (has_tied less k) (map (λ x. x.1) xs)
          ≡ map (λ x. x.1) (select (λ y. ties less k y.0) xs)
    unfolding has_tied
    select-keyed [] h = refl
    select-keyed ((v, r) ∷ xs) h = ground (arith, select-keyed xs h.1)

    select-present :
        (records : List (Record V))
        → map (λ x. x.1) (select (λ y. ties less k y.0) (present metadata_key records))
          ≡ select (has_tied less k) records
    unfolding has_tied present
    select-present [] = refl
    select-present (r ∷ records) = ground (arith, select-present records)

    select-missing :
        (records : List (Record V)) → select (has_tied less k) (missing metadata_key records) ≡ []
    unfolding has_tied
    select-missing [] = refl
    select-missing (r ∷ records) = ground (arith, select-missing records)

module _ {V : Type 0} (less : V → V → Bool) (k v : V) where
  ties-direction : (reverse : Bool) → ties (direction reverse less) k v ≡ ties less k v
  unfolding ties
  ties-direction false = refl
  ties-direction true = ground arith

module _ {V : Type 0} (metadata_key : String) (less : V → V → Bool) (k : V) where
  has_tied-direction :
      (reverse : Bool) (records : List (Record V))
      → select (has_tied metadata_key (direction reverse less) k) records
        ≡ select (has_tied metadata_key less k) records
  unfolding has_tied
  has_tied-direction reverse [] = refl
  has_tied-direction reverse (r ∷ records) =
      ground (arith, has_tied-direction reverse records, ties-direction less k _ reverse)

module _ {V : Type 0} ⦃order : Order V⦄ (h : IsWeakOrder order.less) where
  tied_sorted :
      (records : List (Record V)) (metadata_key : String) (reverse : Bool) (k : V)
      → select
          (has_tied metadata_key (direction reverse order.less) k)
          (map (λ x. x.1) (sort (direction reverse order.less) (present metadata_key records)))
        ≡ select (has_tied metadata_key (direction reverse order.less) k) records
  tied_sorted records metadata_key reverse k =
      let less = direction reverse order.less in
      let xs = present metadata_key records in
      let w = direction-IsWeakOrder reverse order.less h in
      select-keyed metadata_key less k (sort less xs)
        (sort-IsKeyed metadata_key less xs (present-IsKeyed metadata_key records))
      ∙ ap (map (λ x. x.1)) (select-sort less w k xs)
      ∙ select-present metadata_key less k records

  present_stable :
      (records : List (Record V)) (metadata_key : String) (reverse : Bool) (k : V)
      → select
          (has_tied metadata_key order.less k)
          (map (λ x. x.1) (sort (direction reverse order.less) (present metadata_key records)))
        ≡ select (has_tied metadata_key order.less k) records
  present_stable records metadata_key reverse k =
      sym (has_tied-direction metadata_key order.less k reverse _)
      ∙ tied_sorted records metadata_key reverse k
      ∙ has_tied-direction metadata_key order.less k reverse records

  -- If the keys' comparison is that of a total order up to ties, the records whose metadata key ties
  -- with a given value are the same in the result of sort_by_metadata as in the input, in the same
  -- order, whatever the direction and whether or not records without the key are kept.
  pub sort_by_metadata_stable :
      (records : List (Record V)) (metadata_key : String) (keep_missing reverse : Bool) (k : V)
      → select
          (has_tied metadata_key order.less k)
          (sort_by_metadata records metadata_key keep_missing reverse)
        ≡ select (has_tied metadata_key order.less k) records
  unfolding sort_by_metadata
  sort_by_metadata_stable records metadata_key false reverse k =
      present_stable records metadata_key reverse k
  sort_by_metadata_stable records metadata_key true reverse k =
      rw
        (
          select-append (has_tied metadata_key order.less k)
              (map (λ x. x.1) (sort (direction reverse order.less) (present metadata_key records)))
              (missing metadata_key records),
          select-missing metadata_key order.less k records,
          append-nil,
        )
        (present_stable records metadata_key reverse k)

module _ {V : Type 0} ⦃order : Order V⦄ where
  -- With keep_missing the records without the key are in the result of sort_by_metadata, in their
  -- order, and else none of them is.
  pub sort_by_metadata_keeps_missing :
      (records : List (Record V)) (metadata_key : String) (keep_missing reverse : Bool)
      → missing metadata_key (sort_by_metadata records metadata_key keep_missing reverse)
        ≡ (if keep_missing then missing metadata_key records else [])
  unfolding sort_by_metadata
  sort_by_metadata_keeps_missing records metadata_key false reverse =
      none_missing metadata_key _
        (sort-IsKeyed metadata_key _ _ (present-IsKeyed metadata_key records))
  sort_by_metadata_keeps_missing records metadata_key true reverse =
      rw
        (
          select-append (λ r. not (is_some (value_of metadata_key r))),
          none_missing metadata_key
              (sort (direction reverse order.less) (present metadata_key records))
              (sort-IsKeyed metadata_key (direction reverse order.less)
                (present metadata_key records) (present-IsKeyed metadata_key records)),
          missing-missing metadata_key records,
        )
        refl
