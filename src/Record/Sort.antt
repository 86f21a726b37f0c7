-- ===== src/Record/Sort.antt =====
-- persista/record/sort.py: `sort_by_metadata`, with Python's stable `list.sort`.
pub mod Stable
pub mod Ordered
use persista.Common.{
  Bool, true, false, not, String, text_keys, Option, none, some, List, [], ◌∷◌, ◌++◌, ◌≡◌, refl,
  map, ◌&&◌, ◌||◌, select, all, is_some, if◌then◌else◌, arith,
}
use persista.Dict
use persista.Record.{Record, Order, value_of}

module _ {V : Type 0} where
  -- the comparison that `reverse=True` sorts by: equal keys keep their order either way
  abbrev pub direction : Bool → (V → V → Bool) → V → V → Bool
  direction false less v w = less v w
  direction true less v w = less w v

  -- list.sort(key=...), on elements beside their keys: an element goes behind those that have a
  -- smaller key and before the ones that were to its right
  unfoldable pub insert : {A : Type 0} → (V → V → Bool) → V × A → List (V × A) → List (V × A)
  insert less x [] = x ∷ []
  insert less x (y ∷ ys) =
      let rest = insert less x ys in if less y.0 x.0 then y ∷ rest else x ∷ y ∷ ys

  unfoldable pub sort : {A : Type 0} → (V → V → Bool) → List (V × A) → List (V × A)
  unfolding insert
  sort less [] = []
  sort less (x ∷ xs) = insert less x (sort less xs)

  -- present, beside the keys
  unfoldable pub present : String → List (Record V) → List (V × Record V)
  present metadata_key [] = []
  present metadata_key (r ∷ records) = elim (value_of metadata_key r) [
    | none ↦ present metadata_key records
    | some v ↦ (v, r) ∷ present metadata_key records
  ]

  -- missing
  abbrev pub missing : String → List (Record V) → List (Record V)
  missing metadata_key = select (λ r. not (is_some (value_of metadata_key r)))

module _ {V : Type 0} ⦃order : Order V⦄ where
  unfoldable pub sort_by_metadata : List (Record V) → String → Bool → Bool → List (Record V)
  unfolding sort present
  sort_by_metadata records metadata_key keep_missing reverse =
      let sorted =
        map (λ x. x.1) (sort (direction reverse order.less) (present metadata_key records)) in
      if keep_missing then sorted ++ missing metadata_key records else sorted
