-- ===== src/Record/Filter.antt =====
-- persista/record/filter.py, with two laws of its filters. Values that Python cannot compare
-- with the bounds, where it raises `TypeError`, are left out.
use persista.Common.{
  Bool, false, not, String, text_keys, Option, none, some, List, [], ◌∷◌, ◌≡◌, refl, ◌||◌, select,
  if◌then◌else◌, arith,
}
use persista.Store.Types.{Object}
use persista.Record.{Record, Order, value_of}

module _ {V : Type 0} ⦃o : Object V⦄ where
  -- value == of a key that is there
  abbrev has_value : V → Option V → Bool
  has_value value none = false
  has_value value (some v) = o.equals v value

  unfoldable pub filter_by_metadata : List (Record V) → String → V → List (Record V)
  filter_by_metadata records metadata_key value =
      select (λ r. has_value value (value_of metadata_key r)) records

  -- `in`, for a set given by its members
  abbrev is_in : List V → V → Bool
  is_in [] v = false
  is_in (w ∷ values) v = o.equals v w || is_in values v

  abbrev has_value_in : List V → Option V → Bool
  has_value_in values none = false
  has_value_in values (some v) = is_in values v

  unfoldable pub filter_by_metadata_values : List (Record V) → String → List V → List (Record V)
  filter_by_metadata_values records metadata_key values =
      select (λ r. has_value_in values (value_of metadata_key r)) records

module _ {V : Type 0} ⦃order : Order V⦄ where
  -- value < lower, for a bound that is given
  abbrev is_below : V → Option V → Bool
  is_below value none = false
  is_below value (some lower) = order.less value lower

  -- value > upper
  abbrev is_above : V → Option V → Bool
  is_above value none = false
  is_above value (some upper) = order.less upper value

  unfoldable pub in_range : String → Option V → Option V → Record V → Bool
  in_range metadata_key lower upper r = elim (value_of metadata_key r) [
    | none ↦ false
    | some value ↦ if is_below value lower then false else not (is_above value upper)
  ]

  unfoldable pub filter_by_metadata_range :
      List (Record V) → String → Option V → Option V → List (Record V)
  unfolding in_range
  filter_by_metadata_range records metadata_key lower upper =
      select (in_range metadata_key lower upper) records

  -- A filter by a range is the filter by its lower bound followed by the filter by its upper bound.
  pub range-compose :
      (records : List (Record V)) (metadata_key : String) (lower upper : Option V)
      → filter_by_metadata_range records metadata_key lower upper
        ≡ filter_by_metadata_range
            (filter_by_metadata_range records metadata_key lower none)
            metadata_key
            none
            upper
  unfolding filter_by_metadata_range in_range
  range-compose [] metadata_key lower upper = refl
  range-compose (r ∷ records) metadata_key lower upper =
      ground (arith, range-compose records metadata_key lower upper)

module _ {V : Type 0} ⦃o : Object V⦄ where
  -- A set of one value filters as the value does.
  pub values_singleton :
      (records : List (Record V)) (metadata_key : String) (v : V)
      → filter_by_metadata_values records metadata_key (v ∷ [])
        ≡ filter_by_metadata records metadata_key v
  unfolding filter_by_metadata filter_by_metadata_values
  values_singleton [] metadata_key v = refl
  values_singleton (r ∷ records) metadata_key v =
      ground (arith, values_singleton records metadata_key v)
