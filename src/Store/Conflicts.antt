-- ===== src/Store/Conflicts.antt =====
-- `resolve_conflicts` of persista/store/validation.py. The store's `contains_many` and `get`, which
-- it is handed, are actions on the store's state `S`.
pub mod Laws
pub mod Members
use persista.Common.{
  Bool, true, false, String, Option, none, some, List, [], ◌∷◌, ◌==◌, text_keys, Result, ok, err,
  Exec, pure, lift, key_error, value_error, ◌>>=◌, if◌then◌else◌, ◌&&◌,
}
use persista.Dict
use persista.Dict.{Dict}
use persista.Store.Types.{OnConflict, Fields}

-- on_conflict == "raise"
abbrev is_raise : OnConflict → Bool
is_raise OnConflict.raise = true
is_raise _ = false

-- on_conflict == "skip"
abbrev is_skip : OnConflict → Bool
is_skip OnConflict.skip = true
is_skip _ = false

-- key in conflicts
unfoldable pub member : List String → String → Bool
member [] key = false
member (c ∷ conflicts) key = if c == key then true else member conflicts key

-- {key for key, exists in zip(keys, found, strict=True) if exists}
unfoldable pub conflicts_of : List String → List Bool → Result (List String)
conflicts_of [] [] = ok []
conflicts_of (key ∷ keys) (exists ∷ found) = elim (conflicts_of keys found) [
  | ok rest ↦ ok (if exists then key ∷ rest else rest)
  | err e ↦ err e
]
conflicts_of _ _ = err value_error

-- if conflicts and on_conflict == "raise": raise KeyError
unfoldable pub refuse : OnConflict → List String → Result (Unit {0})
refuse on_conflict [] = ok tt
refuse on_conflict (c ∷ conflicts) =
    if is_raise on_conflict then err (key_error (c ∷ conflicts)) else ok tt

-- value or {}
abbrev pub or_empty {ℓ} : {V : Type ℓ} → Option (Dict String V) → Dict String V
or_empty none = []
or_empty (some value) = value

module _ {S V : Type 0} (get : String → Exec S (Option (Fields V))) where
  -- one round of the loop over `items`
  unfoldable pub resolve_item :
      OnConflict
      → List String
      → String × Fields V
      → Dict String (Fields V)
      → Exec S (Dict String (Fields V))
  unfolding member
  resolve_item on_conflict conflicts (key, value) to_write =
      if member conflicts key
      then if is_skip on_conflict then pure to_write else (do
        existing ← get key
        pure (Dict.set to_write key (Dict.update (or_empty existing) value)))
      else pure (Dict.set to_write key value)

  unfoldable pub resolve_items :
      OnConflict
      → List String
      → Dict String (Fields V)
      → Dict String (Fields V)
      → Exec S (Dict String (Fields V))
  unfolding resolve_item
  resolve_items on_conflict conflicts [] to_write = pure to_write
  resolve_items on_conflict conflicts (item ∷ items) to_write = do
    to_write' ← resolve_item on_conflict conflicts item to_write
    resolve_items on_conflict conflicts items to_write'

  unfoldable pub resolve_conflicts :
      Dict String (Fields V)
      → OnConflict
      → (List String → Exec S (List Bool))
      → Exec S (Dict String (Fields V))
  unfolding conflicts_of refuse resolve_items
  resolve_conflicts items on_conflict contains_many = do
    found ← contains_many (Dict.keys items)
    conflicts ← lift (conflicts_of (Dict.keys items) found)
    _ ← lift (refuse on_conflict conflicts)
    resolve_items on_conflict conflicts items []
