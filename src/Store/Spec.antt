-- ===== src/Store/Spec.antt =====
-- What a store promises, whatever its backend: the effect of a write on a view, the function from
-- keys to values that `get` shows (the contract of persista/store/base.py).
use persista.Common.{
  String, text_keys, Option, none, some, List, [], ◌∷◌, Result, ok, err, key_error, select, is_some,
}
use persista.Dict
use persista.Dict.{Dict}
use persista.Store.Types.{OnConflict, Fields}

abbrev pub View : Type 0 → Type 0
View V = String → Option (Fields V)

module _ {V : Type 0} where
  -- the keys of `items` that the view already has, in their order
  unfoldable pub conflict_keys : View V → Dict String (Fields V) → List String
  conflict_keys view items = select (λ k. is_some (view k)) (Dict.keys items)

  -- what a strategy makes of the value that a key has and the value that is written to it
  unfoldable pub resolved : OnConflict → Option (Fields V) → Fields V → Fields V
  resolved on_conflict none new = new
  resolved OnConflict.skip (some old) new = old
  resolved OnConflict.merge (some old) new = Dict.update old new
  resolved on_conflict (some old) new = new

  -- the view after `items` have been written
  unfoldable pub after_write : OnConflict → Dict String (Fields V) → View V → View V
  unfolding resolved
  after_write on_conflict items view k = elim (Dict.get items k) [
    | none ↦ view k
    | some new ↦ some (resolved on_conflict (view k) new)
  ]

  -- "raise": all or nothing
  unfoldable pub write_or_raise :
      List String → Dict String (Fields V) → View V → Result (Unit {0}) × View V
  unfolding after_write
  write_or_raise [] items view = (ok tt, after_write OnConflict.raise items view)
  write_or_raise (k ∷ ks) items view = (err (key_error (k ∷ ks)), view)

  unfoldable pub set_many :
      OnConflict → Dict String (Fields V) → View V → Result (Unit {0}) × View V
  unfolding after_write write_or_raise conflict_keys
  set_many OnConflict.raise items view = write_or_raise (conflict_keys view items) items view
  set_many on_conflict items view = (ok tt, after_write on_conflict items view)
