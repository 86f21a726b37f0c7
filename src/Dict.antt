-- ===== src/Dict.antt =====
-- Python's `dict`: an association list in insertion order, over keys with an equality test.
-- Assignment to a present key keeps its place; a new key goes to the end.
pub mod Laws
pub mod Order
pub mod Select
use persista.Common.{
  ℕ, Bool, true, false, Option, none, some, List, [], ◌∷◌, ◌≡◌, map, not, Keys, ◌==◌, ◌&&◌, is_some,
  if◌then◌else◌,
}

abbrev pub Dict {ℓ κ} : Type ℓ → Type κ → Type (ℓ ⊔ κ)
Dict K V = List (K × V)

module _ {ℓ κ} {K : Type ℓ} {V : Type κ} where
  -- d.keys()
  abbrev pub keys : Dict K V → List K
  keys = map (λ e. e.0)

  -- d.values()
  abbrev pub values : Dict K V → List V
  values = map (λ e. e.1)

module _ {ℓ κ} {K : Type ℓ} {V : Type κ} ⦃e : Keys K⦄ where
  -- d.get(k)
  unfoldable pub get : Dict K V → K → Option V
  get [] k = none
  get ((j, v) ∷ d) k = if j == k then some v else get d k

  -- k in d
  abbrev pub contains : Dict K V → K → Bool
  contains d k = is_some (get d k)

  -- d[k] = v
  unfoldable pub set : Dict K V → K → V → Dict K V
  set [] k v = (k, v) ∷ []
  set ((j, w) ∷ d) k v = if j == k then (j, v) ∷ d else (j, w) ∷ set d k v

  -- d.pop(k, None)
  unfoldable pub pop : Dict K V → K → Dict K V
  pop [] k = []
  pop ((j, w) ∷ d) k = let rest = pop d k in if j == k then rest else (j, w) ∷ rest

  -- d.update(e), {**d, **e}
  unfoldable pub update : Dict K V → Dict K V → Dict K V
  update d [] = d
  update d ((k, v) ∷ e) = update (set d k v) e

  -- dict(pairs)
  unfoldable pub of_pairs : List (K × V) → Dict K V
  unfolding update
  of_pairs = update []

  -- No key occurs twice: what holds of every Python `dict`.
  abbrev pub IsDistinct : Dict K V → Type 0
  IsDistinct [] = Unit {0}
  IsDistinct ((k, v) ∷ d) = (contains d k ≡ false) × IsDistinct d
