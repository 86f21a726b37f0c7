-- ===== src/Dict/Laws.antt =====
-- What the operations of `Dict` do to a lookup, and that they keep the keys distinct.
use persista.Common.{
  none, some, List, [], ◌∷◌, ◌≡◌, refl, Keys, ◌==◌, arith, if◌then◌else◌, is_some,
}
use persista.Dict.{Dict, get, set, pop, update, of_pairs, IsDistinct}

module _ {ℓ κ} {K : Type ℓ} {V : Type κ} ⦃e : Keys K⦄ where
  pub get-set :
      (d : Dict K V) (k j : K) (v : V) → get (set d k v) j ≡ (if k == j then some v else get d j)
  unfolding get set
  get-set [] k j v = refl
  get-set ((i, w) ∷ d) k j v =
      ground (arith, e.test_iff k j, e.test_iff i k, e.test_iff i j, get-set d k j v)

  pub get-pop : (d : Dict K V) (k j : K) → get (pop d k) j ≡ (if k == j then none else get d j)
  unfolding get pop
  get-pop [] k j = ground arith
  get-pop ((i, w) ∷ d) k j =
      ground (arith, e.test_iff k j, e.test_iff i k, e.test_iff i j, get-pop d k j)

  pub get-update :
      (d u : Dict K V) (j : K)
      → IsDistinct u
      → get (update d u) j ≡ (if is_some (get u j) then get u j else get d j)
  unfolding get update
  get-update d [] j h = refl
  get-update d ((k, v) ∷ u) j h =
      ground (arith, e.test_iff k j, get-update (set d k v) u j h.1, get-set d k j v)

  pub set-IsDistinct : (d : Dict K V) (k : K) (v : V) → IsDistinct d → IsDistinct (set d k v)
  unfolding set get
  set-IsDistinct [] k v h = (refl, tt)
  set-IsDistinct ((i, w) ∷ d) k v h =
      ground (arith, e.test_iff i k, e.test_iff k i, set-IsDistinct d k v h.1, get-set d k i v)

  pub pop-IsDistinct : (d : Dict K V) (k : K) → IsDistinct d → IsDistinct (pop d k)
  unfolding pop get
  pop-IsDistinct [] k h = tt
  pop-IsDistinct ((i, w) ∷ d) k h =
      ground (arith, e.test_iff i k, pop-IsDistinct d k h.1, get-pop d k i)

  pub update-IsDistinct : (d u : Dict K V) → IsDistinct d → IsDistinct (update d u)
  unfolding update
  update-IsDistinct d [] h = h
  update-IsDistinct d ((k, v) ∷ u) h = update-IsDistinct (set d k v) u (set-IsDistinct d k v h)

  pub of_pairs-IsDistinct : (l : List (K × V)) → IsDistinct (of_pairs l)
  unfolding of_pairs
  of_pairs-IsDistinct l = update-IsDistinct [] l tt
