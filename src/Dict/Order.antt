-- ===== src/Dict/Order.antt =====
-- The order of a `Dict`: a key that is not there yet goes to the end, so writing distinct pairs to an
-- empty dict gives them back in their order.
use persista.Dict.Laws.{get-set}
use mathlib.Core.List.{append-nil, append_assoc}
use persista.Common.{
  false, List, [], ◌∷◌, ◌++◌, map, ◌≡◌, refl, sym, arith, if◌then◌else◌, Keys, concat,
}
use persista.Dict.{Dict, get, set, update, of_pairs, IsDistinct, contains}

module _ {ℓ κ} {K : Type ℓ} {V : Type κ} ⦃e : Keys K⦄ where
  pub get-append :
      (d u : Dict K V) (j : K) → get (d ++ u) j ≡ (if contains d j then get d j else get u j)
  unfolding get
  get-append [] u j = refl
  get-append ((i, w) ∷ d) u j = ground (arith, get-append d u j)

  absent_of_IsDistinct :
      (d u : Dict K V) (k : K) (v : V) → IsDistinct (d ++ ((k, v) ∷ u)) → contains d k ≡ false
  unfolding get
  absent_of_IsDistinct [] u k v h = refl
  absent_of_IsDistinct ((i, w) ∷ d) u k v h = ground (
    arith,
    absent_of_IsDistinct d u k v h.1,
    get-append d ((k, v) ∷ u) i,
    e.test_iff i k,
    e.test_iff k i,
  )

  set_absent :
      (d : Dict K V) (k : K) (v : V) → contains d k ≡ false → set d k v ≡ d ++ ((k, v) ∷ [])
  unfolding set get
  set_absent [] k v h = refl
  set_absent ((i, w) ∷ d) k v h = ground (arith, set_absent d k v)

  pub update-append : (d u : Dict K V) → IsDistinct (d ++ u) → update d u ≡ d ++ u
  unfolding update
  update-append d [] h = sym (append-nil d)
  update-append d ((k, v) ∷ u) h =
      rw (set_absent d k v (absent_of_IsDistinct d u k v h))
        (rw (update-append (d ++ ((k, v) ∷ [])) u (rw append_assoc h), append_assoc))

  -- `dict` of pairs with distinct keys keeps them as they are
  pub of_pairs_distinct : (l : Dict K V) → IsDistinct l → of_pairs l ≡ l
  unfolding of_pairs
  of_pairs_distinct l h = update-append [] l h

  pub IsDistinct-left : (d u : Dict K V) → IsDistinct (d ++ u) → IsDistinct d
  IsDistinct-left [] u h = tt
  IsDistinct-left ((k, v) ∷ d) u h = (ground (arith, get-append d u k), IsDistinct-left d u h.1)

  IsDistinct-right : (d u : Dict K V) → IsDistinct (d ++ u) → IsDistinct u
  IsDistinct-right [] u h = h
  IsDistinct-right ((k, v) ∷ d) u h = IsDistinct-right d u h.1

  -- so does `dict` of each batch of such pairs
  pub map-of_pairs :
      (batches : List (List (K × V))) → IsDistinct (concat batches) → map of_pairs batches ≡ batches
  map-of_pairs [] h = refl
  map-of_pairs (b ∷ bs) h = cc (
    of_pairs_distinct b (IsDistinct-left b (concat bs) h),
    map-of_pairs bs (IsDistinct-right b (concat bs) h),
  )

  pub update-append_right : (d u w : Dict K V) → update d (u ++ w) ≡ update (update d u) w
  unfolding update
  update-append_right d [] w = refl
  update-append_right d ((k, v) ∷ u) w = update-append_right (set d k v) u w

  -- an update by pairs, distinct or not, is an update by the dict of them
  pub get-update-pairs :
      (d u : Dict K V) (j : K)
      → get (update d u) j ≡ (if contains (of_pairs u) j then get (of_pairs u) j else get d j)
  unfolding update get set of_pairs
  get-update-pairs d [] j = refl
  get-update-pairs d ((k, v) ∷ u) j = ground (
    arith,
    get-update-pairs (set d k v) u j,
    get-update-pairs ((k, v) ∷ []) u j,
    get-set d k j v,
    e.test_iff k j,
  )

  -- writing one list of pairs after another
  pub get-of_pairs-append :
      (u w : List (K × V)) (j : K)
      → get (of_pairs (u ++ w)) j
        ≡ (if contains (of_pairs w) j then get (of_pairs w) j else get (of_pairs u) j)
  unfolding of_pairs
  get-of_pairs-append u w j = rw (update-append_right [] u w) (get-update-pairs (update [] u) w j)
