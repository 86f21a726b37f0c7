-- ===== src/Store/Redis/Plans.antt =====
-- That `resolve_conflicts`, as persista/store/redis.py calls it, never plans to write the reserved key.
use persista.Common.{
  Bool, false, String, text_keys, Option, List, [], ◌∷◌, ◌==◌, ◌≡◌, refl, Result, ok, err, Exec,
  arith,
}
use persista.Common.Actions.{continue}
use persista.Dict
use persista.Dict.{Dict}
use persista.Dict.Laws
use persista.Store.Types.{OnConflict, Fields}
use persista.Store.Conflicts.{
  member, or_empty, conflicts_of, refuse, resolve_item, resolve_items, resolve_conflicts,
}
use persista.Store.Redis.{keys_set}

-- What is planned never has the reserved key, if the items do not have it.
module _ {S V : Type 0} (get : String → Exec S (Option (Fields V))) (s : S)
    (read : String → Result (Option (Fields V)))
    (reads : (k : String) → get k s ≡ (read k, s)) where
  -- the outcome of an action that leaves the state
  unfoldable pub IsPlan : Result (Dict String (Fields V)) × S → Type 0
  IsPlan out =
      (out.1 ≡ s) × ((w : Dict String (Fields V)) → out.0 ≡ ok w → Dict.contains w keys_set ≡ false)

  resolve_item-IsPlan :
      (c : OnConflict) (conflicts : List String) (k : String) (v : Fields V)
      (t : Dict String (Fields V)) (x : Result (Option (Fields V)))
      → read k ≡ x
      → (k == keys_set) ≡ false
      → Dict.contains t keys_set ≡ false
      → IsPlan (resolve_item get c conflicts (k, v) t s)
  unfolding IsPlan resolve_item
  resolve_item-IsPlan c conflicts k v t (err e) q n h =
      (ground (arith, reads k), λ w p. ground (arith, reads k, Laws.get-set t k keys_set v))
  resolve_item-IsPlan c conflicts k v t (ok old) q n h = (
    ground (arith, reads k),
    λ w p. ground (
      arith,
      reads k,
      Laws.get-set t k keys_set v,
      Laws.get-set t k keys_set (Dict.update (or_empty old) v),
    ),
  )

  items_step :
      (c : OnConflict) (conflicts : List String) (k : String) (v : Fields V)
      (items t : Dict String (Fields V)) (out : Result (Dict String (Fields V)) × S)
      → resolve_item get c conflicts (k, v) t s ≡ out
      → IsPlan out
      → ((w : Dict String (Fields V))
          → Dict.contains w keys_set ≡ false
          → IsPlan (resolve_items get c conflicts items w s))
      → IsPlan (resolve_items get c conflicts ((k, v) ∷ items) t s)
  unfolding IsPlan resolve_items
  items_step c conflicts k v items t (err e, s') q p rest = rw q p
  items_step c conflicts k v items t (ok w, s') q p rest = rw (q, p.0) (rest w (p.1 w refl))

  resolve_items-IsPlan :
      (c : OnConflict) (conflicts : List String) (items t : Dict String (Fields V))
      → member (Dict.keys items) keys_set ≡ false
      → Dict.contains t keys_set ≡ false
      → IsPlan (resolve_items get c conflicts items t s)
  unfolding IsPlan resolve_items member
  resolve_items-IsPlan c conflicts [] t m h = (refl, λ w p. ground arith)
  resolve_items-IsPlan c conflicts ((k, v) ∷ items) t m h =
      items_step c conflicts k v items t _ refl
        (resolve_item-IsPlan c conflicts k v t (read k) refl (ground arith) h)
        (λ w a. resolve_items-IsPlan c conflicts items w (ground arith) a)

  module _ (contains_many : List String → Exec S (List Bool))
      (found : List String → Result (List Bool))
      (finds : (ks : List String) → contains_many ks s ≡ (found ks, s)) where
    resolve_found-IsPlan :
        (c : OnConflict) (items : Dict String (Fields V)) (x : Result (List Bool))
        → found (Dict.keys items) ≡ x
        → member (Dict.keys items) keys_set ≡ false
        → IsPlan (resolve_conflicts get items c contains_many s)
    unfolding IsPlan resolve_conflicts Dict.get
    resolve_found-IsPlan c items (err e) q m =
        (ground (arith, finds (Dict.keys items)), λ w p. ground (arith, finds (Dict.keys items)))
    resolve_found-IsPlan c items (ok flags) q m =
        rw (finds (Dict.keys items), q) (flags_lem (conflicts_of (Dict.keys items) flags))
      where
        refused_lem :
            (conflicts : List String) (r : Result (Unit {0}))
            → IsPlan (continue r s (λ _. resolve_items get c conflicts items []))
        refused_lem conflicts (err e) = (refl, λ w p. cc)
        refused_lem conflicts (ok _) = resolve_items-IsPlan c conflicts items [] m refl

        flags_lem :
            (r : Result (List String))
            → IsPlan (
                continue r s (λ conflicts s'.
                  continue (refuse c conflicts) s' (λ _. resolve_items get c conflicts items [])))
        flags_lem (err e) = (refl, λ w p. cc)
        flags_lem (ok conflicts) = refused_lem conflicts (refuse c conflicts)

    pub resolve_conflicts-IsPlan :
        (c : OnConflict) (items : Dict String (Fields V))
        → member (Dict.keys items) keys_set ≡ false
        → IsPlan (resolve_conflicts get items c contains_many s)
    resolve_conflicts-IsPlan c items m =
        resolve_found-IsPlan c items (found (Dict.keys items)) refl m
