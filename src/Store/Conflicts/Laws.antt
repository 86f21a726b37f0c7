-- ===== src/Store/Conflicts/Laws.antt =====
-- What `resolve_conflicts` computes when the store's `get` and `contains_many` answer from a view
-- and change nothing.
use persista.Common.{
  Bool, true, false, String, text_keys, Option, none, some, List, [], ◌∷◌, ◌==◌, ==_refl, ◌≡◌, ◌≢◌,
  refl, ◌&&◌, map, ok, err, Exec, key_error, is_some, if◌then◌else◌, arith, select,
}
use persista.Dict
use persista.Dict.{Dict}
use persista.Dict.Laws
use persista.Store.Types.{OnConflict, Fields}
use persista.Store.Spec.{View, conflict_keys, after_write}
use persista.Store.Conflicts.{
  is_skip, member, conflicts_of, refuse, or_empty, resolve_item, resolve_items, resolve_conflicts,
}

-- zip of the keys with whether each one is there
pub conflicts_of-select :
    (p : String → Bool) (ks : List String) → conflicts_of ks (map p ks) ≡ ok (select p ks)
unfolding conflicts_of
conflicts_of-select p [] = refl
conflicts_of-select p (k ∷ ks) = ground (arith, conflicts_of-select p ks)

module _ {V : Type 0} where
  -- one round of the loop over `items`, with the view in place of the calls of the store
  written_item :
      OnConflict → View V → String → Fields V → Dict String (Fields V) → Dict String (Fields V)
  written_item c view k v to_write =
      if is_some (view k)
      then if is_skip c then to_write else Dict.set to_write k (Dict.update (or_empty (view k)) v)
      else Dict.set to_write k v

  pub written :
      OnConflict → View V → Dict String (Fields V) → Dict String (Fields V) → Dict String (Fields V)
  unfolding written_item
  written c view [] to_write = to_write
  written c view ((k, v) ∷ items) to_write = written c view items (written_item c view k v to_write)

  -- what the loop leaves at a key, over what it finds there
  pub planned : OnConflict → Option (Fields V) → Fields V → Option (Fields V) → Option (Fields V)
  planned c none new t = some new
  planned OnConflict.skip (some old) new t = t
  planned c (some old) new t = some (Dict.update old new)

  pub member-conflict_keys :
      (view : View V) (items : Dict String (Fields V)) (k : String)
      → member (conflict_keys view items) k ≡ (Dict.contains items k && is_some (view k))
  unfolding member conflict_keys Dict.get
  member-conflict_keys view [] k = refl
  member-conflict_keys view ((j, v) ∷ items) k =
      ground (arith, member-conflict_keys view items k, text_keys.test_iff j k)

  written_item-IsDistinct :
      (c : OnConflict) (view : View V) (k : String) (v : Fields V) (t : Dict String (Fields V))
      → Dict.IsDistinct t
      → Dict.IsDistinct (written_item c view k v t)
  unfolding written_item
  written_item-IsDistinct c view k v t h = ground (
    arith,
    Laws.set-IsDistinct t k (Dict.update (or_empty (view k)) v) h,
    Laws.set-IsDistinct t k v h,
  )

  pub written-IsDistinct :
      (c : OnConflict) (view : View V) (items to_write : Dict String (Fields V))
      → Dict.IsDistinct to_write
      → Dict.IsDistinct (written c view items to_write)
  unfolding written
  written-IsDistinct c view [] to_write h = h
  written-IsDistinct c view ((k, v) ∷ items) to_write h =
      written-IsDistinct c view items _ (written_item-IsDistinct c view k v to_write h)

  get-written_item :
      (c : OnConflict) (view : View V) (k : String) (v : Fields V) (t : Dict String (Fields V))
      (j : String)
      → Dict.get (written_item c view k v t) j
        ≡ (if k == j then planned c (view j) v (Dict.get t j) else Dict.get t j)
  unfolding written_item planned
  get-written_item c view k v t j = ground (
    arith,
    text_keys.test_iff k j,
    Laws.get-set t k j (Dict.update (or_empty (view k)) v),
    Laws.get-set t k j v,
  )

  pub get-written :
      (c : OnConflict) (view : View V) (items to_write : Dict String (Fields V)) (j : String)
      → Dict.IsDistinct items
      → Dict.get (written c view items to_write) j ≡ elim (Dict.get items j) [
        | none ↦ Dict.get to_write j
        | some new ↦ planned c (view j) new (Dict.get to_write j)
      ]
  unfolding written Dict.get
  get-written c view [] to_write j h = refl
  get-written c view ((k, v) ∷ items) to_write j h = ground (
    arith,
    text_keys.test_iff k j,
    get-written c view items (written_item c view k v to_write) j h.1,
    get-written_item c view k v to_write j,
  )

module _ {V : Type 0} (view : View V) (items : Dict String (Fields V)) where
  -- what the refusal of "raise" leaves
  pub no_conflict :
      (j : String)
      → refuse OnConflict.raise (conflict_keys view items) ≡ ok tt
      → (Dict.contains items j && is_some (view j)) ≡ false
  unfolding refuse member
  no_conflict j h = ground (arith, member-conflict_keys view items j)

  -- What is found after the result is written over the view, if "raise" raised nothing.
  pub written-eq-after_write :
      (c : OnConflict) (j : String)
      → c ≢ OnConflict.overwrite
      → refuse c (conflict_keys view items) ≡ ok tt
      → Dict.IsDistinct items
      → (if is_some (Dict.get (written c view items []) j)
          then Dict.get (written c view items []) j
          else view j)
        ≡ after_write c items view j
  unfolding planned after_write Dict.get
  written-eq-after_write OnConflict.overwrite j n h d = absurd (n refl)
  written-eq-after_write OnConflict.raise j n h d =
      ground (arith, get-written OnConflict.raise view items [] j d, no_conflict j h)
  written-eq-after_write c j n h d = ground (arith, get-written c view items [] j d)

-- A `get` that answers from the view, in the state `s`.
module _ {S V : Type 0} (get : String → Exec S (Option (Fields V))) (s : S) (view : View V)
    (reads : (k : String) → get k s ≡ (ok (view k), s)) where
  resolve_item-eq-written_item :
      (c : OnConflict) (conflicts : List String) (k : String) (v : Fields V)
      (to_write : Dict String (Fields V))
      → member conflicts k ≡ is_some (view k)
      → resolve_item get c conflicts (k, v) to_write s ≡ (ok (written_item c view k v to_write), s)
  unfolding resolve_item written_item
  resolve_item-eq-written_item c conflicts k v to_write h = ground (arith, reads k)

  pub resolve_items-eq-written :
      (c : OnConflict) (conflicts : List String) (items to_write : Dict String (Fields V))
      → ((k : String) → Dict.contains items k ≡ true → member conflicts k ≡ is_some (view k))
      → resolve_items get c conflicts items to_write s ≡ (ok (written c view items to_write), s)
  unfolding resolve_items written Dict.get
  resolve_items-eq-written c conflicts [] to_write h = refl
  resolve_items-eq-written c conflicts ((k, v) ∷ items) to_write h =
      let first : member conflicts k ≡ is_some (view k) = h k (ground (arith, ==_refl k)) in
      rw (resolve_item-eq-written_item c conflicts k v to_write first)
        (resolve_items-eq-written c conflicts items _ (λ j e. h j (ground (arith, e))))

  module _ (contains_many : List String → Exec S (List Bool))
      (finds : (ks : List String)
        → contains_many ks s ≡ (ok (map (λ k. is_some (view k)) ks), s)) where
    pub resolve_conflicts-eq-written :
        (c : OnConflict) (items : Dict String (Fields V))
        → refuse c (conflict_keys view items) ≡ ok tt
        → resolve_conflicts get items c contains_many s ≡ (ok (written c view items []), s)
    unfolding resolve_conflicts conflict_keys
    resolve_conflicts-eq-written c items h =
        rw
          (
            finds (Dict.keys items),
            conflicts_of-select (λ k. is_some (view k)) (Dict.keys items),
            h,
          )
          (resolve_items-eq-written c (conflict_keys view items) items []
            (λ k e. ground (arith, member-conflict_keys view items k)))

    pub resolve_conflicts-raises :
        (items : Dict String (Fields V)) {k : String} {ks : List String}
        → conflict_keys view items ≡ k ∷ ks
        → resolve_conflicts get items OnConflict.raise contains_many s
          ≡ (err (key_error (k ∷ ks)), s)
    unfolding resolve_conflicts conflict_keys refuse
    resolve_conflicts-raises items h = ground (
      arith,
      finds (Dict.keys items),
      conflicts_of-select (λ k. is_some (view k)) (Dict.keys items),
    )
