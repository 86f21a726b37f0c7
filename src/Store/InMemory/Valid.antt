-- ===== src/Store/InMemory/Valid.antt =====
-- What every in-memory store that a program can build satisfies.
use persista.Common.{
  Bool, true, false, String, text_keys, List, [], ◌∷◌, ◌≡◌, refl, Result, ok, err, arith,
  runtime_error, Bool-cases, inl, inr,
}
use persista.Dict
use persista.Dict.{Dict}
use persista.Dict.Laws
use persista.Store.Types.{OnConflict, Fields}
use persista.Store.Normalize.{normalize_on_conflict}
use persista.Store.InMemory
use persista.Store.InMemory.{InMemoryStore, write, set_resolved, data_get, contains_many}
use persista.Store.InMemory.Laws.{view, contains_many_open}
use persista.Store.Spec
use persista.Store.Conflicts.Laws as Conflicts
use persista.Store.Conflicts.{refuse, resolve_conflicts}

-- No key occurs twice, and a closed store is empty.
pub record IsValid {V : Type 0} (s : InMemoryStore V) : Type 0 where
  pub distinct : Dict.IsDistinct s.entries
  pub empty : s.closed ≡ true → s.entries ≡ []

-- The calls that change a store. The items of `set_many` are a dict of these pairs.
pub data Call (V : Type 0) : Type 0 where
  open_store close clear : Call V
  set : String → Fields V → String → Call V
  set_many : List (String × Fields V) → String → Call V
  delete : String → Call V
  delete_many : List String → Call V

module _ {V : Type 0} where
  -- the state that a call leaves, whether it returned or raised
  pub call : Call V → InMemoryStore V → InMemoryStore V
  call Call.open_store s = (InMemory.open_store s).1
  call Call.close s = (InMemory.close s).1
  call Call.clear s = (InMemory.clear s).1
  call (Call.set key value c) s = (InMemory.set key value c s).1
  call (Call.set_many items c) s = (InMemory.set_many (Dict.of_pairs items) c s).1
  call (Call.delete key) s = (InMemory.delete key s).1
  call (Call.delete_many keys) s = (InMemory.delete_many keys s).1

  pub run : List (Call V) → InMemoryStore V → InMemoryStore V
  unfolding call
  run [] s = s
  run (c ∷ calls) s = run calls (call c s)

  open_store-IsValid : (s : InMemoryStore V) → IsValid s → IsValid (InMemory.open_store s).1
  unfolding InMemory.open_store
  open_store-IsValid s h = ground arith

  clear-IsValid : (s : InMemoryStore V) → IsValid s → IsValid (InMemory.clear s).1
  unfolding InMemory.clear
  clear-IsValid s h = ground arith

  delete-IsValid : (s : InMemoryStore V) (k : String) → IsValid s → IsValid (InMemory.delete k s).1
  unfolding InMemory.delete
  delete-IsValid s k h = ground (arith, Laws.pop-IsDistinct s.entries k h.distinct)

  write-IsValid :
      (s : InMemoryStore V) (items : Dict String (Fields V))
      → s.closed ≡ false
      → IsValid s
      → IsValid (write items s).1
  unfolding write
  write-IsValid s items o h = record {
    distinct = Laws.update-IsDistinct s.entries items h.distinct;
    empty = λ c. cc;
  }

  resolve_open :
      (s : InMemoryStore V) (items : Dict String (Fields V)) (c : OnConflict)
      → s.closed ≡ false
      → refuse c (Spec.conflict_keys (view s) items) ≡ ok tt
      → resolve_conflicts data_get items c contains_many s
        ≡ (ok (Conflicts.written c (view s) items []), s)
  resolve_open s items c o r =
      Conflicts.resolve_conflicts-eq-written data_get s (view s) (λ k. refl) contains_many
        (λ ks. contains_many_open s ks o) c items r

  set_raise-IsValid :
      (s : InMemoryStore V) (items : Dict String (Fields V)) (ks : List String)
      → Spec.conflict_keys (view s) items ≡ ks
      → s.closed ≡ false
      → IsValid s
      → IsValid (set_resolved items OnConflict.raise s).1
  unfolding set_resolved refuse
  set_raise-IsValid s items [] e o h =
      rw (resolve_open s items OnConflict.raise o (rw e)) (write-IsValid s _ o h)
  set_raise-IsValid s items (k ∷ ks) e o h =
      rw
        (Conflicts.resolve_conflicts-raises data_get s (view s) (λ k'. refl) contains_many
          (λ ks'. contains_many_open s ks' o) items e)
        h

  set_resolved-IsValid :
      (s : InMemoryStore V) (items : Dict String (Fields V)) (c : OnConflict)
      → s.closed ≡ false
      → IsValid s
      → IsValid (set_resolved items c s).1
  unfolding set_resolved refuse
  set_resolved-IsValid s items OnConflict.overwrite o h = write-IsValid s items o h
  set_resolved-IsValid s items OnConflict.raise o h = set_raise-IsValid s items _ refl o h
  set_resolved-IsValid s items OnConflict.skip o h =
      rw (resolve_open s items OnConflict.skip o (ground arith)) (write-IsValid s _ o h)
  set_resolved-IsValid s items OnConflict.merge o h =
      rw (resolve_open s items OnConflict.merge o (ground arith)) (write-IsValid s _ o h)

  set_many-IsValid :
      (s : InMemoryStore V) (items : Dict String (Fields V)) (c : String)
      → IsValid s
      → IsValid (InMemory.set_many items c s).1
  unfolding InMemory.set_many
  set_many-IsValid s items c h = go s.closed refl (normalize_on_conflict c) refl
    where
      go :
          (closed : Bool)
          → s.closed ≡ closed
          → (r : Result OnConflict) → normalize_on_conflict c ≡ r
          → IsValid (InMemory.set_many items c s).1
      go true e r n =
          let q : InMemory.set_many items c s ≡ (err runtime_error, s) = ground arith in rw q h
      go false e (ok strategy) n =
          let q : InMemory.set_many items c s ≡ set_resolved items strategy s = ground arith in
          rw q (set_resolved-IsValid s items strategy e h)
      go false e (err x) n =
          let q : InMemory.set_many items c s ≡ (err x, s) = ground arith in rw q h

  delete_many-IsValid :
      (s : InMemoryStore V) (ks : List String) → IsValid s → IsValid (InMemory.delete_many ks s).1
  unfolding InMemory.delete_many
  delete_many-IsValid s [] h = h
  delete_many-IsValid s (k ∷ ks) h = elim (Bool-cases s.closed) [
    | inl shut ↦
        let q : InMemory.delete_many (k ∷ ks) s ≡ (err runtime_error, s) = ground arith in rw q h
    | inr left ↦
        let s' = (InMemory.delete k s).1 in
        let q : InMemory.delete_many (k ∷ ks) s ≡ InMemory.delete_many ks s' = ground arith in
        rw q (delete_many-IsValid s' ks (delete-IsValid s k h))
  ]

  call-IsValid : (c : Call V) (s : InMemoryStore V) → IsValid s → IsValid (call c s)
  unfolding call
  call-IsValid Call.open_store s h = open_store-IsValid s h
  call-IsValid Call.close s h = unfold InMemory.close in record { distinct = tt; empty = λ _. refl }
  call-IsValid Call.clear s h = clear-IsValid s h
  call-IsValid (Call.set key value c) s h =
      unfold InMemory.set in set_many-IsValid s ((key, value) ∷ []) c h
  call-IsValid (Call.set_many items c) s h = set_many-IsValid s (Dict.of_pairs items) c h
  call-IsValid (Call.delete key) s h = delete-IsValid s key h
  call-IsValid (Call.delete_many keys) s h = delete_many-IsValid s keys h

  -- Any calls, valid or not, leave a valid store a valid store.
  pub run-IsValid :
      (calls : List (Call V)) (s : InMemoryStore V) → IsValid s → IsValid (run calls s)
  unfolding run
  run-IsValid [] s h = h
  run-IsValid (c ∷ calls) s h = run-IsValid calls (call c s) (call-IsValid c s h)

  pub init-IsValid : IsValid (InMemory.init {V = V})
  init-IsValid = record { distinct = tt; empty = λ _. refl }
