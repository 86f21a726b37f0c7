-- ===== src/Tests/Stores.antt =====
-- The in-memory store, run and instantiated.
use persista.Store.Normalize.{normalize_on_conflict}
use persista.Common.{
  ℕ, pos, false, String, List, [], ◌∷◌, ◌≡◌, refl, ok, err, key_error, nat_beq, concat, value_error,
  text_keys,
}
use persista.Dict
use persista.Dict.{Dict}
use persista.Store.Types.{OnConflict, Fields, Object}
use persista.Store.Batching.{chunks, chunks-IsBatchify, IsBounded}
use persista.Store.InMemory.Iteration
use persista.Store.Base
use persista.Store.Base.{BaseStore, IsStore, Becomes}
use persista.Store.Base.Batches
use persista.Store.Spec
use persista.Store.InMemory
use persista.Store.InMemory.{InMemoryStore}
use persista.Store.InMemory.Contract
use persista.Store.InMemory.Laws
use persista.Store.InMemory.Valid
use persista.Store.InMemory.Valid.{IsValid, Call, run}

-- what the runs below compute with
program : Unit {0}
unfolding InMemory.set normalize_on_conflict Dict.get Dict.update Dict.set
program = tt

-- numbers as field values, 0 for `None`
instance abbrev pub nat_object : Object ℕ
nat_object = record { none_value = 0; equals = nat_beq }

abbrev ann : Fields ℕ
ann = ("age", 30) ∷ []

abbrev bob : Fields ℕ
bob = ("age", 40) ∷ ("level", 2) ∷ []

abbrev two : InMemoryStore ℕ
two = record { entries = ("ann", ann) ∷ ("bob", bob) ∷ []; closed = false }

in_memory-IsStore_example : IsStore (Contract.in_memory {V = ℕ} chunks) Laws.view
in_memory-IsStore_example = Contract.in_memory-IsStore {V = ℕ} chunks

-- "merge" keeps the fields that the new value does not have, and the text of the strategy may have
-- capitals and spaces.
merged :
    InMemory.set "ann" (("level", 1) ∷ []) " Merge" two
    ≡ (ok tt, record two { entries = ("ann", ("age", 30) ∷ ("level", 1) ∷ []) ∷ ("bob", bob) ∷ [] })
unfolding program
merged = refl

refused : InMemory.set "bob" ann "raise" two ≡ (err (key_error ("bob" ∷ [])), two)
unfolding program
refused = refl

skipped : InMemory.set "bob" ann "skip" two ≡ (ok tt, two)
unfolding program
skipped = refl

not_a_strategy : InMemory.set "bob" ann "replace" two ≡ (err value_error, two)
unfolding program
not_a_strategy = refl

abbrev calls : List (Call ℕ)
calls =
    Call.open_store
    ∷ Call.set "ann" ann "overwrite"
    ∷ Call.set_many (("bob", bob) ∷ ("ann", bob) ∷ []) "skip"
    ∷ Call.delete_many ("ann" ∷ [])
    ∷ Call.close
    ∷ []

run-IsValid_example : IsValid (run calls InMemory.init)
run-IsValid_example = Valid.run-IsValid calls InMemory.init Valid.init-IsValid

set_batches-set_many_example :
    Becomes
      (λ (s : InMemoryStore ℕ). s.closed)
      Laws.view
      (Base.set_batches
        (Contract.in_memory chunks)
        chunks
        (("cid", ann) ∷ ("ann", bob) ∷ [])
        (pos 1)
        OnConflict.overwrite
        two)
      (Spec.set_many OnConflict.overwrite
        (Dict.of_pairs (("cid", ann) ∷ ("ann", bob) ∷ []))
        (λ k. Dict.get two.entries k))
set_batches-set_many_example =
    Batches.set_batches-set_many (Contract.in_memory chunks) (Contract.in_memory-IsStore chunks)
      chunks chunks-IsBatchify (("cid", ann) ∷ ("ann", bob) ∷ []) 0 two refl

iter_batches-concat_example :
    (batches : List (Dict String (Fields ℕ))) × (InMemory.iter_batches chunks (pos 1) two
      ≡ (ok batches, two))
    × (concat batches ≡ two.entries)
    × IsBounded 1 batches
unfolding Dict.get
iter_batches-concat_example =
    Iteration.iter_batches-concat two refl chunks chunks-IsBatchify (refl, (refl, tt)) 0
