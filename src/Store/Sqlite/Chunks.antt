-- ===== src/Store/Sqlite/Chunks.antt =====
-- The chunks of persista/store/sqlite.py, which keep each statement within the limit of parameters.
use persista.Common.{
  ℕ, zero, suc, ◌≤◌, List, [], ◌∷◌, ◌≡◌, refl, concat, length, drop, length-take, length-drop,
  take-append-drop, arith,
}
use persista.Store.Batching.{IsBounded}
use persista.Store.Sqlite.{chunk_from, chunk}

module _ {A : Type 0} (size : ℕ) where
  chunk_from-concat :
      (rounds : ℕ) (items : List A)
      → length items ≤ rounds
      → concat (chunk_from rounds (suc size) items) ≡ items
  unfolding chunk_from
  chunk_from-concat rounds [] h = refl
  chunk_from-concat zero (x ∷ items) h = absurd (omega arith)
  chunk_from-concat (suc rounds) (x ∷ items) h =
      rw
        (
          chunk_from-concat rounds (drop size items) (omega (arith, length-drop size items)),
          take-append-drop size items,
        )
        refl

  chunk_from-IsBounded :
      (rounds : ℕ) (items : List A) → IsBounded (suc size) (chunk_from rounds (suc size) items)
  unfolding chunk_from
  chunk_from-IsBounded rounds [] = tt
  chunk_from-IsBounded zero (x ∷ items) = tt
  chunk_from-IsBounded (suc rounds) (x ∷ items) =
      (omega (arith, length-take size items), chunk_from-IsBounded rounds (drop size items))

  -- The chunks of a list, put together, are the list, and none has more items than the size.
  pub chunk-IsBounded :
      (items : List A)
      → (concat (chunk items (suc size)) ≡ items) × IsBounded (suc size) (chunk items (suc size))
  unfolding chunk
  chunk-IsBounded items = (
    chunk_from-concat (length items) items (omega arith),
    chunk_from-IsBounded (length items) items,
  )
