-- ===== src/Store/Base/Batches.antt =====
-- `set_batches`: writing in mini-batches comes to the same as writing everything at once.
use persista.Store.Spec.{View}
use persista.Common.{
  ℕ, ℤ, pos, suc, false, String, text_keys, List, [], ◌∷◌, ◌≡◌, refl, ok, arith, concat,
}
use persista.Dict
use persista.Dict.{Dict}
use persista.Dict.Laws
use persista.Dict.Order
use persista.Store.Types.{OnConflict, Fields}
use persista.Store.Spec
use persista.Store.Validation.{validate_batch_size}
use persista.Store.Batching.{IsBatchify}
use persista.Store.Base.{BaseStore, IsStore, Becomes, write_batches, set_batches}

module _ {V : Type 0} (b : BaseStore V) {view : b.State → View V} (h : IsStore b view) where
  write_batches-lem :
      (batches : List (List (String × Fields V))) (s : b.State)
      → b.closed s ≡ false
      → Becomes b.closed view
          (write_batches b OnConflict.overwrite batches s)
          (ok tt, Spec.after_write OnConflict.overwrite (Dict.of_pairs (concat batches)) (view s))
  unfolding write_batches Spec.set_many Spec.resolved
  write_batches-lem [] s o =
      unfold Dict.of_pairs Dict.get in record { result = refl; stays_open = o; shows = λ k. refl }
  write_batches-lem (batch ∷ batches) s o =
      let pairs = Dict.of_pairs batch in
      let first = h.sets_many s pairs OnConflict.overwrite o (Laws.of_pairs-IsDistinct batch) in
      let s' = (b.set_many pairs OnConflict.overwrite s).1 in
      let rest = write_batches-lem batches s' first.stays_open in
      rw first.result (record {
        result = rest.result;
        stays_open = rest.stays_open;
        shows = λ k. ground (
          arith,
          rest.shows k,
          first.shows k,
          Order.get-of_pairs-append batch (concat batches) k,
        );
      })

  -- Pairs written in batches of any positive size, "overwrite", leave the store as one `set_many` of
  -- the dict of all pairs does.
  pub set_batches-set_many :
      (batchify : List (String × Fields V) → ℤ → List (List (String × Fields V)))
      (law : IsBatchify batchify) (items : List (String × Fields V)) (n : ℕ) (s : b.State)
      → b.closed s ≡ false
      → Becomes b.closed view
          (set_batches b batchify items (pos (suc n)) OnConflict.overwrite s)
          (Spec.set_many OnConflict.overwrite (Dict.of_pairs items) (view s))
  unfolding set_batches validate_batch_size Spec.set_many
  set_batches-set_many batchify law items n s o =
      rw law.covers at (write_batches-lem (batchify items (pos (suc n))) s o)
