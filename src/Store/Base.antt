-- ===== src/Store/Base.antt =====
-- `BaseStore` of persista/store/base.py: the operations every backend has, the contract they keep,
-- and the two methods that the base class implements itself.
pub mod Batches
use persista.Common.{
  ℕ, ℤ, Bool, true, false, String, text_keys, Option, none, some, List, [], ◌∷◌, ◌==◌, ◌≡◌, map,
  Result, ok, err, runtime_error, Exec, pure, lift, ◌>>=◌, ◌>>◌, is_some, concat, if◌then◌else◌,
}
use persista.Dict
use persista.Dict.{Dict}
use persista.Store.Types.{OnConflict, Fields}
use persista.Store.Validation.{validate_batch_size}
use persista.Store.Conflicts.{member}
use persista.Store.Spec
use persista.Store.Spec.{View}

-- The abstract methods. `set` and `set_many` are handed the strategy.
pub record BaseStore (V : Type 0) : Type 1 where
  pub State : Type 0
  pub closed : State → Bool
  pub open_store : Exec State (Unit {0})
  pub close : Exec State (Unit {0})
  pub get : String → Exec State (Option (Fields V))
  pub get_many : List String → Exec State (List (Option (Fields V)))
  pub set : String → Fields V → OnConflict → Exec State (Unit {0})
  pub set_many : Dict String (Fields V) → OnConflict → Exec State (Unit {0})
  pub delete : String → Exec State (Unit {0})
  pub delete_many : List String → Exec State (Unit {0})
  pub clear : Exec State (Unit {0})
  pub contains : String → Exec State Bool
  pub contains_many : List String → Exec State (List Bool)
  pub keys : Exec State (List String)
  pub count : Exec State ℕ
  pub iter_batches : ℤ → Exec State (List (Dict String (Fields V)))
  pub filter : Dict String V → Exec State (List (Fields V))

-- A call ended with the result and the view of `spec`, on a store that is still open.
pub record Becomes {S V : Type 0} (closed : S → Bool) (view : S → View V)
    (out : Result (Unit {0}) × S) (spec : Result (Unit {0}) × View V) : Type 0 where
  pub result : out.0 ≡ spec.0
  pub stays_open : closed out.1 ≡ false
  pub shows : (k : String) → view out.1 k ≡ spec.1 k

module _ {V : Type 0} where
  -- the view without some keys
  abbrev pub without : List String → View V → View V
  without ks view k = if member ks k then none else view k

  -- the same, for one key
  abbrev pub without_key : String → View V → View V
  without_key key view k = if key == k then none else view k

-- What a store with durable or in-process contents promises for as long as it is open, and that it
-- raises `RuntimeError` and changes nothing while it is closed.
pub record IsStore {V : Type 0} (b : BaseStore V) (view : b.State → View V) : Type 0 where
  pub opens : (s : b.State) → b.closed (b.open_store s).1 ≡ false
  pub reopens : (s : b.State) → b.closed s ≡ false → b.open_store s ≡ (ok tt, s)
  pub closes : (s : b.State) → b.closed (b.close s).1 ≡ true
  pub reads : (s : b.State) (k : String) → b.closed s ≡ false → b.get k s ≡ (ok (view s k), s)
  pub reads_many :
      (s : b.State) (ks : List String)
      → b.closed s ≡ false
      → b.get_many ks s ≡ (ok (map (view s) ks), s)
  pub finds :
      (s : b.State) (k : String)
      → b.closed s ≡ false
      → b.contains k s ≡ (ok (is_some (view s k)), s)
  pub finds_many :
      (s : b.State) (ks : List String)
      → b.closed s ≡ false
      → b.contains_many ks s ≡ (ok (map (λ k. is_some (view s k)) ks), s)
  pub sets :
      (s : b.State) (k : String) (v : Fields V) (c : OnConflict)
      → b.closed s ≡ false
      → Becomes b.closed view (b.set k v c s) (Spec.set_many c ((k, v) ∷ []) (view s))
  pub sets_many :
      (s : b.State) (items : Dict String (Fields V)) (c : OnConflict)
      → b.closed s ≡ false
      → Dict.IsDistinct items
      → Becomes b.closed view (b.set_many items c s) (Spec.set_many c items (view s))
  pub deletes :
      (s : b.State) (k : String)
      → b.closed s ≡ false
      → Becomes b.closed view (b.delete k s) (ok tt, without_key k (view s))
  pub deletes_many :
      (s : b.State) (ks : List String)
      → b.closed s ≡ false
      → Becomes b.closed view (b.delete_many ks s) (ok tt, without ks (view s))
  pub clears :
      (s : b.State) → b.closed s ≡ false → Becomes b.closed view (b.clear s) (ok tt, λ k. none)
  pub get_closed :
      (s : b.State) (k : String) → b.closed s ≡ true → b.get k s ≡ (err runtime_error, s)
  pub set_closed :
      (s : b.State) (k : String) (v : Fields V) (c : OnConflict)
      → b.closed s ≡ true
      → b.set k v c s ≡ (err runtime_error, s)
  pub delete_closed :
      (s : b.State) (k : String) → b.closed s ≡ true → b.delete k s ≡ (err runtime_error, s)
  pub clear_closed : (s : b.State) → b.closed s ≡ true → b.clear s ≡ (err runtime_error, s)

module _ {V : Type 0} (b : BaseStore V) where
  open b use {State, set_many, iter_batches}

  write_batches : OnConflict → List (List (String × Fields V)) → Exec State (Unit {0})
  write_batches on_conflict [] = pure tt
  write_batches on_conflict (batch ∷ batches) = do
    set_many (Dict.of_pairs batch) on_conflict
    write_batches on_conflict batches

  -- `batchify` is that of coola.utils.batching.
  unfoldable pub set_batches :
      (List (String × Fields V) → ℤ → List (List (String × Fields V)))
      → List (String × Fields V)
      → ℤ
      → OnConflict
      → Exec State (Unit {0})
  unfolding write_batches
  set_batches batchify items batch_size on_conflict = do
    lift (validate_batch_size batch_size)
    write_batches on_conflict (batchify items batch_size)

  -- The values that the generator yields when it is run to its end.
  unfoldable pub values : ℤ → Exec State (List (Fields V))
  values batch_size = do batches ← iter_batches batch_size; pure (concat (map Dict.values batches))
