-- ===== src/Store/InMemory/Contract.antt =====
-- `InMemoryStore` as an instance of the interface of stores, with its contract.
use persista.Common.{true, String, ◌∷◌, [], ◌≡◌, refl, err, runtime_error, arith, false, ok}
use persista.Dict
use persista.Store.Types.{OnConflict, Fields, Object}
use persista.Store.Normalize.{name}
use persista.Store.Spec
use persista.Store.Base.{BaseStore, IsStore, Becomes}
use persista.Store.InMemory.{InMemoryStore, Batchify, set_many, set, delete, clear, get}
use persista.Store.InMemory
use persista.Store.InMemory.Laws

module _ {V : Type 0} where
  pub get_closed :
      (s : InMemoryStore V) (k : String) → s.closed ≡ true → get k s ≡ (err runtime_error, s)
  unfolding get
  get_closed s k h = ground arith

  pub set_closed :
      (s : InMemoryStore V) (k : String) (v : Fields V) (c : String)
      → s.closed ≡ true
      → set k v c s ≡ (err runtime_error, s)
  unfolding set
  set_closed s k v c h = ground arith

  pub delete_closed :
      (s : InMemoryStore V) (k : String) → s.closed ≡ true → delete k s ≡ (err runtime_error, s)
  unfolding delete
  delete_closed s k h = ground arith

  pub clear_closed : (s : InMemoryStore V) → s.closed ≡ true → clear s ≡ (err runtime_error, s)
  unfolding clear
  clear_closed s h = ground arith

  pub set_open :
      (s : InMemoryStore V) (k : String) (v : Fields V) (c : OnConflict)
      → s.closed ≡ false
      → Becomes Laws.closed Laws.view
          (set k v (name c) s)
          (Spec.set_many c ((k, v) ∷ []) (Laws.view s))
  unfolding set Dict.get
  set_open s k v c h = Laws.set_many_open s ((k, v) ∷ []) c h (refl, tt)

module _ {V : Type 0} ⦃o : Object V⦄ (batchify : Batchify V) where
  abbrev pub in_memory : BaseStore V
  in_memory = record {
    State = InMemoryStore V;
    closed = λ s. s.closed;
    open_store = InMemory.open_store;
    close = InMemory.close;
    get = InMemory.get;
    get_many = InMemory.get_many;
    set = λ k v c. InMemory.set k v (name c);
    set_many = λ items c. InMemory.set_many items (name c);
    delete = InMemory.delete;
    delete_many = InMemory.delete_many;
    clear = InMemory.clear;
    contains = InMemory.contains;
    contains_many = InMemory.contains_many;
    keys = InMemory.keys;
    count = InMemory.count;
    iter_batches = InMemory.iter_batches batchify;
    filter = InMemory.filter;
  }

  open_store_closed : (s : InMemoryStore V) → (InMemory.open_store s).1.closed ≡ false
  unfolding InMemory.open_store
  open_store_closed s = ground arith

  open_store_open : (s : InMemoryStore V) → s.closed ≡ false → InMemory.open_store s ≡ (ok tt, s)
  unfolding InMemory.open_store
  open_store_open s h = ground arith

  close_closed : (s : InMemoryStore V) → (InMemory.close s).1.closed ≡ true
  unfolding InMemory.close
  close_closed s = refl

  -- The in-memory store keeps the contract of a store, with its dict as the view.
  pub in_memory-IsStore : IsStore in_memory Laws.view
  in_memory-IsStore = record {
    opens = open_store_closed;
    reopens = open_store_open;
    closes = close_closed;
    reads = Laws.get_open;
    reads_many = Laws.get_many_open;
    finds = Laws.contains_open;
    finds_many = Laws.contains_many_open;
    sets = set_open;
    sets_many = Laws.set_many_open;
    deletes = Laws.delete_open;
    deletes_many = Laws.delete_many_open;
    clears = Laws.clear_open;
    get_closed = get_closed;
    set_closed = λ s k v c. set_closed s k v (name c);
    delete_closed = delete_closed;
    clear_closed = clear_closed;
  }
