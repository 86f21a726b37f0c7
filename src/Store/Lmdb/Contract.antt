-- ===== src/Store/Lmdb/Contract.antt =====
-- `BaseLmdbStore` of persista/store/lmdb.py keeps the contract of a store.
use persista.Common.{
  ℤ, true, false, String, text_keys, none, List, [], ◌∷◌, ◌≡◌, refl, ok, err, runtime_error, arith,
}
use persista.Dict
use persista.Dict.{Dict}
use persista.Store.Types.{OnConflict, Fields, Object}
use persista.Store.Normalize.{name, normalize-name}
use persista.Store.Conflicts.{member}
use persista.Store.Spec
use persista.Store.Spec.{View, conflict_keys}
use persista.Store.Base.{BaseStore, IsStore, Becomes, without, without_key}
use persista.Store.Writes.{nothing-Becomes}
use persista.Store.Lmdb
use persista.Store.Lmdb.{LmdbStore, Environment, IsEnvironment, Coding, conflicts_in}
use persista.Store.Lmdb.Reads
use persista.Store.Lmdb.Reads.{
  IsCoding, closed, is_some-view, conflicts_in-eq-conflict_keys, get_open, get_many_open,
  contains_open, contains_many_open,
}
use persista.Store.Lmdb.Transaction.{set_resolved-Becomes}

module _ {B V : Type 0} ⦃o : Object V⦄ (env : Environment B) (coding : Coding B V)
    (batchify : List String → ℤ → List (List String)) where
  -- the class, as a store
  abbrev pub lmdb : BaseStore V
  lmdb = record {
    State = LmdbStore env.Db;
    closed = λ s. s.closed;
    open_store = Lmdb.open_store env coding;
    close = Lmdb.close env coding;
    get = Lmdb.get env coding;
    get_many = Lmdb.get_many env coding;
    set = λ k v c. Lmdb.set env coding k v (name c);
    set_many = λ items c. Lmdb.set_many env coding items (name c);
    delete = Lmdb.delete env coding;
    delete_many = Lmdb.delete_many env coding;
    clear = Lmdb.clear env coding;
    contains = Lmdb.contains env coding;
    contains_many = Lmdb.contains_many env coding;
    keys = Lmdb.keys env coding;
    count = Lmdb.count env coding;
    iter_batches = Lmdb.iter_batches env coding batchify;
    filter = Lmdb.filter env coding batchify;
  }

module _ {B V : Type 0} (env : Environment B) (coding : Coding B V) {value_of : B → Fields V}
    (codec : IsCoding coding value_of) where
  abbrev view_of : env.Db → View V
  view_of = Reads.view_of env coding codec

  abbrev view : LmdbStore env.Db → View V
  view = Reads.view env coding codec

  module _ (laws : IsEnvironment env) where
    set_many_open :
        (s : LmdbStore env.Db) (items : Dict String (Fields V)) (c : OnConflict)
        → s.closed ≡ false
        → Dict.IsDistinct items
        → Becomes
            (closed env coding codec)
            view
            (Lmdb.set_many env coding items (name c) s)
            (Spec.set_many c items (view s))
    unfolding Lmdb.set_many
    set_many_open s [] c h d =
        let q : Lmdb.check_open env coding s ≡ (ok tt, s) = ground arith in
        rw q (nothing-Becomes s c h)
    set_many_open s (item ∷ items) c h d =
        let q : Lmdb.set_many env coding (item ∷ items) (name c) s
            ≡ Lmdb.set_resolved env coding (item ∷ items) c s =
          ground (arith, normalize-name c) in
        rw q (set_resolved-Becomes env coding codec laws s (item ∷ items) c h d)

    set_open :
        (s : LmdbStore env.Db) (k : String) (v : Fields V) (c : OnConflict)
        → s.closed ≡ false
        → Becomes
            (closed env coding codec)
            view
            (Lmdb.set env coding k v (name c) s)
            (Spec.set_many c ((k, v) ∷ []) (view s))
    unfolding Lmdb.set Dict.get
    set_open s k v c h = set_many_open s ((k, v) ∷ []) c h (refl, tt)

    delete_open :
        (s : LmdbStore env.Db) (k : String)
        → s.closed ≡ false
        → Becomes
            (closed env coding codec)
            view
            (Lmdb.delete env coding k s)
            (ok tt, without_key k (view s))
    unfolding Lmdb.delete
    delete_open s k h =
        let q : Lmdb.delete env coding k s ≡ (ok tt, record s { db = env.delete s.db k }) =
          ground arith in
        rw q (record {
          result = refl;
          stays_open = h;
          shows = λ j. ground (arith, laws.get_delete s.db k j);
        })

    view-delete_all :
        (d : env.Db) (ks : List String) (j : String)
        → view_of (Lmdb.delete_all env coding ks d) j ≡ without ks (view_of d) j
    unfolding Lmdb.delete_all member
    view-delete_all d [] j = refl
    view-delete_all d (k ∷ ks) j =
        ground (arith, view-delete_all (env.delete d k) ks j, laws.get_delete d k j)

    delete_many_open :
        (s : LmdbStore env.Db) (ks : List String)
        → s.closed ≡ false
        → Becomes
            (closed env coding codec)
            view
            (Lmdb.delete_many env coding ks s)
            (ok tt, without ks (view s))
    unfolding Lmdb.delete_many member
    delete_many_open s [] h =
        let q : Lmdb.check_open env coding s ≡ (ok tt, s) = ground arith in
        rw q (record { result = refl; stays_open = h; shows = λ j. refl })
    delete_many_open s (k ∷ ks) h =
        let q : Lmdb.delete_many env coding (k ∷ ks) s
            ≡ (ok tt, record s { db = Lmdb.delete_all env coding (k ∷ ks) s.db }) =
          ground arith in
        rw q
          (record { result = refl; stays_open = h; shows = λ j. view-delete_all s.db (k ∷ ks) j })

    clear_open :
        (s : LmdbStore env.Db)
        → s.closed ≡ false
        → Becomes (closed env coding codec) view (Lmdb.clear env coding s) (ok tt, λ k. none)
    unfolding Lmdb.clear
    clear_open s h =
        let q : Lmdb.clear env coding s ≡ (ok tt, record s { db = env.drop s.db }) = ground arith in
        rw q (record {
          result = refl;
          stays_open = h;
          shows = λ j. ground (arith, laws.get_drop s.db j);
        })

  get_closed :
      (s : LmdbStore env.Db) (k : String)
      → s.closed ≡ true
      → Lmdb.get env coding k s ≡ (err runtime_error, s)
  unfolding Lmdb.get
  get_closed s k h = ground arith

  set_closed :
      (s : LmdbStore env.Db) (k : String) (v : Fields V) (c : OnConflict)
      → s.closed ≡ true
      → Lmdb.set env coding k v (name c) s ≡ (err runtime_error, s)
  unfolding Lmdb.set
  set_closed s k v c h = ground arith

  delete_closed :
      (s : LmdbStore env.Db) (k : String)
      → s.closed ≡ true
      → Lmdb.delete env coding k s ≡ (err runtime_error, s)
  unfolding Lmdb.delete
  delete_closed s k h = ground arith

  clear_closed :
      (s : LmdbStore env.Db) → s.closed ≡ true → Lmdb.clear env coding s ≡ (err runtime_error, s)
  unfolding Lmdb.clear
  clear_closed s h = ground arith

  open_store_open :
      (s : LmdbStore env.Db) → s.closed ≡ false → Lmdb.open_store env coding s ≡ (ok tt, s)
  unfolding Lmdb.open_store
  open_store_open s h = ground arith

module _ {B V : Type 0} ⦃o : Object V⦄ (env : Environment B) (coding : Coding B V)
    (batchify : List String → ℤ → List (List String)) {value_of : B → Fields V}
    (codec : IsCoding coding value_of) (laws : IsEnvironment env) where
  -- If every stored text decodes, and what is encoded decodes to itself, the LMDB store keeps the
  -- contract of a store, with the decoded values as the view.
  pub lmdb-IsStore : IsStore (lmdb env coding batchify) (Reads.view env coding codec)
  unfolding Lmdb.open_store Lmdb.close
  lmdb-IsStore = record {
    opens = λ s. refl;
    reopens = open_store_open env coding codec;
    closes = λ s. refl;
    reads = get_open env coding codec;
    reads_many = get_many_open env coding codec;
    finds = contains_open env coding codec;
    finds_many = contains_many_open env coding codec;
    sets = set_open env coding codec laws;
    sets_many = set_many_open env coding codec laws;
    deletes = delete_open env coding codec laws;
    deletes_many = delete_many_open env coding codec laws;
    clears = clear_open env coding codec laws;
    get_closed = get_closed env coding codec;
    set_closed = set_closed env coding codec;
    delete_closed = delete_closed env coding codec;
    clear_closed = clear_closed env coding codec;
  }
