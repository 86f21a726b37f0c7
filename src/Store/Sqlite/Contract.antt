-- ===== src/Store/Sqlite/Contract.antt =====
-- `BaseSQLiteStore` of persista/store/sqlite.py keeps the contract of a store.
use persista.Common.{
  Bool, true, false, String, text_keys, none, List, [], ◌∷◌, map, ◌≡◌, ◌≢◌, refl, ok, err,
  runtime_error, is_some, arith,
}
use persista.Dict
use persista.Dict.{Dict}
use persista.Store.Types.{OnConflict, Fields}
use persista.Store.Normalize.{name, normalize-name}
use persista.Store.Conflicts.{member}
use persista.Store.Spec
use persista.Store.Spec.{View}
use persista.Store.Base.{BaseStore, IsStore, Becomes, without, without_key}
use persista.Store.Writes.{IsWriter, set_resolved-Becomes, nothing-Becomes}
use persista.Store.Writes
use persista.Store.Engine.{Engine, IsEngine, Created}
use persista.Store.Sqlite
use persista.Store.Sqlite.{SqliteStore, Layout, max_sql_variables, chunk}
use persista.Store.Sqlite.Chunks.{chunk-IsBounded}
use persista.Store.Sqlite.Rows.{
  IsCodec, decoded, collect-lem, member-existing_in, decoded-delete_chunks, map-agree,
  fetch-replace-rows_of, value_of_row-decoded,
}

module _ {R V : Type 0} (e : Engine R V) (layout : Layout R V) where
  -- the class, as a store
  abbrev pub sqlite : BaseStore V
  sqlite = record {
    State = SqliteStore e.Db;
    closed = λ s. s.closed;
    open_store = Sqlite.open_store e layout;
    close = Sqlite.close e layout;
    get = Sqlite.get e layout;
    get_many = Sqlite.get_many e layout;
    set = λ k v c. Sqlite.set e layout k v (name c);
    set_many = λ items c. Sqlite.set_many e layout items (name c);
    delete = Sqlite.delete e layout;
    delete_many = Sqlite.delete_many e layout;
    clear = Sqlite.clear e layout;
    contains = Sqlite.contains e layout;
    contains_many = Sqlite.contains_many e layout;
    keys = Sqlite.keys e layout;
    count = Sqlite.count e layout;
    iter_batches = Sqlite.iter_batches e layout;
    filter = Sqlite.filter e layout;
  }

  abbrev pub closed : SqliteStore e.Db → Bool
  closed s = s.closed

  pub check_open_open :
      (s : SqliteStore e.Db) → s.closed ≡ false → Sqlite.check_open e layout s ≡ (ok tt, s)
  unfolding Sqlite.check_open
  check_open_open s h = ground arith

  open_store_open :
      (s : SqliteStore e.Db) → s.closed ≡ false → Sqlite.open_store e layout s ≡ (ok tt, s)
  unfolding Sqlite.open_store
  open_store_open s h = ground arith

  open_store_closed :
      (s : SqliteStore e.Db)
      → e.create_table (e.connect s.db) ≢ Created.failed
      → (Sqlite.open_store e layout s).1.closed ≡ false
  unfolding Sqlite.open_store
  open_store_closed s n = ground arith

  pub close_closed : (s : SqliteStore e.Db) → (Sqlite.close e layout s).1.closed ≡ true
  unfolding Sqlite.close
  close_closed s = refl

  pub get_closed :
      (s : SqliteStore e.Db) (k : String)
      → s.closed ≡ true
      → Sqlite.get e layout k s ≡ (err runtime_error, s)
  unfolding Sqlite.get
  get_closed s k h = ground arith

  set_closed :
      (s : SqliteStore e.Db) (k : String) (v : Fields V) (c : OnConflict)
      → s.closed ≡ true
      → Sqlite.set e layout k v (name c) s ≡ (err runtime_error, s)
  unfolding Sqlite.set
  set_closed s k v c h = ground arith

  pub delete_closed :
      (s : SqliteStore e.Db) (k : String)
      → s.closed ≡ true
      → Sqlite.delete e layout k s ≡ (err runtime_error, s)
  unfolding Sqlite.delete
  delete_closed s k h = ground arith

  pub clear_closed :
      (s : SqliteStore e.Db) → s.closed ≡ true → Sqlite.clear e layout s ≡ (err runtime_error, s)
  unfolding Sqlite.clear
  clear_closed s h = ground arith

  module _ {decode : R → Fields V} (codec : IsCodec layout decode)
      (laws : IsEngine max_sql_variables e) where
    abbrev pub view : SqliteStore e.Db → View V
    view s k = decoded decode (e.fetch s.db k)

    pub get_open :
        (s : SqliteStore e.Db) (k : String)
        → s.closed ≡ false
        → Sqlite.get e layout k s ≡ (ok (view s k), s)
    unfolding Sqlite.get
    get_open s k h = ground (arith, value_of_row-decoded e layout codec (e.fetch s.db k))

    get_many_open :
        (s : SqliteStore e.Db) (ks : List String)
        → s.closed ≡ false
        → Sqlite.get_many e layout ks s ≡ (ok (map (view s) ks), s)
    unfolding Sqlite.get_many Dict.get
    get_many_open s [] h = ground arith
    get_many_open s (k ∷ ks) h =
        let (covers, bounded) = chunk-IsBounded 899 (k ∷ ks) in
        let (found, c, g) =
          collect-lem e layout codec laws s.db (chunk (k ∷ ks) max_sql_variables) [] bounded in
        let agree : map (Dict.get found) (k ∷ ks) ≡ map (view s) (k ∷ ks) =
          map-agree (Dict.get found) (view s) (k ∷ ks) (λ j m. ground (arith, g j, covers, m)) in
        ground (arith, c, agree)

    pub contains_open :
        (s : SqliteStore e.Db) (k : String)
        → s.closed ≡ false
        → Sqlite.contains e layout k s ≡ (ok (is_some (view s k)), s)
    unfolding Sqlite.contains
    contains_open s k h = ground arith

    contains_many_open :
        (s : SqliteStore e.Db) (ks : List String)
        → s.closed ≡ false
        → Sqlite.contains_many e layout ks s ≡ (ok (map (λ k. is_some (view s k)) ks), s)
    unfolding Sqlite.contains_many member
    contains_many_open s [] h = ground arith
    contains_many_open s (k ∷ ks) h =
        let chunks = chunk (k ∷ ks) max_sql_variables in
        let (covers, bounded) = chunk-IsBounded 899 (k ∷ ks) in
        let agree : map (member (Sqlite.existing_in e layout s.db chunks [])) (k ∷ ks)
            ≡ map (λ j. is_some (view s j)) (k ∷ ks) =
          map-agree (member (Sqlite.existing_in e layout s.db chunks [])) (λ j. is_some (view s j))
            (k ∷ ks)
            (λ j m. ground (
              arith,
              member-existing_in e layout codec laws s.db chunks [] j bounded,
              covers,
              m,
            )) in
        ground (arith, agree)

    write_open :
        (s : SqliteStore e.Db) (items : Dict String (Fields V))
        → s.closed ≡ false
        → Dict.IsDistinct items
        → Becomes closed view
            (Sqlite.write_rows e layout items s)
            (ok tt, Spec.after_write OnConflict.overwrite items (view s))
    unfolding Sqlite.write_rows Spec.after_write Spec.resolved Dict.get
    write_open s [] h d = record { result = refl; stays_open = h; shows = λ j. refl }
    write_open s (item ∷ items) h d = record {
      result = refl;
      stays_open = h;
      shows = λ j. fetch-replace-rows_of e layout codec laws s.db (item ∷ items) j d;
    }

    sqlite-IsWriter :
        IsWriter closed view
          (Sqlite.get e layout)
          (Sqlite.contains_many e layout)
          (Sqlite.write_rows e layout)
    sqlite-IsWriter = record { reads = get_open; finds = contains_many_open; writes = write_open }

    set_many_open :
        (s : SqliteStore e.Db) (items : Dict String (Fields V)) (c : OnConflict)
        → s.closed ≡ false
        → Dict.IsDistinct items
        → Becomes closed view
            (Sqlite.set_many e layout items (name c) s)
            (Spec.set_many c items (view s))
    unfolding Sqlite.set_many
    set_many_open s [] c h d =
        let q : Sqlite.check_open e layout s ≡ (ok tt, s) = check_open_open s h in
        rw q (nothing-Becomes s c h)
    set_many_open s (item ∷ items) c h d =
        let q : Sqlite.set_many e layout (item ∷ items) (name c) s
            ≡ Writes.set_resolved (Sqlite.get e layout) (Sqlite.contains_many e layout)
                (Sqlite.write_rows e layout) (item ∷ items) c s =
          ground (arith, normalize-name c) in
        rw q (set_resolved-Becomes sqlite-IsWriter s h (item ∷ items) d c)

    set_open :
        (s : SqliteStore e.Db) (k : String) (v : Fields V) (c : OnConflict)
        → s.closed ≡ false
        → Becomes closed view
            (Sqlite.set e layout k v (name c) s)
            (Spec.set_many c ((k, v) ∷ []) (view s))
    unfolding Sqlite.set Dict.get
    set_open s k v c h = set_many_open s ((k, v) ∷ []) c h (refl, tt)

    pub delete_open :
        (s : SqliteStore e.Db) (k : String)
        → s.closed ≡ false
        → Becomes closed view (Sqlite.delete e layout k s) (ok tt, without_key k (view s))
    unfolding Sqlite.delete
    delete_open s k h =
        let q : Sqlite.delete e layout k s ≡ (ok tt, record s { db = e.delete s.db k }) =
          ground arith in
        rw q (record {
          result = refl;
          stays_open = h;
          shows = λ j. ground (arith, laws.fetch_delete s.db k j);
        })

    delete_many_open :
        (s : SqliteStore e.Db) (ks : List String)
        → s.closed ≡ false
        → Becomes closed view (Sqlite.delete_many e layout ks s) (ok tt, without ks (view s))
    unfolding Sqlite.delete_many member
    delete_many_open s [] h =
        rw (check_open_open s h) (record { result = refl; stays_open = h; shows = λ j. refl })
    delete_many_open s (k ∷ ks) h =
        let chunks = chunk (k ∷ ks) max_sql_variables in
        let (covers, bounded) = chunk-IsBounded 899 (k ∷ ks) in
        let q : Sqlite.delete_many e layout (k ∷ ks) s
            ≡ (ok tt, record s { db = Sqlite.delete_chunks e layout chunks s.db }) =
          ground arith in
        rw q (record {
          result = refl;
          stays_open = h;
          shows =
              λ j. decoded-delete_chunks e layout codec laws chunks (k ∷ ks) s.db j covers bounded;
        })

    pub clear_open :
        (s : SqliteStore e.Db)
        → s.closed ≡ false
        → Becomes closed view (Sqlite.clear e layout s) (ok tt, λ k. none)
    unfolding Sqlite.clear
    clear_open s h =
        let q : Sqlite.clear e layout s ≡ (ok tt, record s { db = e.delete_all s.db }) =
          ground arith in
        rw q (record {
          result = refl;
          stays_open = h;
          shows = λ j. ground (arith, laws.fetch_delete_all s.db j);
        })

    -- If the table can be created wherever the database is connected, the database serves statements
    -- with up to 900 parameters, every row reads as a value, and each row that a subclass writes reads
    -- as the value it was made of, the SQLite store keeps the contract of a store, with the decoded
    -- rows as the view.
    pub sqlite-IsStore :
        ((d : e.Db) → e.create_table (e.connect d) ≢ Created.failed) → IsStore sqlite view
    sqlite-IsStore creates = record {
      opens = λ s. open_store_closed s (creates s.db);
      reopens = open_store_open;
      closes = close_closed;
      reads = get_open;
      reads_many = get_many_open;
      finds = contains_open;
      finds_many = contains_many_open;
      sets = set_open;
      sets_many = set_many_open;
      deletes = delete_open;
      deletes_many = delete_many_open;
      clears = clear_open;
      get_closed = get_closed;
      set_closed = set_closed;
      delete_closed = delete_closed;
      clear_closed = clear_closed;
    }
