-- ===== src/Store/Duckdb/Contract.antt =====
-- `BaseDuckDBStore` of persista/store/duckdb.py keeps the contract of a store; what its `open` leaves
-- when the table cannot be created.
use persista.Common.{
  ℕ, Bool, true, false, String, text_keys, List, [], ◌∷◌, map, ◌≡◌, refl, length, ok, err,
  runtime_error, operational_error, is_some, arith, ◌≤◌, none,
}
use persista.Dict
use persista.Dict.{Dict}
use persista.Dict.Order
use persista.Store.Types.{OnConflict, Fields}
use persista.Store.Normalize.{name, normalize-name}
use persista.Store.Conflicts.{member}
use persista.Store.Conflicts.Members.{member-keys}
use persista.Store.Spec
use persista.Store.Spec.{View}
use persista.Store.Base.{BaseStore, IsStore, Becomes, without, without_key}
use persista.Store.Writes.{IsWriter, set_resolved-Becomes, nothing-Becomes}
use persista.Store.Writes
use persista.Store.Engine.{Engine, IsEngine, Created}
use persista.Store.Sqlite.{Layout, rows_of}
use persista.Store.Sqlite
use persista.Store.Sqlite.Contract as Shared
use persista.Store.Sqlite.Rows.{
  IsCodec, decoded, map-agree, fetch-replace-rows_of, decode_rows, values_of_rows-decode,
  get-decode_rows, decode_rows-IsDistinct, decoded_if,
}
use persista.Store.Duckdb
use persista.Store.Duckdb.{DuckdbStore}

module _ {R V : Type 0} (e : Engine R V) (layout : Layout R V) where
  -- the class, as a store that is not read-only
  abbrev pub duckdb : BaseStore V
  duckdb = record {
    State = DuckdbStore e.Db;
    closed = λ s. s.closed;
    open_store = Duckdb.open_store e layout false;
    close = Duckdb.close e layout false;
    get = Duckdb.get e layout false;
    get_many = Duckdb.get_many e layout false;
    set = λ k v c. Duckdb.set e layout false k v (name c);
    set_many = λ items c. Duckdb.set_many e layout false items (name c);
    delete = Duckdb.delete e layout false;
    delete_many = Duckdb.delete_many e layout false;
    clear = Duckdb.clear e layout false;
    contains = Duckdb.contains e layout false;
    contains_many = Duckdb.contains_many e layout false;
    keys = Duckdb.keys e layout false;
    count = Duckdb.count e layout false;
    iter_batches = Duckdb.iter_batches e layout false;
    filter = Duckdb.filter e layout false;
  }

  abbrev closed : DuckdbStore e.Db → Bool
  closed s = s.closed

  open_store_open :
      (s : DuckdbStore e.Db) → s.closed ≡ false → Duckdb.open_store e layout false s ≡ (ok tt, s)
  unfolding Duckdb.open_store
  open_store_open s h = ground arith

  open_store_created :
      (s : DuckdbStore e.Db) {d : e.Db}
      → e.create_table (e.connect s.db) ≡ Created.created d
      → (Duckdb.open_store e layout false s).1.closed ≡ false
  unfolding Duckdb.open_store Duckdb.ensure_schema
  open_store_created s c = ground (arith, c)

  -- If the table cannot be created, open of a closed store raises, and the store counts as open: the
  -- next open returns at once, without another try to create the table.
  pub open_store_failed :
      (s : DuckdbStore e.Db)
      → s.closed ≡ true
      → e.create_table (e.connect s.db) ≡ Created.failed
      → (s' : DuckdbStore e.Db) × (Duckdb.open_store e layout false s ≡ (err operational_error, s'))
        × (s'.closed ≡ false)
        × (Duckdb.open_store e layout false s' ≡ (ok tt, s'))
  unfolding Duckdb.open_store
  open_store_failed s h f =
      (record { closed = false; db = e.connect s.db }, ground arith, refl, refl)

  set_closed :
      (s : DuckdbStore e.Db) (k : String) (v : Fields V) (c : OnConflict)
      → s.closed ≡ true
      → Duckdb.set e layout false k v (name c) s ≡ (err runtime_error, s)
  unfolding Duckdb.set
  set_closed s k v c h = ground arith

  get_closed :
      (s : DuckdbStore e.Db) (k : String)
      → s.closed ≡ true
      → Duckdb.get e layout false k s ≡ (err runtime_error, s)
  unfolding Duckdb.get
  get_closed s k h = ground arith

  delete_closed :
      (s : DuckdbStore e.Db) (k : String)
      → s.closed ≡ true
      → Duckdb.delete e layout false k s ≡ (err runtime_error, s)
  unfolding Duckdb.delete
  delete_closed s k h = ground arith

  clear_closed :
      (s : DuckdbStore e.Db)
      → s.closed ≡ true
      → Duckdb.clear e layout false s ≡ (err runtime_error, s)
  unfolding Duckdb.clear
  clear_closed s h = ground arith

  module _ {decode : R → Fields V} (codec : IsCodec layout decode)
      (laws : (limit : ℕ) → IsEngine limit e) (present : (d : e.Db) → e.has_table d ≡ true) where
    abbrev pub view : DuckdbStore e.Db → View V
    view s k = decoded decode (e.fetch s.db k)

    get_many_open :
        (s : DuckdbStore e.Db) (ks : List String)
        → s.closed ≡ false
        → Duckdb.get_many e layout false ks s ≡ (ok (map (view s) ks), s)
    unfolding Duckdb.get_many
    get_many_open s [] h = ground arith
    get_many_open s (k ∷ ks) h =
        let there = present s.db in
        let rows = e.fetch_in s.db (k ∷ ks) in
        let fits : length (k ∷ ks) ≤ length (k ∷ ks) = omega arith in
        let distinct = (laws (length (k ∷ ks))).rows_in_IsDistinct s.db (k ∷ ks) fits in
        let agree : map (Dict.get (Dict.of_pairs (decode_rows e layout codec rows))) (k ∷ ks)
            ≡ map (view s) (k ∷ ks) =
          map-agree (Dict.get (Dict.of_pairs (decode_rows e layout codec rows))) (view s) (k ∷ ks)
            (λ j m. ground (
              arith,
              Order.of_pairs_distinct (decode_rows e layout codec rows)
                  (decode_rows-IsDistinct e layout codec rows distinct),
              get-decode_rows e layout codec rows j,
              (laws (length (k ∷ ks))).get_row_in s.db (k ∷ ks) j fits,
              m,
            )) in
        ground (arith, there, values_of_rows-decode e layout codec rows, agree)

    contains_many_open :
        (s : DuckdbStore e.Db) (ks : List String)
        → s.closed ≡ false
        → Duckdb.contains_many e layout false ks s ≡ (ok (map (λ k. is_some (view s k)) ks), s)
    unfolding Duckdb.contains_many member
    contains_many_open s [] h = ground arith
    contains_many_open s (k ∷ ks) h =
        let rows = e.fetch_in s.db (k ∷ ks) in
        let fits : length (k ∷ ks) ≤ length (k ∷ ks) = omega arith in
        let agree : map (member (Dict.keys rows)) (k ∷ ks)
            ≡ map (λ j. is_some (view s j)) (k ∷ ks) =
          map-agree (member (Dict.keys rows)) (λ j. is_some (view s j)) (k ∷ ks)
            (λ j m. ground (
              arith,
              member-keys rows j,
              (laws (length (k ∷ ks))).get_row_in s.db (k ∷ ks) j fits,
              m,
            )) in
        ground (arith, present s.db, agree)

    write_open :
        (s : DuckdbStore e.Db) (items : Dict String (Fields V))
        → s.closed ≡ false
        → Dict.IsDistinct items
        → Becomes closed view
            (Duckdb.write_rows e layout false items s)
            (ok tt, Spec.after_write OnConflict.overwrite items (view s))
    unfolding Duckdb.write_rows Spec.after_write Spec.resolved Dict.get
    write_open s [] h d = record { result = refl; stays_open = h; shows = λ j. refl }
    write_open s (item ∷ items) h d =
        let q : Duckdb.write_rows e layout false (item ∷ items) s
            ≡ (ok tt, record s { db = e.replace s.db (rows_of e layout (item ∷ items)) }) =
          ground (arith, present s.db) in
        rw q (record {
          result = refl;
          stays_open = h;
          shows = λ j. fetch-replace-rows_of e layout codec (laws 0) s.db (item ∷ items) j d;
        })

    get_open :
        (s : DuckdbStore e.Db) (k : String)
        → s.closed ≡ false
        → Duckdb.get e layout false k s ≡ (ok (view s k), s)
    unfolding Duckdb.get
    get_open s k h =
        ground (
          arith,
          present s.db,
          Shared.get_open e layout codec (laws Sqlite.max_sql_variables) s k h,
        )

    contains_open :
        (s : DuckdbStore e.Db) (k : String)
        → s.closed ≡ false
        → Duckdb.contains e layout false k s ≡ (ok (is_some (view s k)), s)
    unfolding Duckdb.contains
    contains_open s k h = ground (
      arith,
      present s.db,
      Shared.contains_open e layout codec (laws Sqlite.max_sql_variables) s k h,
    )

    duckdb-IsWriter :
        IsWriter closed view
          (Duckdb.get e layout false)
          (Duckdb.contains_many e layout false)
          (Duckdb.write_rows e layout false)
    duckdb-IsWriter = record { reads = get_open; finds = contains_many_open; writes = write_open }

    set_many_open :
        (s : DuckdbStore e.Db) (items : Dict String (Fields V)) (c : OnConflict)
        → s.closed ≡ false
        → Dict.IsDistinct items
        → Becomes closed view
            (Duckdb.set_many e layout false items (name c) s)
            (Spec.set_many c items (view s))
    unfolding Duckdb.set_many
    set_many_open s [] c h d =
        let q : Sqlite.check_open e layout s ≡ (ok tt, s) = Shared.check_open_open e layout s h in
        rw q (nothing-Becomes s c h)
    set_many_open s (item ∷ items) c h d =
        let q : Duckdb.set_many e layout false (item ∷ items) (name c) s
            ≡ Writes.set_resolved (Duckdb.get e layout false) (Duckdb.contains_many e layout false)
                (Duckdb.write_rows e layout false) (item ∷ items) c s =
          ground (arith, normalize-name c) in
        rw q (set_resolved-Becomes duckdb-IsWriter s h (item ∷ items) d c)

    set_open :
        (s : DuckdbStore e.Db) (k : String) (v : Fields V) (c : OnConflict)
        → s.closed ≡ false
        → Becomes closed view
            (Duckdb.set e layout false k v (name c) s)
            (Spec.set_many c ((k, v) ∷ []) (view s))
    unfolding Duckdb.set Dict.get
    set_open s k v c h = set_many_open s ((k, v) ∷ []) c h (refl, tt)

    delete_many_open :
        (s : DuckdbStore e.Db) (ks : List String)
        → s.closed ≡ false
        → Becomes closed view (Duckdb.delete_many e layout false ks s) (ok tt, without ks (view s))
    unfolding Duckdb.delete_many member
    delete_many_open s [] h =
        rw (Shared.check_open_open e layout s h)
          (record { result = refl; stays_open = h; shows = λ j. refl })
    delete_many_open s (k ∷ ks) h =
        let q : Duckdb.delete_many e layout false (k ∷ ks) s
            ≡ (ok tt, record s { db = e.delete_in s.db (k ∷ ks) }) =
          ground (arith, present s.db) in
        let fits : length (k ∷ ks) ≤ length (k ∷ ks) = omega arith in
        rw q (record {
          result = refl;
          stays_open = h;
          shows = λ j.
              rw ((laws (length (k ∷ ks))).fetch_delete_in s.db (k ∷ ks) j fits)
                (decoded_if e layout codec (member (k ∷ ks) j) (e.fetch s.db j));
        })

    delete_open :
        (s : DuckdbStore e.Db) (k : String)
        → s.closed ≡ false
        → Becomes closed view (Duckdb.delete e layout false k s) (ok tt, without_key k (view s))
    unfolding Duckdb.delete
    delete_open s k h =
        let q : Duckdb.delete e layout false k s ≡ Sqlite.delete e layout k s =
          ground (arith, present s.db) in
        rw q (Shared.delete_open e layout codec (laws Sqlite.max_sql_variables) s k h)

    clear_open :
        (s : DuckdbStore e.Db)
        → s.closed ≡ false
        → Becomes closed view (Duckdb.clear e layout false s) (ok tt, λ k. none)
    unfolding Duckdb.clear
    clear_open s h =
        let q : Duckdb.clear e layout false s ≡ Sqlite.clear e layout s =
          ground (arith, present s.db) in
        rw q (Shared.clear_open e layout codec (laws Sqlite.max_sql_variables) s h)

    -- If the table is there in the databases, and can be created wherever one is connected, every row
    -- reads as a value, and each row that a subclass writes as the value it was made of, the DuckDB
    -- store that is not read-only keeps the contract of a store, with the decoded rows as the view.
    pub duckdb-IsStore :
        ((d : e.Db) → (d' : e.Db) × (e.create_table (e.connect d) ≡ Created.created d'))
        → IsStore duckdb view
    unfolding Duckdb.close
    duckdb-IsStore creates = record {
      opens = λ s. open_store_created s (creates s.db).1;
      reopens = open_store_open;
      closes = Shared.close_closed e layout;
      reads = get_open;
      reads_many = get_many_open;
      finds = contains_open;
      finds_many = contains_many_open;
      sets = set_open;
      sets_many = set_many_open;
      deletes = delete_open;
      deletes_many = delete_many_open;
      clears = clear_open;
      get_closed = get_closed;
      set_closed = set_closed;
      delete_closed = delete_closed;
      clear_closed = clear_closed;
    }
