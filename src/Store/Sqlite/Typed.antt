-- ===== src/Store/Sqlite/Typed.antt =====
-- What `TypedSQLiteStore` of persista/store/sqlite.py gives back of a value that it has stored, with
-- its schema and without.
use persista.Common.{
  ℕ, true, false, String, text_keys, none, some, List, [], ◌∷◌, ◌≡◌, refl, ok, err, ◌&&◌, Error,
  if◌then◌else◌, arith, ◌∙◌, ap,
}
use persista.Dict
use persista.Dict.{Dict}
use persista.Store.Normalize.{normalize-name}
use persista.Store.Types.{OnConflict, Fields, Object}
use persista.Store.Engine.{Engine, IsEngine}
use persista.Store.TypedRows.{Cells, kept_row, add_extra}
use persista.Store.TypedRows.RoundTrip.{
  IsJson, Fits, kept_row-Fits, is_none_at, row_to_value-value_to_row, reopened_row,
}
use persista.Store.Sqlite
use persista.Store.Sqlite.{SqliteStore, Layout, rows_of, value_of_row}
use persista.Store.Sqlite.Stores.{typed_layout}

module _ {R V : Type 0} (e : Engine R V) (layout : Layout R V) {limit : ℕ}
    (laws : IsEngine limit e) where
  set_overwrites :
      (s : SqliteStore e.Db) (key : String) (value : Fields V)
      → s.closed ≡ false
      → Sqlite.set e layout key value "overwrite" s
        ≡ (ok tt, record s { db = e.replace s.db ((key, layout.to_row value) ∷ []) })
  unfolding Sqlite.set
  set_overwrites s key value h = ground (arith, normalize-name OnConflict.overwrite)

  fetch_written :
      (d : e.Db) (key : String) (row : R) → e.fetch (e.replace d ((key, row) ∷ [])) key ≡ some row
  unfolding Dict.get
  fetch_written d key row =
      ground
        (arith, laws.fetch_replace d ((key, row) ∷ []) key (refl, tt), text_keys.test_iff key key)

  get_open :
      (s : SqliteStore e.Db) (key : String) (row : R)
      → s.closed ≡ false
      → e.fetch s.db key ≡ some row
      → Sqlite.get e layout key s ≡ (value_of_row e layout (some row), s)
  unfolding Sqlite.get
  get_open s key row h q = ground arith

  read_written :
      (s : SqliteStore e.Db) (key : String) (row : R)
      → s.closed ≡ false
      → let s' : SqliteStore e.Db = record s { db = e.replace s.db ((key, row) ∷ []) } in
        Sqlite.get e layout key s' ≡ (value_of_row e layout (some row), s')
  read_written s key row h = get_open _ key row h (fetch_written s.db key row)

module _ {V : Type 0} ⦃o : Object V⦄ (e : Engine (List V) V) (c : Cells V) where
  -- what `set` with "overwrite" leaves
  abbrev pub after_set :
      Dict String String → String → Fields V → SqliteStore e.Db → SqliteStore e.Db
  after_set schema key value s = (Sqlite.set e (typed_layout c schema) key value "overwrite" s).1

module _ {V : Type 0} ⦃o : Object V⦄ (e : Engine (List V) V) (c : Cells V) {limit : ℕ}
    (laws : IsEngine limit e) where
  after_set_open :
      (schema : Dict String String) (key : String) (value : Fields V) (s : SqliteStore e.Db)
      → s.closed ≡ false
      → after_set e c schema key value s
        ≡ record s { db = e.replace s.db ((key, kept_row c schema value) ∷ []) }
  after_set_open schema key value s h =
      ap (λ x. x.1) (set_overwrites e (typed_layout c schema) laws s key value h)

  get-set :
      (reader schema : Dict String String) (key : String) (value : Fields V) (s : SqliteStore e.Db)
      → s.closed ≡ false
      → (Sqlite.get e (typed_layout c reader) key (after_set e c schema key value s)).0
        ≡ value_of_row e (typed_layout c reader) (some (kept_row c schema value))
  get-set reader schema key value s h = rw (after_set_open schema key value s h) (
      ap (λ x. x.0) (read_written e (typed_layout c reader) laws s key (kept_row c schema value) h))

  -- After a value whose declared fields fit their columns is set with "overwrite" in an open store
  -- with a schema, `get` under the same schema returns a value that has every field of the one set,
  -- but for the declared fields that are None, and no other field. JSON is taken to read back what it
  -- wrote.
  pub get-set_typed :
      IsJson c
      → (schema : Dict String String) (key : String) (value : Fields V) (s : SqliteStore e.Db)
      → s.closed ≡ false
      → Dict.IsDistinct schema
      → Dict.IsDistinct value
      → Fits c schema value
      → (value' : Fields V) × ((Sqlite.get e
            (typed_layout c schema)
            key
            (after_set e c schema key value s)).0
          ≡ ok (some value'))
        × ((k : String)
            → Dict.get value' k ≡ (
                if Dict.contains schema k && is_none_at c (Dict.get value k)
                then none
                else Dict.get value k))
  unfolding value_of_row
  get-set_typed json schema key value s h hs hv fits =
      let row = row_to_value-value_to_row c json schema value hs hv in
      (
        row.0,
        get-set schema schema key value s h
            ∙ ground (arith, row.1, kept_row-Fits c schema value fits),
        row.2,
      )

  -- A store over the same table with the empty schema, such as `from_uri` builds, takes the first
  -- declared column for the overflow: after a value is set in an open store, its `get` raises the
  -- error of `json.loads` where that column's cell, as it is kept, is true and no JSON text.
  pub get-set_reopened :
      (name dtype : String) (schema : Dict String String) (key : String) (value : Fields V)
      (cell : V) (error : Error) (s : SqliteStore e.Db)
      → s.closed ≡ false
      → Dict.get value name ≡ some cell
      → c.truthy (c.column dtype cell) ≡ true
      → c.loads (c.column dtype cell) ≡ err error
      → (Sqlite.get e
          (typed_layout c [])
          key
          (after_set e c ((name, dtype) ∷ schema) key value s)).0
        ≡ err error
  unfolding value_of_row add_extra
  get-set_reopened name dtype schema key value cell error s h q t l =
      get-set [] ((name, dtype) ∷ schema) key value s h
      ∙ ground (arith, reopened_row c ((name, dtype) ∷ schema) value)
