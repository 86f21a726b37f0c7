-- ===== src/Store/Duckdb.antt =====
-- `BaseDuckDBStore` of persista/store/duckdb.py, over the database of Store/Engine, and its two
-- subclasses by what they override. A method that has the same text as in persista/store/sqlite.py is
-- the definition of Store/Sqlite, once its table is known to be there, which it need not be after an
-- `open` that failed; the others do without chunks, and `open` differs.
pub mod Contract
use persista.Common.{
  ℕ, ℤ, Bool, true, false, String, text_keys, Option, none, some, List, [], ◌∷◌, map, Result, ok,
  err, operational_error, Exec, pure, lift, ◌>>=◌, ◌>>◌, if◌then◌else◌, length,
}
use persista.Dict
use persista.Dict.{Dict}
use persista.Store.Types.{OnConflict, Fields, Object}
use persista.Store.Names.{validate_field_name}
use persista.Store.Normalize.{normalize_on_conflict}
use persista.Store.Validation.{validate_batch_size}
use persista.Store.Conflicts.{member}
use persista.Store.Writes
use persista.Store.Engine.{Engine, Expr, Created}
use persista.Store.TypedRows
use persista.Store.TypedRows.{Cells, typed_filter_expr}
use persista.Store.Sqlite
use persista.Store.Sqlite.{
  SqliteStore, Layout, check_open, values_of_rows, rows_of, build_filter_where,
}

-- the state: `_closed`, and the database behind the connection
abbrev pub DuckdbStore : Type 0 → Type 0
DuckdbStore = SqliteStore

-- DuckDBStore._filter_expr
unfoldable pub json_filter_expr : String → Result Expr
unfolding validate_field_name
json_filter_expr key = elim (validate_field_name key) [
  | err error ↦ err error
  | ok _ ↦ ok (Expr.json_extract "value" key)
]

-- DuckDBStore: a row is its key and one cell.
abbrev pub json_layout : {V : Type 0} → Cells V → Layout V V
json_layout c = record {
  to_row = c.dumps;
  row_to_value = c.loads;
  filter_expr = json_filter_expr;
  is_none = c.is_none;
}

-- TypedDuckDBStore, with the schema that its constructor has checked
abbrev pub typed_layout :
    {V : Type 0} ⦃o : Object V⦄ → Cells V → Dict String String → Layout (List V) V
typed_layout c schema = record {
  to_row = TypedRows.kept_row c schema;
  row_to_value = TypedRows.row_to_value c schema;
  filter_expr = typed_filter_expr schema;
  is_none = c.is_none;
}

module _ {R V : Type 0} (e : Engine R V) (layout : Layout R V) (read_only : Bool) where
  open e use {Db, connect, create_table, fetch_in, fetch_all, fetch_where}

  -- _check_open, and what a statement does first: it raises where its table is not there.
  unfoldable pub check_table : Exec (DuckdbStore Db) (Unit {0})
  unfolding check_open
  check_table = do
    check_open e layout
    λ s. if e.has_table s.db then (ok tt, s) else (err operational_error, s)

  -- _ensure_schema: any failure of the statement is raised.
  unfoldable pub ensure_schema : Exec (DuckdbStore Db) (Unit {0})
  ensure_schema s = if read_only then (ok tt, s) else elim (create_table s.db) [
    | Created.created d ↦ (ok tt, record s { db = d })
    | Created.read_only ↦ (err operational_error, s)
    | Created.failed ↦ (err operational_error, s)
  ]

  -- open: the store counts as open from the connection on.
  unfoldable pub open_store : Exec (DuckdbStore Db) (Unit {0})
  unfolding ensure_schema
  open_store s =
      if s.closed then ensure_schema (record { closed = false; db = connect s.db }) else (ok tt, s)

  unfoldable pub close : Exec (DuckdbStore Db) (Unit {0})
  unfolding Sqlite.close
  close = Sqlite.close e layout

  unfoldable pub get : String → Exec (DuckdbStore Db) (Option (Fields V))
  unfolding check_table Sqlite.get
  get key = do check_table; Sqlite.get e layout key

  unfoldable pub get_many : List String → Exec (DuckdbStore Db) (List (Option (Fields V)))
  unfolding check_open check_table values_of_rows
  get_many [] = do check_open e layout; pure []
  get_many (key ∷ keys) = do
    check_table
    values ← λ s. (values_of_rows e layout (fetch_in s.db (key ∷ keys)), s)
    pure (map (Dict.get (Dict.of_pairs values)) (key ∷ keys))

  unfoldable pub contains : String → Exec (DuckdbStore Db) Bool
  unfolding check_table Sqlite.contains
  contains key = do check_table; Sqlite.contains e layout key

  unfoldable pub contains_many : List String → Exec (DuckdbStore Db) (List Bool)
  unfolding check_open check_table member
  contains_many [] = do check_open e layout; pure []
  contains_many (key ∷ keys) = do
    check_table
    λ s. (ok (map (member (Dict.keys (fetch_in s.db (key ∷ keys)))) (key ∷ keys)), s)

  -- _set_many
  unfoldable pub write_rows : Dict String (Fields V) → Exec (DuckdbStore Db) (Unit {0})
  write_rows [] s = (ok tt, s)
  write_rows (item ∷ items) s =
      if e.has_table s.db
      then (ok tt, record s { db = e.replace s.db (rows_of e layout (item ∷ items)) })
      else (err operational_error, s)

  unfoldable pub set_many : Dict String (Fields V) → String → Exec (DuckdbStore Db) (Unit {0})
  unfolding check_open Writes.set_resolved get contains_many write_rows normalize_on_conflict
  set_many [] on_conflict = check_open e layout
  set_many (item ∷ items) on_conflict = do
    check_open e layout
    strategy ← lift (normalize_on_conflict on_conflict)
    Writes.set_resolved get contains_many write_rows (item ∷ items) strategy

  unfoldable pub set : String → Fields V → String → Exec (DuckdbStore Db) (Unit {0})
  unfolding set_many
  set key value on_conflict = set_many ((key, value) ∷ []) on_conflict

  unfoldable pub delete : String → Exec (DuckdbStore Db) (Unit {0})
  unfolding check_table Sqlite.delete
  delete key = do check_table; Sqlite.delete e layout key

  unfoldable pub delete_many : List String → Exec (DuckdbStore Db) (Unit {0})
  unfolding check_open check_table
  delete_many [] = check_open e layout
  delete_many (key ∷ keys) = do
    check_table
    λ s. (ok tt, record s { db = e.delete_in s.db (key ∷ keys) })

  unfoldable pub clear : Exec (DuckdbStore Db) (Unit {0})
  unfolding check_table Sqlite.clear
  clear = do check_table; Sqlite.clear e layout

  unfoldable pub keys : Exec (DuckdbStore Db) (List String)
  unfolding check_table Sqlite.keys
  keys = do check_table; Sqlite.keys e layout

  unfoldable pub count : Exec (DuckdbStore Db) ℕ
  unfolding check_table Sqlite.count
  count = do check_table; Sqlite.count e layout

  unfoldable pub filter_items : Dict String V → Exec (DuckdbStore Db) (Dict String (Fields V))
  unfolding check_table Sqlite.filter_items
  filter_items [] = do check_table; Sqlite.filter_items e layout []
  filter_items (f ∷ field_filters) = do
    check_open e layout
    lift (build_filter_where e layout (f ∷ field_filters))
    check_table
    Sqlite.filter_items e layout (f ∷ field_filters)

  unfoldable pub filter : Dict String V → Exec (DuckdbStore Db) (List (Fields V))
  unfolding filter_items
  filter field_filters = do items ← filter_items field_filters; pure (Dict.values items)

  -- The batches that the generator yields when it is run to its end.
  unfoldable pub iter_batches : ℤ → Exec (DuckdbStore Db) (List (Dict String (Fields V)))
  unfolding check_table Sqlite.iter_batches
  iter_batches batch_size = do
    lift (validate_batch_size batch_size)
    check_table
    Sqlite.iter_batches e layout batch_size
