-- ===== src/Store/Postgres.antt =====
-- `BasePostgresStore` of persista/store/postgres.py, over the database of Store/Engine, and its two
-- subclasses by what they override. A method that sends the same statements as in
-- persista/store/duckdb.py, with `= ANY(%s)` for its `IN`, is the definition of Store/Duckdb; the
-- filters, `open` and `iter_batches` differ. The transaction of set_many, with its advisory locks, is
-- one step.
pub mod Filters
use persista.Common.{
  true, ℕ, ℤ, Bool, String, text_keys, Option, List, [], ◌∷◌, map, Result, ok, err,
  operational_error, Exec, pure, lift, ◌>>=◌, ◌>>◌, if◌then◌else◌, false, none, some,
}
use persista.Dict
use persista.Dict.{Dict}
use persista.Store.Types.{OnConflict, Fields, Object}
use persista.Store.Names.{validate_field_name}
use persista.Store.Validation.{validate_batch_size}
use persista.Store.Engine.{Engine, Expr, Condition, Created}
use persista.Store.TypedRows
use persista.Store.TypedRows.{Cells, typed_filter_expr}
use persista.Store.Sqlite
use persista.Store.Sqlite.{SqliteStore, Layout, check_open, values_of_rows}
use persista.Store.Duckdb
use persista.Store.Duckdb.{json_filter_expr}

-- the state: `_closed`, and the database behind the connection
abbrev pub PostgresStore : Type 0 → Type 0
PostgresStore = SqliteStore

-- PostgresStore: a row is its key and one cell, which is what a column of type JSONB makes of the
-- value: it has an order of the keys of its own.
abbrev pub jsonb_layout : {V : Type 0} → (Fields V → Fields V) → (V → Bool) → Layout (Fields V) V
jsonb_layout jsonb is_none = record {
  to_row = jsonb;
  row_to_value = ok;
  filter_expr = json_filter_expr;
  is_none = is_none;
}

-- TypedPostgresStore, with the schema that its constructor has checked
abbrev pub typed_layout :
    {V : Type 0} ⦃o : Object V⦄ → Cells V → Dict String String → Layout (List V) V
typed_layout c schema = record {
  to_row = TypedRows.kept_row c schema;
  row_to_value = TypedRows.row_to_value c schema;
  filter_expr = typed_filter_expr schema;
  is_none = c.is_none;
}

-- A PostgreSQL store is open only once its table is there.
abbrev pub with_table : {R V : Type 0} → Engine R V → Engine R V
with_table e = record e { has_table = λ d. true }

module _ {R V : Type 0} (e : Engine R V) (layout : Layout R V) where
  open e use {Db, connect, create_table, fetch_all, fetch_where}
  open layout use {filter_expr}

  -- open: the store counts as open once its table is there.
  unfoldable pub open_store : Exec (PostgresStore Db) (Unit {0})
  open_store s =
      if s.closed
      then elim (create_table (connect s.db)) [
        | Created.created d ↦ (ok tt, record { closed = false; db = d })
        | Created.read_only ↦ (err operational_error, s)
        | Created.failed ↦ (err operational_error, s)
      ]
      else (ok tt, s)

  unfoldable pub close : Exec (PostgresStore Db) (Unit {0})
  unfolding Sqlite.close
  close = Sqlite.close e layout

  unfoldable pub get : String → Exec (PostgresStore Db) (Option (Fields V))
  unfolding Duckdb.get
  get = Duckdb.get (with_table e) layout false

  unfoldable pub get_many : List String → Exec (PostgresStore Db) (List (Option (Fields V)))
  unfolding Duckdb.get_many
  get_many = Duckdb.get_many (with_table e) layout false

  unfoldable pub set_many : Dict String (Fields V) → String → Exec (PostgresStore Db) (Unit {0})
  unfolding Duckdb.set_many
  set_many = Duckdb.set_many (with_table e) layout false

  unfoldable pub set : String → Fields V → String → Exec (PostgresStore Db) (Unit {0})
  unfolding Duckdb.set
  set = Duckdb.set (with_table e) layout false

  unfoldable pub delete : String → Exec (PostgresStore Db) (Unit {0})
  unfolding Duckdb.delete
  delete = Duckdb.delete (with_table e) layout false

  unfoldable pub delete_many : List String → Exec (PostgresStore Db) (Unit {0})
  unfolding Duckdb.delete_many
  delete_many = Duckdb.delete_many (with_table e) layout false

  unfoldable pub clear : Exec (PostgresStore Db) (Unit {0})
  unfolding Duckdb.clear
  clear = Duckdb.clear (with_table e) layout false

  unfoldable pub contains : String → Exec (PostgresStore Db) Bool
  unfolding Duckdb.contains
  contains = Duckdb.contains (with_table e) layout false

  unfoldable pub contains_many : List String → Exec (PostgresStore Db) (List Bool)
  unfolding Duckdb.contains_many
  contains_many = Duckdb.contains_many (with_table e) layout false

  unfoldable pub keys : Exec (PostgresStore Db) (List String)
  unfolding Duckdb.keys
  keys = Duckdb.keys (with_table e) layout false

  unfoldable pub count : Exec (PostgresStore Db) ℕ
  unfolding Duckdb.count
  count = Duckdb.count (with_table e) layout false

  -- [self._build_filter_condition(key) for key in field_filters], with the value bound to each
  unfoldable pub build_filter_conditions : Dict String V → Result (List (Condition V))
  build_filter_conditions [] = ok []
  build_filter_conditions ((key, expected) ∷ field_filters) = elim (filter_expr key) [
    | err error ↦ err error
    | ok expr ↦ elim (build_filter_conditions field_filters) [
      | err error ↦ err error
      | ok conditions ↦ ok (Condition.equals expr expected ∷ conditions)
    ]
  ]

  unfoldable pub filter_items : Dict String V → Exec (PostgresStore Db) (Dict String (Fields V))
  unfolding check_open values_of_rows build_filter_conditions
  filter_items [] = do
    check_open e layout
    values ← λ s. (values_of_rows e layout (fetch_all s.db), s)
    pure (Dict.of_pairs values)
  filter_items (f ∷ field_filters) = do
    check_open e layout
    conditions ← lift (build_filter_conditions (f ∷ field_filters))
    values ← λ s. (values_of_rows e layout (fetch_where s.db conditions), s)
    pure (Dict.of_pairs values)

  unfoldable pub filter : Dict String V → Exec (PostgresStore Db) (List (Fields V))
  unfolding filter_items
  filter field_filters = do items ← filter_items field_filters; pure (Dict.values items)

  -- {row[0]: self._row_to_value(row) for row in batch}, for each batch
  unfoldable pub value_batches : List (Dict String R) → Result (List (Dict String (Fields V)))
  unfolding values_of_rows
  value_batches [] = ok []
  value_batches (batch ∷ batches) = elim (values_of_rows e layout batch) [
    | err error ↦ err error
    | ok values ↦ elim (value_batches batches) [
      | err error ↦ err error
      | ok rest ↦ ok (Dict.of_pairs values ∷ rest)
    ]
  ]

  -- The batches that the generator yields when it is run to its end. `batchify` is that of
  -- coola.utils.batching.
  unfoldable pub iter_batches :
      (List (String × R) → ℤ → List (List (String × R)))
      → ℤ
      → Exec (PostgresStore Db) (List (Dict String (Fields V)))
  unfolding check_open value_batches
  iter_batches batchify batch_size = do
    lift (validate_batch_size batch_size)
    check_open e layout
    λ s. (value_batches (batchify (fetch_all s.db) batch_size), s)
