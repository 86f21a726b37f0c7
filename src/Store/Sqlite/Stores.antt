-- ===== src/Store/Sqlite/Stores.antt =====
-- `SQLiteStore`, `TypedSQLiteStore` and `PickleSQLiteStore` of persista/store/sqlite.py: what they
-- override. `json.dumps`, `json.loads`, `pickle.dumps` and `pickle.loads` are parameters.
use persista.Common.{
  String, text_keys, List, [], ◌∷◌, select, Result, ok, err, not_implemented_error, Exec, pure,
  ◌>>=◌, ◌>>◌,
}
use persista.Dict
use persista.Dict.{Dict}
use persista.Store.Types.{Fields, Object}
use persista.Store.Names.{validate_field_name}
use persista.Store.Engine.{Engine, Expr}
use persista.Store.TypedRows
use persista.Store.TypedRows.{Cells, typed_filter_expr}
use persista.Store.InMemory.{matches}
use persista.Store.Sqlite.{SqliteStore, Layout, check_open, values_of_rows}

-- SQLiteStore._filter_expr
unfoldable pub json_filter_expr : String → Result Expr
unfolding validate_field_name
json_filter_expr key = elim (validate_field_name key) [
  | err e ↦ err e
  | ok _ ↦ ok (Expr.json_extract "value" key)
]

-- SQLiteStore: a row is its key and one cell.
abbrev pub json_layout : {V : Type 0} → Cells V → Layout V V
json_layout c = record {
  to_row = c.dumps;
  row_to_value = c.loads;
  filter_expr = json_filter_expr;
  is_none = c.is_none;
}

-- TypedSQLiteStore, with the schema that its constructor has checked
abbrev pub typed_layout :
    {V : Type 0} ⦃o : Object V⦄ → Cells V → Dict String String → Layout (List V) V
typed_layout c schema = record {
  to_row = TypedRows.kept_row c schema;
  row_to_value = TypedRows.row_to_value c schema;
  filter_expr = typed_filter_expr schema;
  is_none = c.is_none;
}

-- PickleSQLiteStore._filter_expr
unfoldable pub pickle_filter_expr : String → Result Expr
pickle_filter_expr key = err not_implemented_error

-- PickleSQLiteStore
abbrev pub pickle_layout : {V : Type 0} → Cells V → Layout V V
pickle_layout c = record {
  to_row = c.dumps;
  row_to_value = c.loads;
  filter_expr = pickle_filter_expr;
  is_none = c.is_none;
}

module _ {R V : Type 0} ⦃o : Object V⦄ (e : Engine R V) (layout : Layout R V) where
  -- [value for value in values if all(value.get(name) == expected ...)], or all of them
  unfoldable pub pickle_select : Dict String V → List (Fields V) → List (Fields V)
  unfolding matches
  pickle_select [] values = values
  pickle_select (f ∷ field_filters) values = select (matches (f ∷ field_filters)) values

  -- PickleSQLiteStore.filter
  unfoldable pub pickle_filter : Dict String V → Exec (SqliteStore e.Db) (List (Fields V))
  unfolding check_open values_of_rows pickle_select
  pickle_filter field_filters = do
    check_open e layout
    rows ← λ s. (values_of_rows e layout (e.fetch_all s.db), s)
    pure (pickle_select field_filters (Dict.values rows))
