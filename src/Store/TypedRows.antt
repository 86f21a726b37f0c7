-- ===== src/Store/TypedRows.antt =====
-- The rows of the typed stores: `_value_to_row` and `_row_to_value`, the same code in
-- `TypedSQLiteStore` of persista/store/sqlite.py and `TypedDuckDBStore` of persista/store/duckdb.py,
-- and what their constructors check. A row is given without its key: the declared columns and then
-- the overflow column `extra`. Cells are Python objects, texts and `None` among them.
pub mod RoundTrip
use persista.Common.{
  ℕ, zero, suc, Bool, true, false, not, String, text_keys, Option, none, some, List, [], ◌∷◌, ◌++◌,
  map, Result, ok, err, value_error, index_error, take, length, select, if◌then◌else◌,
}
use persista.Dict
use persista.Dict.{Dict}
use persista.Store.Types.{Fields, Object}
use persista.Store.Names.{validate_value_schema, validate_field_name}
use persista.Store.Engine.{Expr}

-- _KEY_COLUMN
abbrev pub key_column : String
key_column = "_KEY_"

-- what __init__ checks of value_schema
unfoldable pub check_schema : Dict String String → Result (Unit {0})
unfolding validate_value_schema
check_schema value_schema =
    if Dict.contains value_schema key_column
    then err value_error
    else validate_value_schema value_schema

-- row[n], in the list of cells
abbrev pub cell_at : {V : Type 0} → List V → ℕ → Result V
cell_at [] n = err index_error
cell_at (cell ∷ cells) zero = ok cell
cell_at (cell ∷ cells) (suc n) = cell_at cells n

-- zip(names, cells, strict=True)
abbrev pub zip_cells : {V : Type 0} → List String → List V → Result (List (String × V))
zip_cells [] [] = ok []
zip_cells (name ∷ names) (cell ∷ cells) = elim (zip_cells names cells) [
  | ok rest ↦ ok ((name, cell) ∷ rest)
  | err e ↦ err e
]
zip_cells _ _ = err value_error

-- _filter_expr
unfoldable pub typed_filter_expr : Dict String String → String → Result Expr
unfolding validate_field_name
typed_filter_expr schema key =
    if Dict.contains schema key then ok (Expr.column key) else elim (validate_field_name key) [
      | err e ↦ err e
      | ok _ ↦ ok (Expr.json_extract "extra" key)
    ]

-- `json.dumps` of a dict, `json.loads` of a cell, `cell is None` and the truth of a cell; and what the
-- database makes of a cell in a column of a declared type, such as 7 in a TEXT column of SQLite.
pub record Cells (V : Type 0) : Type 0 where
  pub dumps : Fields V → V
  pub loads : V → Result (Fields V)
  pub is_none : V → Bool
  pub truthy : V → Bool
  pub column : String → V → V

module _ {V : Type 0} ⦃o : Object V⦄ (c : Cells V) where
  -- value.get(name)
  abbrev pub or_none : Option V → V
  or_none none = o.none_value
  or_none (some v) = v

  -- json.dumps(extra) if extra else None
  abbrev pub extra_cell : Fields V → V
  extra_cell [] = o.none_value
  extra_cell (f ∷ extra) = c.dumps (f ∷ extra)

  -- {k: v for k, v in value.items() if k not in schema}
  abbrev pub extra_of : Dict String String → Fields V → Fields V
  extra_of schema = select (λ f. not (Dict.contains schema f.0))

  -- [value.get(k) for k in schema]
  abbrev pub known_of : List String → Fields V → List V
  known_of names value = map (λ k. or_none (Dict.get value k)) names

  unfoldable pub value_to_row : Dict String String → Fields V → List V
  value_to_row schema value =
      known_of (Dict.keys schema) value ++ extra_cell (extra_of schema value) ∷ []

  -- the cells as the declared columns keep them, and the others as they are
  unfoldable pub keep_cells : List String → List V → List V
  keep_cells [] cells = cells
  keep_cells (dtype ∷ dtypes) [] = []
  keep_cells (dtype ∷ dtypes) (cell ∷ cells) = c.column dtype cell ∷ keep_cells dtypes cells

  -- the row of a value, as the table keeps it
  unfoldable pub kept_row : Dict String String → Fields V → List V
  unfolding keep_cells value_to_row
  kept_row schema value = keep_cells (Dict.values schema) (value_to_row schema value)

  -- value.update(json.loads(extra_json)), if there is any
  unfoldable pub add_extra : V → Fields V → Result (Fields V)
  add_extra extra_json value =
      if c.truthy extra_json
      then elim (c.loads extra_json) [ ok extra ↦ ok (Dict.update value extra) | err e ↦ err e ]
      else ok value

  -- {k: v for k, v in schema_vals.items() if v is not None}
  abbrev pub without_none : Fields V → Fields V
  without_none = select (λ f. not (c.is_none f.1))

  unfoldable pub row_to_value : Dict String String → List V → Result (Fields V)
  unfolding add_extra
  row_to_value schema row =
      elim (zip_cells (Dict.keys schema) (take (length (Dict.keys schema)) row)) [
        | err e ↦ err e
        | ok pairs ↦ elim (cell_at row (length (Dict.keys schema))) [
          | err e ↦ err e
          | ok extra_json ↦ add_extra extra_json (without_none (Dict.of_pairs pairs))
        ]
      ]
