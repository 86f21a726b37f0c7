-- ===== src/Store/Sqlite.antt =====
-- `BaseSQLiteStore` of persista/store/sqlite.py, over the database of Store/Engine. Its subclasses
-- are given by what they override. The lock makes each method one step. A store that is not closed
-- has its connection, so the attribute `_conn` is left out.
pub mod Chunks
pub mod Rows
pub mod Contract
pub mod Pages
pub mod Stores
pub mod Typed
use persista.Common.{
  ℕ, zero, suc, ◌+◌, ℤ, pos, negsuc, Bool, true, false, String, text_keys, Option, none, some, List,
  [], ◌∷◌, ◌++◌, map, Result, ok, err, runtime_error, operational_error, out_of_rounds, Exec, pure,
  lift, ◌>>=◌, ◌>>◌, is_some, length, take, drop, ltb, if◌then◌else◌,
}
use persista.Dict
use persista.Dict.{Dict}
use persista.Store.Types.{OnConflict, Fields}
use persista.Store.Normalize.{normalize_on_conflict}
use persista.Store.Validation.{validate_batch_size}
use persista.Store.Conflicts.{member}
use persista.Store.Writes
use persista.Store.Engine.{Engine, Expr, Condition, Created}

-- _MAX_SQL_VARIABLES
abbrev pub max_sql_variables : ℕ
max_sql_variables = 900

-- _chunk: items[start : start + size] for start in range(0, len(items), size). `range` has as many
-- rounds as there are items at most, since the step is positive.
unfoldable pub chunk_from {ℓ} : {A : Type ℓ} → ℕ → ℕ → List A → List (List A)
chunk_from rounds size [] = []
chunk_from zero size (x ∷ items) = []
chunk_from (suc rounds) size (x ∷ items) =
    take size (x ∷ items) ∷ chunk_from rounds size (drop size (x ∷ items))

unfoldable pub chunk {ℓ} : {A : Type ℓ} → List A → ℕ → List (List A)
unfolding chunk_from
chunk items size = chunk_from (length items) size items

-- a batch size that has been validated
abbrev pub size_of : ℤ → ℕ
size_of (pos n) = n
size_of (negsuc n) = 0

-- the state: `_closed`, and the database behind the connection
pub record SqliteStore (D : Type 0) : Type 0 where
  pub closed : Bool
  pub db : D

-- What a subclass gives: _value_to_row, _row_to_value and _filter_expr. `is_none` is `is None`.
pub record Layout (R V : Type 0) : Type 0 where
  pub to_row : Fields V → R
  pub row_to_value : R → Result (Fields V)
  pub filter_expr : String → Result Expr
  pub is_none : V → Bool

module _ {R V : Type 0} (e : Engine R V) (layout : Layout R V) where
  open e use {Db, connect, create_table, fetch, fetch_in, fetch_all, fetch_where, fetch_page}
  open layout use {to_row, row_to_value, filter_expr, is_none}

  -- _check_open
  unfoldable pub check_open : Exec (SqliteStore Db) (Unit {0})
  check_open s = if s.closed then (err runtime_error, s) else (ok tt, s)

  -- _ensure_schema: a read-only database is taken to have the table.
  unfoldable pub ensure_schema : Db → Result Db
  ensure_schema d = elim (create_table d) [
    | Created.created d' ↦ ok d'
    | Created.read_only ↦ ok d
    | Created.failed ↦ err operational_error
  ]

  unfoldable pub open_store : Exec (SqliteStore Db) (Unit {0})
  unfolding ensure_schema
  open_store s =
      if s.closed
      then elim (ensure_schema (connect s.db)) [
        | ok d ↦ (ok tt, record { closed = false; db = d })
        | err error ↦ (err error, s)
      ]
      else (ok tt, s)

  unfoldable pub close : Exec (SqliteStore Db) (Unit {0})
  close s = (ok tt, record s { closed = true })

  -- row_to_value(row) if row else None
  unfoldable pub value_of_row : Option R → Result (Option (Fields V))
  value_of_row none = ok none
  value_of_row (some row) = elim (row_to_value row) [
    | ok value ↦ ok (some value)
    | err error ↦ err error
  ]

  unfoldable pub get : String → Exec (SqliteStore Db) (Option (Fields V))
  unfolding check_open value_of_row
  get key = do check_open; λ s. (value_of_row (fetch s.db key), s)

  -- {row[0]: row_to_value(row) for row in rows}, as its pairs
  unfoldable pub values_of_rows : Dict String R → Result (List (String × Fields V))
  values_of_rows [] = ok []
  values_of_rows ((key, row) ∷ rows) = elim (row_to_value row) [
    | err error ↦ err error
    | ok value ↦ elim (values_of_rows rows) [
      | err error ↦ err error
      | ok values ↦ ok ((key, value) ∷ values)
    ]
  ]

  -- the loop of get_many over the chunks
  unfoldable pub collect :
      Db → List (List String) → Dict String (Fields V) → Result (Dict String (Fields V))
  unfolding values_of_rows
  collect d [] by_key = ok by_key
  collect d (keys ∷ chunks) by_key = elim (values_of_rows (fetch_in d keys)) [
    | err error ↦ err error
    | ok values ↦ collect d chunks (Dict.update by_key values)
  ]

  unfoldable pub get_many : List String → Exec (SqliteStore Db) (List (Option (Fields V)))
  unfolding check_open collect chunk
  get_many [] = do check_open; pure []
  get_many (key ∷ keys) = do
    check_open
    by_key ← λ s. (collect s.db (chunk (key ∷ keys) max_sql_variables) [], s)
    pure (map (Dict.get by_key) (key ∷ keys))

  unfoldable pub contains : String → Exec (SqliteStore Db) Bool
  unfolding check_open
  contains key = do check_open; λ s. (ok (is_some (fetch s.db key)), s)

  -- the loop of contains_many over the chunks
  unfoldable pub existing_in : Db → List (List String) → List String → List String
  existing_in d [] existing = existing
  existing_in d (keys ∷ chunks) existing =
      existing_in d chunks (existing ++ Dict.keys (fetch_in d keys))

  unfoldable pub contains_many : List String → Exec (SqliteStore Db) (List Bool)
  unfolding check_open existing_in chunk member
  contains_many [] = do check_open; pure []
  contains_many (key ∷ keys) = do
    check_open
    λ s. (
      ok (map (member (existing_in s.db (chunk (key ∷ keys) max_sql_variables) [])) (key ∷ keys)),
      s,
    )

  -- [(key, row of value) for key, value in items.items()]
  abbrev pub rows_of : Dict String (Fields V) → Dict String R
  rows_of = map (λ item. (item.0, to_row item.1))

  -- _set_many
  unfoldable pub write_rows : Dict String (Fields V) → Exec (SqliteStore Db) (Unit {0})
  write_rows [] s = (ok tt, s)
  write_rows (item ∷ items) s = (ok tt, record s { db = e.replace s.db (rows_of (item ∷ items)) })

  unfoldable pub set_many : Dict String (Fields V) → String → Exec (SqliteStore Db) (Unit {0})
  unfolding check_open Writes.set_resolved get contains_many write_rows
  set_many [] on_conflict = check_open
  set_many (item ∷ items) on_conflict = do
    check_open
    strategy ← lift (normalize_on_conflict on_conflict)
    Writes.set_resolved get contains_many write_rows (item ∷ items) strategy

  unfoldable pub set : String → Fields V → String → Exec (SqliteStore Db) (Unit {0})
  unfolding set_many
  set key value on_conflict = set_many ((key, value) ∷ []) on_conflict

  unfoldable pub delete : String → Exec (SqliteStore Db) (Unit {0})
  unfolding check_open
  delete key = do check_open; λ s. (ok tt, record s { db = e.delete s.db key })

  -- the loop of delete_many over the chunks
  unfoldable pub delete_chunks : List (List String) → Db → Db
  delete_chunks [] d = d
  delete_chunks (keys ∷ chunks) d = delete_chunks chunks (e.delete_in d keys)

  unfoldable pub delete_many : List String → Exec (SqliteStore Db) (Unit {0})
  unfolding check_open delete_chunks chunk
  delete_many [] = check_open
  delete_many (key ∷ keys) = do
    check_open
    λ s. (ok tt, record s { db = delete_chunks (chunk (key ∷ keys) max_sql_variables) s.db })

  unfoldable pub clear : Exec (SqliteStore Db) (Unit {0})
  unfolding check_open
  clear = do check_open; λ s. (ok tt, record s { db = e.delete_all s.db })

  unfoldable pub keys : Exec (SqliteStore Db) (List String)
  unfolding check_open
  keys = do check_open; λ s. (ok (Dict.keys (fetch_all s.db)), s)

  -- SELECT COUNT(*)
  unfoldable pub count : Exec (SqliteStore Db) ℕ
  unfolding check_open
  count = do check_open; λ s. (ok (length (fetch_all s.db)), s)

  -- _build_filter_where
  unfoldable pub build_filter_where : Dict String V → Result (List (Condition V))
  build_filter_where [] = ok []
  build_filter_where ((key, expected) ∷ field_filters) = elim (filter_expr key) [
    | err error ↦ err error
    | ok expr ↦ elim (build_filter_where field_filters) [
      | err error ↦ err error
      | ok conditions ↦ ok (
          (if is_none expected then Condition.is_null expr else Condition.equals expr expected)
          ∷ conditions)
    ]
  ]

  unfoldable pub filter_items : Dict String V → Exec (SqliteStore Db) (Dict String (Fields V))
  unfolding check_open values_of_rows build_filter_where
  filter_items [] = do
    check_open
    values ← λ s. (values_of_rows (fetch_all s.db), s)
    pure (Dict.of_pairs values)
  filter_items (f ∷ field_filters) = do
    check_open
    conditions ← lift (build_filter_where (f ∷ field_filters))
    values ← λ s. (values_of_rows (fetch_where s.db conditions), s)
    pure (Dict.of_pairs values)

  unfoldable pub filter : Dict String V → Exec (SqliteStore Db) (List (Fields V))
  unfolding filter_items
  filter field_filters = do items ← filter_items field_filters; pure (Dict.values items)

  -- The loop of iter_batches, with the rounds it may take: one page of rows after the other, from
  -- `offset` on, until one is empty or shorter than `size`.
  unfoldable pub pages : ℕ → Db → ℕ → ℕ → Result (List (Dict String (Fields V)))
  unfolding values_of_rows
  pages zero d size offset = err out_of_rounds
  pages (suc rounds) d size offset =
      let rows = fetch_page d size offset in
      let more = pages rounds d size (offset + size) in
      elim rows [
        | [] ↦ ok []
        | row ∷ rest ↦ elim (values_of_rows (row ∷ rest)) [
          | err error ↦ err error
          | ok values ↦
              if ltb (length (row ∷ rest)) size then ok (Dict.of_pairs values ∷ []) else elim more [
                | err error ↦ err error
                | ok batches ↦ ok (Dict.of_pairs values ∷ batches)
              ]
        ]
      ]

  -- The batches that the generator yields when it is run to its end.
  unfoldable pub iter_batches : ℤ → Exec (SqliteStore Db) (List (Dict String (Fields V)))
  unfolding check_open pages
  iter_batches batch_size = do
    lift (validate_batch_size batch_size)
    check_open
    λ s. (pages (suc (length (fetch_all s.db))) s.db (size_of batch_size) 0, s)
