-- ===== src/Store/Engine.antt =====
-- The database behind the SQLite, DuckDB and PostgreSQL stores (persista/store/sqlite.py, duckdb.py
-- and postgres.py): what their statements on the table `store` do. The databases are not part of the
-- program, so this is an interface, with what the stores rely on as laws. A statement is one step;
-- that it can fail, for instance on a locked file, is left out, but for the creation of the table and
-- for a table that is not there.
pub mod Table
use persista.Common.{
  ℕ, Bool, false, String, text_keys, Option, none, some, List, [], ◌∷◌, text_less, ◌==◌, ◌≡◌, ◌≤◌,
  length, take, drop, if◌then◌else◌,
}
use persista.Dict
use persista.Dict.{Dict}
use persista.Store.Conflicts.{member}

-- what a condition of a WHERE clause reads: a column, or a field of the JSON text in a column
pub data Expr : Type 0 where
  column : String → Expr
  json_extract : String → String → Expr

-- expr IS NULL, or expr = ? with the bound value
pub data Condition (V : Type 0) : Type 0 where
  is_null : Expr → Condition V
  equals : Expr → V → Condition V

-- what CREATE TABLE IF NOT EXISTS does: it succeeds, or fails because the database is read-only, or
-- for another reason
pub data Created (D : Type 0) : Type 0 where
  created : D → Created D
  read_only : Created D
  failed : Created D

-- no key is below the one before it
abbrev pub IsAscending : List String → Type 0
IsAscending [] = Unit {0}
IsAscending (k ∷ []) = Unit {0}
IsAscending (j ∷ k ∷ ks) = (text_less k j ≡ false) × IsAscending (k ∷ ks)

-- `R` is a row without its key. The rows of a statement come with their keys.
pub record Engine (R V : Type 0) : Type 1 where
  pub Db : Type 0
  pub connect : Db → Db
  pub create_table : Db → Created Db
  -- is the table there? A statement on a table that is not there is an error.
  pub has_table : Db → Bool
  -- SELECT * FROM store WHERE key = ?
  pub fetch : Db → String → Option R
  -- SELECT * FROM store WHERE key IN (?, ...)
  pub fetch_in : Db → List String → Dict String R
  -- SELECT * FROM store
  pub fetch_all : Db → Dict String R
  -- SELECT * FROM store WHERE ... AND ...
  pub fetch_where : Db → List (Condition V) → Dict String R
  -- SELECT * FROM store ORDER BY key LIMIT ? OFFSET ?
  pub fetch_page : Db → ℕ → ℕ → Dict String R
  -- INSERT OR REPLACE INTO store VALUES ..., for each row
  pub replace : Db → Dict String R → Db
  -- DELETE FROM store, WHERE key = ?, WHERE key IN (?, ...), or all
  pub delete : Db → String → Db
  pub delete_in : Db → List String → Db
  pub delete_all : Db → Db

-- What the statements do on the table. The key is the primary key, and one statement may bind at most `limit` parameters.
pub record IsEngine {R V : Type 0} (limit : ℕ) (e : Engine R V) : Type 0 where
  pub rows_IsDistinct : (d : e.Db) → Dict.IsDistinct (e.fetch_all d)
  pub get_row : (d : e.Db) (k : String) → Dict.get (e.fetch_all d) k ≡ e.fetch d k
  pub rows_in_IsDistinct :
      (d : e.Db) (ks : List String) → length ks ≤ limit → Dict.IsDistinct (e.fetch_in d ks)
  pub get_row_in :
      (d : e.Db) (ks : List String) (k : String)
      → length ks ≤ limit
      → Dict.get (e.fetch_in d ks) k ≡ (if member ks k then e.fetch d k else none)
  pub ordered : e.Db → Dict String R
  pub ordered_IsAscending : (d : e.Db) → IsAscending (Dict.keys (ordered d))
  pub ordered_IsDistinct : (d : e.Db) → Dict.IsDistinct (ordered d)
  pub get_ordered : (d : e.Db) (k : String) → Dict.get (ordered d) k ≡ e.fetch d k
  pub length-ordered : (d : e.Db) → length (ordered d) ≡ length (e.fetch_all d)
  pub page : (d : e.Db) (n o : ℕ) → e.fetch_page d n o ≡ take n (drop o (ordered d))
  pub fetch_replace :
      (d : e.Db) (rows : Dict String R) (k : String)
      → Dict.IsDistinct rows
      → e.fetch (e.replace d rows) k
        ≡ elim (Dict.get rows k) [ none ↦ e.fetch d k | some r ↦ some r ]
  pub fetch_delete :
      (d : e.Db) (j k : String) → e.fetch (e.delete d j) k ≡ (if j == k then none else e.fetch d k)
  pub fetch_delete_in :
      (d : e.Db) (ks : List String) (k : String)
      → length ks ≤ limit
      → e.fetch (e.delete_in d ks) k ≡ (if member ks k then none else e.fetch d k)
  pub fetch_delete_all : (d : e.Db) (k : String) → e.fetch (e.delete_all d) k ≡ none
