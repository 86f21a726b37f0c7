-- ===== src/Tests/Sql.antt =====
-- The SQLite and DuckDB stores over a table, run and instantiated. Cells are numbers, texts of dicts,
-- and None.
use persista.Common.{
  ℕ, pos, Bool, true, false, not, String, List, [], ◌∷◌, ◌≡◌, refl, Result, ok, err, value_error,
  operational_error, nat_beq, concat, text_keys, none, some, ap, ◌&&◌, if◌then◌else◌, ◌==◌,
}
use persista.Dict
use persista.Dict.{Dict}
use persista.Store.Types.{Fields, Object}
use persista.Store.Base.{IsStore}
use persista.Store.Batching.{IsBounded}
use persista.Store.Engine.{Engine, Created}
use persista.Store.Duckdb
use persista.Store.Duckdb.{DuckdbStore}
use persista.Store.Duckdb.Contract as DuckdbContract
use persista.Store.Engine.Table.{table, table-IsEngine}
use persista.Store.TypedRows.{Cells, row_to_value, kept_row}
use persista.Store.Normalize.{normalize_on_conflict}
use persista.Store.TypedRows.RoundTrip.{IsJson, Fits, is_none_at}
use persista.Store.Sqlite
use persista.Store.Sqlite.{SqliteStore, Layout, chunk}
use persista.Store.Sqlite.Chunks
use persista.Store.Sqlite.Contract
use persista.Store.Sqlite.Pages
use persista.Store.Sqlite.Pages.{HoldsInOrder}
use persista.Store.Sqlite.Rows.{IsCodec}
use persista.Store.Sqlite.Stores.{typed_layout}
use persista.Store.Sqlite.Typed

-- a cell: None, a number, a word, or the JSON text of a dict of cells
mutual
  data Cell : Type 0 where
    null : Cell
    number : ℕ → Cell
    word : String → Cell
    text : Entries → Cell

  data Entries : Type 0 where
    nil : Entries
    entry : String → Cell → Entries → Entries

to_entries : Fields Cell → Entries
to_entries [] = nil
to_entries ((k, v) ∷ m) = entry k v (to_entries m)

of_entries : Entries → Fields Cell
of_entries nil = []
of_entries (entry k v m) = (k, v) ∷ of_entries m

of_entries-to_entries : (m : Fields Cell) → of_entries (to_entries m) ≡ m
unfolding of_entries to_entries
of_entries-to_entries [] = refl
of_entries-to_entries ((k, v) ∷ m) = rw (of_entries-to_entries m) refl

instance abbrev cell_object : Object Cell
cell_object = record { none_value = null; equals = λ a b. false }

abbrev loads : Cell → Result (Fields Cell)
loads (text m) = ok (of_entries m)
loads _ = err value_error

abbrev is_none : Cell → Bool
is_none null = true
is_none _ = false

abbrev truthy : Cell → Bool
truthy null = false
truthy (number n) = not (nat_beq n 0)
truthy (word w) = true
truthy (text m) = true

-- a column of type TEXT makes a word of a number
unfoldable column : String → Cell → Cell
column dtype null = null
column dtype (number n) = if dtype == "TEXT" then word "a number" else number n
column dtype (word w) = word w
column dtype (text m) = text m

abbrev cells : Cells Cell
cells = record {
  dumps = λ m. text (to_entries m);
  loads = loads;
  is_none = is_none;
  truthy = truthy;
  column = column;
}

cells-IsJson : IsJson cells
cells-IsJson = record {
  none_is_none = refl;
  none_is_false = refl;
  text_is_true = λ m. refl;
  loads-dumps = λ m. ap ok (of_entries-to_entries m);
}

-- a subclass whose rows are the values themselves
abbrev plain : Layout (Fields ℕ) ℕ
plain = record {
  to_row = λ v. v;
  row_to_value = ok;
  filter_expr = λ k. err value_error;
  is_none = nat_beq 0;
}

plain-IsCodec : IsCodec plain (λ v. v)
plain-IsCodec = record { reads_row = λ r. refl; round_trip = λ v. refl }

sqlite-IsStore_example :
    IsStore
      (Contract.sqlite table plain)
      (Contract.view table plain plain-IsCodec (table-IsEngine 900))
unfolding table
sqlite-IsStore_example =
    Contract.sqlite-IsStore table plain plain-IsCodec (table-IsEngine 900) (λ d. cc)

abbrev three : List ℕ
three = 1 ∷ 2 ∷ 3 ∷ []

chunk-IsBounded_example : (concat (chunk three 2) ≡ three) × IsBounded 2 (chunk three 2)
chunk-IsBounded_example = Chunks.chunk-IsBounded 1 three

abbrev people : Dict String (Fields ℕ)
people = ("bob", []) ∷ ("ann", ("age", 30) ∷ []) ∷ []

people-IsDistinct : Dict.IsDistinct people
unfolding Dict.get
people-IsDistinct = (refl, (refl, tt))

open_people : SqliteStore (table {R = Fields ℕ} {V = ℕ}).Db
unfolding table
open_people = record { closed = false; db = (people, people-IsDistinct) }

iter_batches-ordered_example :
    (batches : List (Dict String (Fields ℕ))) × (Sqlite.iter_batches table plain (pos 1) open_people
      ≡ (ok batches, open_people))
    × HoldsInOrder table plain plain-IsCodec (table-IsEngine 900) open_people.db 0 (concat batches)
    × IsBounded 1 batches
unfolding open_people
iter_batches-ordered_example =
    Pages.iter_batches-ordered table plain plain-IsCodec (table-IsEngine 900) open_people.db 0
      open_people refl refl

empty : SqliteStore (table {R = List Cell} {V = Cell}).Db
unfolding table
empty = record { closed = false; db = ([], tt) }

abbrev schema : Dict String String
schema = ("title", "TEXT") ∷ ("year", "INTEGER") ∷ []

abbrev book : Fields Cell
book = ("title", word "seven") ∷ ("year", null) ∷ ("pages", null) ∷ []

book-IsDistinct : Dict.IsDistinct book
unfolding Dict.get
book-IsDistinct = (refl, (refl, (refl, tt)))

book-Fits : Fits cells schema book
unfolding Fits column Dict.get
book-Fits = (refl, (refl, tt))

schema-IsDistinct : Dict.IsDistinct schema
unfolding Dict.get
schema-IsDistinct = (refl, (refl, tt))

-- the year, which is None, does not come back
read_back :
    (Sqlite.get table
      (typed_layout cells schema)
      "1"
      (Typed.after_set table cells schema "1" book empty)).0
    ≡ ok (some (("title", word "seven") ∷ ("pages", null) ∷ []))
unfolding table empty Sqlite.get Sqlite.set Dict.get of_entries to_entries normalize_on_conflict
    Dict.update Dict.set row_to_value kept_row column Dict.of_pairs
read_back = refl

get-set_typed_example :
    (value' : Fields Cell) × ((Sqlite.get table
        (typed_layout cells schema)
        "1"
        (Typed.after_set table cells schema "1" book empty)).0
      ≡ ok (some value'))
    × ((k : String)
        → Dict.get value' k ≡ (
            if Dict.contains schema k && is_none_at cells (Dict.get book k)
            then none
            else Dict.get book k))
unfolding empty
get-set_typed_example =
    Typed.get-set_typed table cells (table-IsEngine 900) cells-IsJson schema "1" book empty refl
      schema-IsDistinct book-IsDistinct book-Fits

get-set_reopened_example :
    (Sqlite.get table
      (typed_layout cells [])
      "1"
      (Typed.after_set table cells schema "1" book empty)).0
    ≡ err value_error
unfolding empty Dict.get column
get-set_reopened_example =
    Typed.get-set_reopened table cells (table-IsEngine 900) "title" "TEXT"
      (("year", "INTEGER") ∷ []) "1" book (word "seven") value_error empty refl refl refl refl

present :
    (d : (table {R = Fields ℕ} {V = ℕ}).Db) → (table {R = Fields ℕ} {V = ℕ}).has_table d ≡ true
unfolding table
present d = refl

duckdb-IsStore_example :
    IsStore
      (DuckdbContract.duckdb table plain)
      (DuckdbContract.view table plain plain-IsCodec table-IsEngine present)
unfolding table
duckdb-IsStore_example =
    DuckdbContract.duckdb-IsStore table plain plain-IsCodec table-IsEngine present (λ d. (d, refl))

-- a database in which no table can be created
abbrev full : Engine (Fields ℕ) ℕ
full = record table { create_table = λ d. Created.failed }

closed_people : DuckdbStore full.Db
unfolding table
closed_people = record { closed = true; db = (people, people-IsDistinct) }

-- and then there is none to read from
missing :
    (Duckdb.get
      (record full { has_table = λ d. false })
      plain
      false
      "ann"
      (record { closed = false; db = closed_people.db })).0
    ≡ err operational_error
unfolding closed_people Duckdb.get
missing = refl

open_store_failed_example :
    (s' : DuckdbStore full.Db) × (Duckdb.open_store full plain false closed_people
      ≡ (err operational_error, s'))
    × (s'.closed ≡ false)
    × (Duckdb.open_store full plain false s' ≡ (ok tt, s'))
unfolding closed_people
open_store_failed_example = DuckdbContract.open_store_failed full plain closed_people refl refl
