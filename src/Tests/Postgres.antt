-- ===== src/Tests/Postgres.antt =====
-- The PostgreSQL store over a table that is a dict, run and instantiated.
use persista.Common.{ℕ, false, String, text_keys, [], ◌∷◌, ◌≡◌, refl, ok, nat_beq, if◌then◌else◌}
use persista.Dict
use persista.Dict.{Dict}
use persista.Store.Types.{Fields}
use persista.Store.Engine.{Engine, Expr, Condition}
use persista.Store.Engine.Table.{table}
use persista.Store.Sqlite.{Layout}
use persista.Store.Postgres
use persista.Store.Postgres.{PostgresStore}
use persista.Store.Postgres.Filters
use persista.Store.Postgres.Filters.{has_null, IsThreeValued}

-- rows are the values; 0 stands for None, and every name is accepted
abbrev plain : Layout (Fields ℕ) ℕ
plain = record {
  to_row = λ v. v;
  row_to_value = ok;
  filter_expr = λ k. ok (Expr.json_extract "value" k);
  is_none = nat_beq 0;
}

abbrev people : Dict String (Fields ℕ)
people = ("ann", ("age", 0) ∷ []) ∷ ("bob", []) ∷ []

people-IsDistinct : Dict.IsDistinct people
unfolding Dict.get
people-IsDistinct = (refl, (refl, tt))

-- a database that finds no row where a condition is unknown, and else all of them
selecting : Engine (Fields ℕ) ℕ
unfolding table
selecting = record table {
  fetch_where = λ d conditions. if has_null (nat_beq 0) conditions then [] else d.0;
}

selecting-IsThreeValued : IsThreeValued selecting plain
unfolding selecting
selecting-IsThreeValued = record { unknown = λ d conditions h. rw h refl }

open_people : PostgresStore selecting.Db
unfolding selecting
open_people = record { closed = false; db = (people, people-IsDistinct) }

open_people-is_open : open_people.closed ≡ false
unfolding open_people
open_people-is_open = refl

-- the age of "ann" is None, but no value is found
filter_none_example :
    Postgres.filter selecting plain (("age", 0) ∷ []) open_people ≡ (ok [], open_people)
unfolding Filters.has_none Postgres.build_filter_conditions
filter_none_example =
    Filters.filter_none selecting plain selecting-IsThreeValued open_people (("age", 0) ∷ [])
      (Condition.equals (Expr.json_extract "value" "age") 0 ∷ []) open_people-is_open refl refl
