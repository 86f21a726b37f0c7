-- ===== src/Store/Postgres/Filters.antt =====
-- What the filters of persista/store/postgres.py make of `None`, which SQL never finds equal.
use persista.Common.{
  Bool, true, false, String, text_keys, List, [], ◌∷◌, ◌||◌, ◌≡◌, refl, Result, ok, err, arith,
}
use persista.Dict
use persista.Dict.{Dict}
use persista.Store.Engine.{Engine, Condition}
use persista.Store.Sqlite.{Layout}
use persista.Store.Postgres
use persista.Store.Postgres.{PostgresStore}

module _ {V : Type 0} (is_none : V → Bool) where
  -- is a condition an equation with a bound NULL?
  unfoldable pub has_null : List (Condition V) → Bool
  has_null [] = false
  has_null (Condition.is_null expr ∷ conditions) = has_null conditions
  has_null (Condition.equals expr value ∷ conditions) = is_none value || has_null conditions

  -- is one of the expected values None?
  unfoldable pub has_none : Dict String V → Bool
  has_none [] = false
  has_none (f ∷ field_filters) = is_none f.1 || has_none field_filters

module _ {R V : Type 0} (e : Engine R V) (layout : Layout R V) where
  -- `expr = NULL` is not true of any row.
  pub record IsThreeValued : Type 0 where
    pub unknown :
        (d : e.Db) (conditions : List (Condition V))
        → has_null layout.is_none conditions ≡ true
        → e.fetch_where d conditions ≡ []

  -- has_null of the conditions, if there are any
  abbrev null_or : Bool → Result (List (Condition V)) → Bool
  null_or default (ok conditions) = has_null layout.is_none conditions
  null_or default (err error) = default

  null_or-conditions :
      (field_filters : Dict String V)
      → null_or
          (has_none layout.is_none field_filters)
          (Postgres.build_filter_conditions e layout field_filters)
        ≡ has_none layout.is_none field_filters
  unfolding Postgres.build_filter_conditions has_null has_none
  null_or-conditions [] = refl
  null_or-conditions ((key, expected) ∷ field_filters) =
      ground (arith, null_or-conditions field_filters)

  -- If the names of the filters are accepted and one of the expected values is None, filter of an open
  -- store returns no values, whatever is stored.
  pub filter_none :
      IsThreeValued
      → (s : PostgresStore e.Db) (field_filters : Dict String V) (conditions : List (Condition V))
      → s.closed ≡ false
      → Postgres.build_filter_conditions e layout field_filters ≡ ok conditions
      → has_none layout.is_none field_filters ≡ true
      → Postgres.filter e layout field_filters s ≡ (ok [], s)
  unfolding Postgres.filter has_none Dict.of_pairs
  filter_none sql s [] conditions h built some_none = cc
  filter_none sql s (f ∷ field_filters) conditions h built some_none =
      let no_rows =
        sql.unknown s.db conditions
          (ground (arith, null_or-conditions (f ∷ field_filters), built, some_none)) in
      rw (Postgres.filter, h, built, no_rows) refl
