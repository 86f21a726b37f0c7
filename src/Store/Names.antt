-- ===== src/Store/Names.antt =====
-- The name checks of persista/store/validation.py, which guard what the SQL stores put into their
-- statements: `_FIELD_NAME_PATTERN`, `_COLUMN_TYPE_PATTERN` and the four functions on them. The two
-- patterns are anchored, `^first rest*$`, and Python's `$` matches at the end of the text and also
-- before one newline that ends it.
pub mod Accepted
use persista.Common.{
  ℕ, Bool, true, false, String, List, [], ◌∷◌, ◌&&◌, ◌||◌, Result, ok, err, value_error, leb,
  nat_beq, if◌then◌else◌,
}
use persista.Dict.{Dict}
use persista.Store.Normalize.{codes}

-- [A-Za-z_]
unfoldable pub is_name_start : ℕ → Bool
is_name_start c = (leb b'A' c && leb c b'Z') || (leb b'a' c && leb c b'z') || nat_beq c b'_'

-- [A-Za-z0-9_]
unfoldable pub is_name_char : ℕ → Bool
unfolding is_name_start
is_name_char c = is_name_start c || (leb b'0' c && leb c b'9')

-- [A-Za-z0-9_ ()]
unfoldable pub is_type_char : ℕ → Bool
unfolding is_name_char
is_type_char c = is_name_char c || nat_beq c b' ' || nat_beq c b'(' || nat_beq c b')'

-- $
unfoldable pub at_end : List ℕ → Bool
at_end [] = true
at_end (c ∷ []) = nat_beq c 10
at_end (c ∷ d ∷ cs) = false

module _ (first rest : ℕ → Bool) where
  -- rest*$
  unfoldable pub matches_rest : List ℕ → Bool
  unfolding at_end
  matches_rest [] = true
  matches_rest (c ∷ cs) = let more = matches_rest cs in if rest c then more else at_end (c ∷ cs)

  -- pattern.match(text), for ^first rest*$
  unfoldable pub matches : List ℕ → Bool
  unfolding matches_rest
  matches [] = false
  matches (c ∷ cs) = first c && matches_rest cs

unfoldable pub validate_field_name : String → Result (Unit {0})
unfolding matches is_name_start is_name_char
validate_field_name name =
    if matches is_name_start is_name_char (codes name) then ok tt else err value_error

unfoldable pub validate_table_name : String → Result (Unit {0})
unfolding matches is_name_start is_name_char
validate_table_name name =
    if matches is_name_start is_name_char (codes name) then ok tt else err value_error

unfoldable pub validate_column_type : String → Result (Unit {0})
unfolding matches is_type_char
validate_column_type dtype =
    if matches is_type_char is_type_char (codes dtype) then ok tt else err value_error

-- the loop of validate_value_schema
unfoldable pub validate_value_schema : Dict String String → Result (Unit {0})
unfolding validate_field_name validate_column_type
validate_value_schema [] = ok tt
validate_value_schema ((name, dtype) ∷ value_schema) =
    let rest = validate_value_schema value_schema in
    elim (validate_field_name name) [
      | err e ↦ err e
      | ok _ ↦ elim (validate_column_type dtype) [ err e ↦ err e | ok _ ↦ rest ]
    ]
