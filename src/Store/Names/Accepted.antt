-- ===== src/Store/Names/Accepted.antt =====
-- The texts that the name checks of persista/store/validation.py accept.
use persista.Common.{
  ℕ, Bool, Bool-cases, true, String, List, [], ◌∷◌, ◌++◌, ◌≡◌, ◌↔◌, ◌⊎◌, inl, inr, refl, ap, all,
  ok, err, value_error, nat_beq_iff, arith,
}
use persista.Dict.{Dict}
use persista.Store.Normalize.{codes}
use persista.Store.Names.{
  is_name_start, is_name_char, is_type_char, at_end, matches_rest, matches, validate_field_name,
  validate_table_name, validate_column_type, validate_value_schema,
}

newline_of_end : (c : ℕ) (cs : List ℕ) → at_end (c ∷ cs) ≡ true → c ∷ cs ≡ 10 ∷ []
unfolding at_end
newline_of_end c [] h = ap (λ d. d ∷ []) ((nat_beq_iff c 10).0 h)
newline_of_end c (d ∷ cs) h = absurd (ground (arith, h))

module _ (first rest : ℕ → Bool) where
  -- characters of a class
  pub IsRun : List ℕ → Type 0
  IsRun cs =
      (w tail : List ℕ) × (cs ≡ w ++ tail) × (all rest w ≡ true) × ((tail ≡ []) ⊎ (tail ≡ 10 ∷ []))

  -- one character of the first class, then characters of the second, and then nothing or a newline
  pub IsToken : List ℕ → Type 0
  unfolding IsRun
  IsToken cs = (c : ℕ) × (ds : List ℕ) × (cs ≡ c ∷ ds) × (first c ≡ true) × IsRun ds

  IsRun-of_matches : (cs : List ℕ) → matches_rest first rest cs ≡ true → IsRun cs
  unfolding matches_rest at_end IsRun
  IsRun-of_matches [] h = ([], [], refl, refl, inl refl)
  IsRun-of_matches (c ∷ cs) h = elim (Bool-cases (rest c)) [
    | inl q ↦
        let (w, tail, e, a, t) = IsRun-of_matches cs (ground (arith, h, q)) in
        (c ∷ w, tail, ap (λ ds. c ∷ ds) e, ground (arith, q, a), t)
    | inr q ↦ ([], c ∷ cs, refl, refl, inr (newline_of_end c cs (ground (arith, h, q))))
  ]

  matches_of_IsRun :
      (w tail : List ℕ)
      → all rest w ≡ true
      → (tail ≡ []) ⊎ (tail ≡ 10 ∷ [])
      → matches_rest first rest (w ++ tail) ≡ true
  unfolding matches_rest at_end
  matches_of_IsRun [] tail a (inl e) = rw e refl
  matches_of_IsRun [] tail a (inr e) = rw e (ground arith)
  matches_of_IsRun (c ∷ w) tail a t = ground (arith, a, matches_of_IsRun w tail)

  matches_iff : (cs : List ℕ) → (matches first rest cs ≡ true) ↔ IsToken cs
  unfolding matches IsToken IsRun
  matches_iff [] = (λ h. absurd (ground (arith, h)), λ (c, ds, e, _, _). absurd (ground (arith, e)))
  matches_iff (c ∷ cs) = (
    λ h. (c, cs, refl, ground (arith, h), IsRun-of_matches cs (ground (arith, h))),
    λ (d, ds, e, f, (w, tail, e', a, t)).
        let m : matches_rest first rest ds ≡ true = rw e' (matches_of_IsRun w tail a t) in
        ground (arith, e, f, m),
  )

-- A name is accepted as a field name, and likewise as a table name, exactly if it is a letter or an
-- underscore, then letters, digits and underscores, and then at most one newline; else ValueError
-- is raised.
pub validate_names_iff :
    (name : String)
    → ((validate_field_name name ≡ ok tt) ↔ IsToken is_name_start is_name_char (codes name))
      × (validate_table_name name ≡ validate_field_name name)
      × ((validate_field_name name ≡ ok tt) ⊎ (validate_field_name name ≡ err value_error))
unfolding validate_field_name validate_table_name
validate_names_iff name =
    let i = matches_iff is_name_start is_name_char (codes name) in
    ((λ h. i.0 (ground (arith, h)), λ t. let m = i.1 t in ground (arith, m)), refl, ground arith)

-- no name and no type of the schema is refused
pub IsAccepted : Dict String String → Type 0
IsAccepted [] = Unit {0}
IsAccepted ((name, dtype) ∷ value_schema) =
    IsToken is_name_start is_name_char (codes name)
    × IsToken is_type_char is_type_char (codes dtype)
    × IsAccepted value_schema

-- validate_value_schema returns exactly if every field name of the schema has the form of a name, and
-- every column type consists of at least one letter, digit, underscore, space or parenthesis, either
-- with at most one newline at the end.
pub validate_value_schema_iff :
    (value_schema : Dict String String)
    → (validate_value_schema value_schema ≡ ok tt) ↔ IsAccepted value_schema
unfolding validate_value_schema validate_field_name validate_column_type IsAccepted
validate_value_schema_iff [] = (λ h. tt, λ h. refl)
validate_value_schema_iff ((name, dtype) ∷ value_schema) =
    let i = matches_iff is_name_start is_name_char (codes name) in
    let j = matches_iff is_type_char is_type_char (codes dtype) in
    let k = validate_value_schema_iff value_schema in
    (
      λ h. (i.0 (ground (arith, h)), j.0 (ground (arith, h)), k.0 (ground (arith, h))),
      λ (a, b, c). let m = i.1 a in let n = j.1 b in let o = k.1 c in ground (arith, m, n, o),
    )
