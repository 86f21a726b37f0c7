-- ===== src/Store/TypedRows/RoundTrip.antt =====
-- Which fields a typed row gives back.
use persista.Common.{
  Bool, true, false, not, String, text_keys, Option, none, some, List, [], ◌∷◌, ◌++◌, ◌≡◌, refl,
  map, ok, take, length, ◌&&◌, if◌then◌else◌, arith, ◌∙◌,
}
use persista.Dict
use persista.Dict.{Dict}
use persista.Dict.Laws
use persista.Dict.Order
use persista.Dict.Select.{get-select, get-select_keys, select_keys-IsDistinct}
use persista.Store.Types.{Fields, Object}
use persista.Store.TypedRows.{
  Cells, cell_at, zip_cells, or_none, extra_cell, extra_of, known_of, value_to_row, keep_cells,
  kept_row, add_extra, without_none, row_to_value,
}

-- What is used of JSON: None is false, the text of a dict is not, and it reads as that dict.
pub record IsJson {V : Type 0} ⦃o : Object V⦄ (c : Cells V) : Type 0 where
  pub none_is_none : c.is_none o.none_value ≡ true
  pub none_is_false : c.truthy o.none_value ≡ false
  pub text_is_true : (m : Fields V) → c.truthy (c.dumps m) ≡ true
  pub loads-dumps : (m : Fields V) → c.loads (c.dumps m) ≡ ok m

module _ {V : Type 0} (f : String → V) (last : V) where
  zip_cells-map :
      (names : List String)
      → zip_cells names (take (length names) (map f names ++ last ∷ []))
        ≡ ok (map (λ k. (k, f k)) names)
  zip_cells-map [] = refl
  zip_cells-map (k ∷ names) = ground (arith, zip_cells-map names)

  cell_at-last : (names : List String) → cell_at (map f names ++ last ∷ []) (length names) ≡ ok last
  cell_at-last [] = refl
  cell_at-last (k ∷ names) = cell_at-last names

  get-pairs :
      (schema : Dict String String) (k : String)
      → Dict.get (map (λ n. (n, f n)) (Dict.keys schema)) k
        ≡ (if Dict.contains schema k then some (f k) else none)
  unfolding Dict.get
  get-pairs [] k = refl
  get-pairs ((n, t) ∷ schema) k = ground (arith, get-pairs schema k, text_keys.test_iff n k)

  pairs-IsDistinct :
      (schema : Dict String String)
      → Dict.IsDistinct schema
      → Dict.IsDistinct (map (λ n. (n, f n)) (Dict.keys schema))
  pairs-IsDistinct [] h = tt
  pairs-IsDistinct ((n, t) ∷ schema) h =
      ground (arith, pairs-IsDistinct schema h.1, get-pairs schema n)

module _ {V : Type 0} ⦃o : Object V⦄ (c : Cells V) where
  -- `value.get(k) is None`
  abbrev pub is_none_at : Option V → Bool
  is_none_at none = true
  is_none_at (some v) = c.is_none v

  -- each declared column keeps the cell of the value, or the None in its place, as it is
  unfoldable pub Fits : Dict String String → Fields V → Type 0
  Fits [] value = Unit {0}
  Fits ((name, dtype) ∷ schema) value =
      (c.column dtype (or_none c (Dict.get value name)) ≡ or_none c (Dict.get value name))
      × Fits schema value

  keep_cells-Fits :
      (schema : Dict String String) (value : Fields V) (rest : List V)
      → Fits schema value
      → keep_cells c (Dict.values schema) (known_of c (Dict.keys schema) value ++ rest)
        ≡ known_of c (Dict.keys schema) value ++ rest
  unfolding keep_cells Fits
  keep_cells-Fits [] value rest h = refl
  keep_cells-Fits ((name, dtype) ∷ schema) value rest h =
      ground (arith, h.0, keep_cells-Fits schema value rest h.1)

  pub kept_row-Fits :
      (schema : Dict String String) (value : Fields V)
      → Fits schema value
      → kept_row c schema value ≡ value_to_row c schema value
  unfolding kept_row value_to_row
  kept_row-Fits schema value h =
      keep_cells-Fits schema value (extra_cell c (extra_of c schema value) ∷ []) h

  -- the cell where a reader without the schema expects the overflow: that of the first declared column
  abbrev pub first_cell : Dict String String → Fields V → V
  first_cell [] value = extra_cell c (extra_of c [] value)
  first_cell ((name, dtype) ∷ schema) value = c.column dtype (or_none c (Dict.get value name))

  -- what such a reader does with a row
  pub reopened_row :
      (schema : Dict String String) (value : Fields V)
      → row_to_value c [] (kept_row c schema value) ≡ add_extra c (first_cell schema value) []
  unfolding row_to_value kept_row value_to_row Dict.of_pairs
  reopened_row [] value = refl
  reopened_row ((name, dtype) ∷ schema) value = refl

module _ {V : Type 0} ⦃o : Object V⦄ (c : Cells V) (json : IsJson c) where
  add_extra-dumps :
      (value extra : Fields V)
      → Dict.IsDistinct extra
      → (value' : Fields V) × (add_extra c (extra_cell c extra) value ≡ ok value')
        × ((k : String)
            → Dict.get value' k
              ≡ (if Dict.contains extra k then Dict.get extra k else Dict.get value k))
  unfolding add_extra Dict.get
  add_extra-dumps value [] h = (value, ground (arith, json.none_is_false), λ k. refl)
  add_extra-dumps value (f ∷ extra) h = (
    Dict.update value (f ∷ extra),
    ground (arith, json.text_is_true (f ∷ extra), json.loads-dumps (f ∷ extra)),
    λ k. Laws.get-update value (f ∷ extra) k h,
  )

  is_none-or_none : (x : Option V) → c.is_none (or_none c x) ≡ is_none_at c x
  is_none-or_none none = json.none_is_none
  is_none-or_none (some v) = refl

  -- the declared fields that are not None
  known : Dict String String → Fields V → Fields V
  known schema value =
      without_none c (map (λ k. (k, or_none c (Dict.get value k))) (Dict.keys schema))

  get-known :
      (schema : Dict String String) (value : Fields V) (k : String)
      → Dict.IsDistinct schema
      → Dict.get (known schema value) k ≡ (
          if Dict.contains schema k && not (is_none_at c (Dict.get value k))
          then Dict.get value k
          else none)
  unfolding known
  get-known schema value k hs =
      let f = λ (j : String). or_none c (Dict.get value j) in
      ground (
        arith,
        get-select (λ v. not (c.is_none v)) _ k (pairs-IsDistinct f (o.none_value) schema hs),
        get-pairs f o.none_value schema k,
        is_none-or_none (Dict.get value k),
      )

  -- A row that has been written reads as its declared fields with the overflow added.
  row_to_value-known :
      (schema : Dict String String) (value : Fields V)
      → Dict.IsDistinct schema
      → row_to_value c schema (value_to_row c schema value)
        ≡ add_extra c (extra_cell c (extra_of c schema value)) (known schema value)
  unfolding row_to_value value_to_row known
  row_to_value-known schema value hs =
      let f = λ (j : String). or_none c (Dict.get value j) in
      let last = extra_cell c (extra_of c schema value) in
      ground (
        arith,
        zip_cells-map f last (Dict.keys schema),
        cell_at-last f last (Dict.keys schema),
        Order.of_pairs_distinct _ (pairs-IsDistinct f last schema hs),
      )

  -- Of a value that has been stored in a row with distinct declared columns, every field reads back
  -- but the declared ones that are None, and no other field does.
  pub row_to_value-value_to_row :
      (schema : Dict String String) (value : Fields V)
      → Dict.IsDistinct schema
      → Dict.IsDistinct value
      → (value' : Fields V) × (row_to_value c schema (value_to_row c schema value) ≡ ok value')
        × ((k : String)
            → Dict.get value' k ≡ (
                if Dict.contains schema k && is_none_at c (Dict.get value k)
                then none
                else Dict.get value k))
  unfolding row_to_value value_to_row
  row_to_value-value_to_row schema value hs hv =
      let added =
        add_extra-dumps (known schema value) (extra_of c schema value)
          (select_keys-IsDistinct (λ k. not (Dict.contains schema k)) value hv) in
      (
        added.0,
        row_to_value-known schema value hs ∙ added.1,
        λ k. ground (
          arith,
          added.2 k,
          get-select_keys (λ j. not (Dict.contains schema j)) value k,
          get-known schema value k hs,
        ),
      )
