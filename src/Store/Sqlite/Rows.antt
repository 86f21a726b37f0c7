-- ===== src/Store/Sqlite/Rows.antt =====
-- What the loops of persista/store/sqlite.py over rows and chunks find in the table.
use persista.Common.{
  ℕ, Bool, true, false, String, text_keys, Option, none, some, List, [], ◌∷◌, ◌++◌, map, ◌≡◌, refl,
  ◌&&◌, ◌||◌, ok, is_some, concat, if◌then◌else◌, arith,
}
use persista.Dict
use persista.Dict.{Dict}
use persista.Dict.Laws
use persista.Store.Types.{OnConflict, Fields}
use persista.Store.Spec
use persista.Store.Batching.{IsBounded}
use persista.Store.Conflicts.{member}
use persista.Store.Conflicts.Members.{member-keys}
use persista.Store.Engine.{Engine, IsEngine}
use persista.Store.Sqlite.{
  Layout, value_of_row, values_of_rows, collect, existing_in, delete_chunks, rows_of,
}

pub member-append :
    (xs ys : List String) (k : String) → member (xs ++ ys) k ≡ (member xs k || member ys k)
unfolding member
member-append [] ys k = refl
member-append (x ∷ xs) ys k = ground (arith, member-append xs ys k)

-- functions that agree on the members of a list
pub map-agree :
    {B : Type 0} (f g : String → B) (ks : List String)
    → ((k : String) → member ks k ≡ true → f k ≡ g k)
    → map f ks ≡ map g ks
unfolding member
map-agree f g [] h = refl
map-agree f g (k ∷ ks) h = cc (
  h k (ground (arith, text_keys.test_iff k k)),
  map-agree f g ks (λ j m. h j (ground (arith, m))),
)

-- What a subclass writes can be read again: every row reads as a value, and the row that is made of
-- a value reads as that value.
pub record IsCodec {R V : Type 0} (layout : Layout R V) (decode : R → Fields V) : Type 0 where
  pub reads_row : (r : R) → layout.row_to_value r ≡ ok (decode r)
  pub round_trip : (value : Fields V) → decode (layout.to_row value) ≡ value

-- the value of a row, if there is one
abbrev pub decoded : {R V : Type 0} → (R → Fields V) → Option R → Option (Fields V)
decoded decode none = none
decoded decode (some r) = some (decode r)

module _ {R V : Type 0} (e : Engine R V) (layout : Layout R V) {decode : R → Fields V}
    (codec : IsCodec layout decode) where
  abbrev pub decode_rows : Dict String R → Dict String (Fields V)
  decode_rows = map (λ r. (r.0, decode r.1))

  pub values_of_rows-decode :
      (rows : Dict String R) → values_of_rows e layout rows ≡ ok (decode_rows rows)
  unfolding values_of_rows
  values_of_rows-decode [] = refl
  values_of_rows-decode ((k, r) ∷ rows) =
      ground (arith, codec.reads_row r, values_of_rows-decode rows)

  pub value_of_row-decoded : (row : Option R) → value_of_row e layout row ≡ ok (decoded decode row)
  unfolding value_of_row
  value_of_row-decoded none = refl
  value_of_row-decoded (some r) = ground (arith, codec.reads_row r)

  pub get-decode_rows :
      (rows : Dict String R) (k : String)
      → Dict.get (decode_rows rows) k ≡ decoded decode (Dict.get rows k)
  unfolding Dict.get
  get-decode_rows [] k = refl
  get-decode_rows ((j, r) ∷ rows) k = ground (arith, get-decode_rows rows k)

  pub decode_rows-IsDistinct :
      (rows : Dict String R) → Dict.IsDistinct rows → Dict.IsDistinct (decode_rows rows)
  decode_rows-IsDistinct [] h = tt
  decode_rows-IsDistinct ((k, r) ∷ rows) h =
      ground (arith, decode_rows-IsDistinct rows h.1, get-decode_rows rows k)

  pub get-rows_of :
      (items : Dict String (Fields V)) (k : String)
      → decoded decode (Dict.get (rows_of e layout items) k) ≡ Dict.get items k
  unfolding Dict.get
  get-rows_of [] k = refl
  get-rows_of ((j, v) ∷ items) k = ground (arith, get-rows_of items k, codec.round_trip v)

  pub rows_of-IsDistinct :
      (items : Dict String (Fields V))
      → Dict.IsDistinct items
      → Dict.IsDistinct (rows_of e layout items)
  rows_of-IsDistinct [] h = tt
  rows_of-IsDistinct ((k, v) ∷ items) h =
      ground (arith, rows_of-IsDistinct items h.1, get-rows_of items k)

  module _ {limit : ℕ} (laws : IsEngine limit e) (d : e.Db) where
    pub collect-lem :
        (chunks : List (List String)) (by_key : Dict String (Fields V))
        → IsBounded limit chunks
        → (found : Dict String (Fields V)) × (collect e layout d chunks by_key ≡ ok found)
          × ((k : String)
              → Dict.get found k ≡ (
                  if member (concat chunks) k && is_some (e.fetch d k)
                  then decoded decode (e.fetch d k)
                  else Dict.get by_key k))
    unfolding collect member
    collect-lem [] by_key h = (by_key, refl, λ k. refl)
    collect-lem (ks ∷ chunks) by_key h =
        let rows = e.fetch_in d ks in
        let (found, c, g) = collect-lem chunks (Dict.update by_key (decode_rows rows)) h.1 in
        (
          found,
          rw (collect, values_of_rows-decode rows) c,
          λ k. ground (
            arith,
            g k,
            Laws.get-update by_key (decode_rows rows) k
                (decode_rows-IsDistinct rows (laws.rows_in_IsDistinct d ks h.0)),
            get-decode_rows rows k,
            laws.get_row_in d ks k h.0,
            member-append ks (concat chunks) k,
          ),
        )

    pub member-existing_in :
        (chunks : List (List String)) (existing : List String) (k : String)
        → IsBounded limit chunks
        → member (existing_in e layout d chunks existing) k
          ≡ (member existing k || (member (concat chunks) k && is_some (e.fetch d k)))
    unfolding existing_in member
    member-existing_in [] existing k h = ground arith
    member-existing_in (ks ∷ chunks) existing k h = ground (
      arith,
      member-existing_in chunks (existing ++ Dict.keys (e.fetch_in d ks)) k h.1,
      member-append existing (Dict.keys (e.fetch_in d ks)) k,
      member-append ks (concat chunks) k,
      member-keys (e.fetch_in d ks) k,
      laws.get_row_in d ks k h.0,
    )

  pub fetch-delete_chunks :
      {limit : ℕ} (laws : IsEngine limit e) (chunks : List (List String)) (d : e.Db) (k : String)
      → IsBounded limit chunks
      → e.fetch (delete_chunks e layout chunks d) k
        ≡ (if member (concat chunks) k then none else e.fetch d k)
  unfolding delete_chunks member
  fetch-delete_chunks laws [] d k h = refl
  fetch-delete_chunks laws (ks ∷ chunks) d k h = ground (
    arith,
    fetch-delete_chunks laws chunks (e.delete_in d ks) k h.1,
    laws.fetch_delete_in d ks k h.0,
    member-append ks (concat chunks) k,
  )

  pub fetch-replace-rows_of :
      {limit : ℕ} (laws : IsEngine limit e) (d : e.Db) (items : Dict String (Fields V)) (k : String)
      → Dict.IsDistinct items
      → decoded decode (e.fetch (e.replace d (rows_of e layout items)) k)
        ≡ Spec.after_write OnConflict.overwrite items (λ j. decoded decode (e.fetch d j)) k
  unfolding Spec.after_write Spec.resolved
  fetch-replace-rows_of laws d items k h = ground (
    arith,
    laws.fetch_replace d (rows_of e layout items) k (rows_of-IsDistinct items h),
    get-rows_of items k,
  )

  pub decoded_if :
      (b : Bool) (row : Option R)
      → decoded decode (if b then none else row) ≡ (if b then none else decoded decode row)
  decoded_if true row = refl
  decoded_if false row = refl

  pub decoded-delete_chunks :
      {limit : ℕ} (laws : IsEngine limit e) (chunks : List (List String)) (ks : List String)
      (d : e.Db) (k : String)
      → concat chunks ≡ ks
      → IsBounded limit chunks
      → decoded decode (e.fetch (delete_chunks e layout chunks d) k)
        ≡ (if member ks k then none else decoded decode (e.fetch d k))
  decoded-delete_chunks laws chunks ks d k covers bounded =
      rw (fetch-delete_chunks laws chunks d k bounded, covers)
        (decoded_if (member ks k) (e.fetch d k))
