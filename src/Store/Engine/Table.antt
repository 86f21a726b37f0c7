-- ===== src/Store/Engine/Table.antt =====
-- One engine that keeps the laws: a table as a dict.
use persista.Common.{
  ℕ, ◌≡◌, refl, String, text_keys, none, some, List, [], ◌∷◌, if◌then◌else◌, arith, take, drop,
  select, suc, true, length, ◌==◌, text_less, text_less-asym,
}
use persista.Dict
use persista.Dict.{Dict}
use persista.Dict.Laws
use persista.Store.Conflicts.{member}
use persista.Store.Engine.{Engine, IsEngine, IsAscending, Created}

module _ {R : Type 0} where
  rows_in : Dict String R → List String → Dict String R
  rows_in d ks = select (λ r. member ks r.0) d

  get-rows_in :
      (d : Dict String R) (ks : List String) (k : String)
      → Dict.get (rows_in d ks) k ≡ (if member ks k then Dict.get d k else none)
  unfolding rows_in Dict.get
  get-rows_in [] ks k = ground arith
  get-rows_in ((j, r) ∷ d) ks k = ground (arith, get-rows_in d ks k, text_keys.test_iff j k)

  rows_in-IsDistinct :
      (d : Dict String R) (ks : List String) → Dict.IsDistinct d → Dict.IsDistinct (rows_in d ks)
  unfolding rows_in
  rows_in-IsDistinct [] ks h = tt
  rows_in-IsDistinct ((j, r) ∷ d) ks h =
      ground (arith, rows_in-IsDistinct d ks h.1, get-rows_in d ks j)

  unfoldable pub drop_in : Dict String R → List String → Dict String R
  drop_in d [] = d
  drop_in d (k ∷ ks) = drop_in (Dict.pop d k) ks

  pub get-drop_in :
      (d : Dict String R) (ks : List String) (k : String)
      → Dict.get (drop_in d ks) k ≡ (if member ks k then none else Dict.get d k)
  unfolding drop_in member
  get-drop_in d [] k = refl
  get-drop_in d (j ∷ ks) k = ground (arith, get-drop_in (Dict.pop d j) ks k, Laws.get-pop d j k)

  pub drop_in-IsDistinct :
      (d : Dict String R) (ks : List String) → Dict.IsDistinct d → Dict.IsDistinct (drop_in d ks)
  unfolding drop_in
  drop_in-IsDistinct d [] h = h
  drop_in-IsDistinct d (k ∷ ks) h = drop_in-IsDistinct (Dict.pop d k) ks (Laws.pop-IsDistinct d k h)

  get-update_elim :
      (d rows : Dict String R) (k : String)
      → Dict.IsDistinct rows
      → Dict.get (Dict.update d rows) k
        ≡ elim (Dict.get rows k) [ none ↦ Dict.get d k | some r ↦ some r ]
  get-update_elim d rows k h = ground (arith, Laws.get-update d rows k h)

-- the rows in the order of their keys
module _ {R : Type 0} where
  unfoldable pub insert_row : String → R → Dict String R → Dict String R
  insert_row k r [] = (k, r) ∷ []
  insert_row k r ((j, q) ∷ d) =
      let rest = insert_row k r d in if text_less j k then (j, q) ∷ rest else (k, r) ∷ (j, q) ∷ d

  unfoldable pub sort_rows : Dict String R → Dict String R
  unfolding insert_row
  sort_rows [] = []
  sort_rows ((k, r) ∷ d) = insert_row k r (sort_rows d)

  get-insert_row :
      (k : String) (r : R) (d : Dict String R) (i : String)
      → Dict.get d k ≡ none
      → Dict.get (insert_row k r d) i ≡ (if k == i then some r else Dict.get d i)
  unfolding insert_row Dict.get
  get-insert_row k r [] i h = refl
  get-insert_row k r ((j, q) ∷ d) i h = ground (
    arith,
    get-insert_row k r d i,
    h,
    text_keys.test_iff k i,
    text_keys.test_iff j i,
    text_keys.test_iff j k,
  )

  length-insert_row :
      (k : String) (r : R) (d : Dict String R) → length (insert_row k r d) ≡ suc (length d)
  unfolding insert_row
  length-insert_row k r [] = refl
  length-insert_row k r ((j, q) ∷ d) = ground (arith, length-insert_row k r d)

  insert_row-IsDistinct :
      (k : String) (r : R) (d : Dict String R)
      → Dict.get d k ≡ none
      → Dict.IsDistinct d
      → Dict.IsDistinct (insert_row k r d)
  unfolding insert_row Dict.get
  insert_row-IsDistinct k r [] h t = (refl, tt)
  insert_row-IsDistinct k r ((j, q) ∷ d) h t = ground (
    arith,
    insert_row-IsDistinct k r d,
    get-insert_row k r d j,
    h,
    t.0,
    t.1,
    text_keys.test_iff j k,
    text_keys.test_iff k j,
  )

  insert_row-IsAscending :
      (k : String) (r : R) (d : Dict String R)
      → IsAscending (Dict.keys d)
      → IsAscending (Dict.keys (insert_row k r d))
  unfolding insert_row
  insert_row-IsAscending k r [] h = tt
  insert_row-IsAscending k r ((j, q) ∷ []) h = ground (arith, text_less-asym j k)
  insert_row-IsAscending k r ((j, q) ∷ (i, p) ∷ d) h =
      ground (arith, insert_row-IsAscending k r ((i, p) ∷ d) h.1, text_less-asym j k, h.0)

  get-sort_rows :
      (d : Dict String R) (i : String) → Dict.IsDistinct d → Dict.get (sort_rows d) i ≡ Dict.get d i
  unfolding sort_rows Dict.get
  get-sort_rows [] i h = refl
  get-sort_rows ((k, r) ∷ d) i h =
      ground (
        arith,
        get-insert_row k r (sort_rows d) i,
        get-sort_rows d i h.1,
        get-sort_rows d k h.1,
        h.0,
      )

  sort_rows-IsDistinct : (d : Dict String R) → Dict.IsDistinct d → Dict.IsDistinct (sort_rows d)
  unfolding sort_rows
  sort_rows-IsDistinct [] h = tt
  sort_rows-IsDistinct ((k, r) ∷ d) h =
      insert_row-IsDistinct k r (sort_rows d) (ground (arith, get-sort_rows d k h.1, h.0))
        (sort_rows-IsDistinct d h.1)

  length-sort_rows : (d : Dict String R) → length (sort_rows d) ≡ length d
  unfolding sort_rows
  length-sort_rows [] = refl
  length-sort_rows ((k, r) ∷ d) =
      ground (arith, length-insert_row k r (sort_rows d), length-sort_rows d)

  sort_rows-IsAscending : (d : Dict String R) → IsAscending (Dict.keys (sort_rows d))
  unfolding sort_rows
  sort_rows-IsAscending [] = tt
  sort_rows-IsAscending ((k, r) ∷ d) =
      insert_row-IsAscending k r (sort_rows d) (sort_rows-IsAscending d)

module _ {R V : Type 0} where
  unfoldable pub table : Engine R V
  unfolding rows_in drop_in sort_rows
  table = record {
    Db = (d : Dict String R) × Dict.IsDistinct d;
    connect = λ d. d;
    create_table = Created.created;
    has_table = λ d. true;
    fetch = λ d k. Dict.get d.0 k;
    fetch_in = λ d ks. rows_in d.0 ks;
    fetch_all = λ d. d.0;
    fetch_where = λ d conditions. [];
    fetch_page = λ d n o. take n (drop o (sort_rows d.0));
    replace = λ d rows. (Dict.update d.0 rows, Laws.update-IsDistinct d.0 rows d.1);
    delete = λ d k. (Dict.pop d.0 k, Laws.pop-IsDistinct d.0 k d.1);
    delete_in = λ d ks. (drop_in d.0 ks, drop_in-IsDistinct d.0 ks d.1);
    delete_all = λ d. ([], tt);
  }

  pub table-IsEngine : (limit : ℕ) → IsEngine limit table
  unfolding table Dict.get
  table-IsEngine limit = record {
    rows_IsDistinct = λ d. d.1;
    get_row = λ d k. refl;
    rows_in_IsDistinct = λ d ks h. rows_in-IsDistinct d.0 ks d.1;
    get_row_in = λ d ks k h. get-rows_in d.0 ks k;
    ordered = λ d. sort_rows d.0;
    ordered_IsAscending = λ d. sort_rows-IsAscending d.0;
    ordered_IsDistinct = λ d. sort_rows-IsDistinct d.0 d.1;
    get_ordered = λ d k. get-sort_rows d.0 k d.1;
    length-ordered = λ d. length-sort_rows d.0;
    page = λ d n o. refl;
    fetch_replace = λ d rows k h. get-update_elim d.0 rows k h;
    fetch_delete = λ d j k. Laws.get-pop d.0 j k;
    fetch_delete_in = λ d ks k h. get-drop_in d.0 ks k;
    fetch_delete_all = λ d k. refl;
  }
