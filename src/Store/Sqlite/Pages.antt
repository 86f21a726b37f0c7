-- ===== src/Store/Sqlite/Pages.antt =====
-- The loop of `iter_batches` of persista/store/sqlite.py ends, and reads every row once.
use mathlib.Core.List.{map-append, append-nil}
use persista.Common.{
  ℕ, zero, suc, ◌+◌, ◌<◌, ◌≤◌, pos, Bool-cases, inl, inr, true, false, String, text_keys, List, [],
  ◌∷◌, ◌++◌, ◌≡◌, refl, sym, ap, ◌∙◌, map, ok, concat, length, take, drop, length-take, length-drop,
  length-map, take-append-drop, ltb, arith,
}
use persista.Dict
use persista.Dict.{Dict}
use persista.Dict.Order
use persista.Store.Types.{Fields}
use persista.Store.Validation.{validate_batch_size}
use persista.Store.Batching.{IsBounded}
use persista.Store.Engine.{Engine, IsEngine, IsAscending}
use persista.Store.Sqlite.{SqliteStore, Layout, pages, iter_batches}
use persista.Store.Sqlite.Rows.{
  IsCodec, decode_rows, values_of_rows-decode, decode_rows-IsDistinct, get-decode_rows, decoded,
}

ltb_lt : (a b : ℕ) → ltb a b ≡ true → a < b
ltb_lt a b h = ground arith

module _ {A : Type 0} where
  drop-nil : (n : ℕ) → drop {A = A} n [] ≡ []
  drop-nil zero = refl
  drop-nil (suc n) = refl

  drop-drop : (o n : ℕ) (xs : List A) → drop n (drop o xs) ≡ drop (o + n) xs
  drop-drop zero n xs = let m : n ≡ 0 + n = omega arith in ap (λ (k : ℕ). drop k xs) m
  drop-drop (suc o) n [] = drop-nil n ∙ sym (drop-nil (suc o + n))
  drop-drop (suc o) n (x ∷ xs) =
      let m : suc (o + n) ≡ suc o + n = omega arith in
      drop-drop o n xs ∙ ap (λ (k : ℕ). drop k (x ∷ xs)) m

  take_short : (n : ℕ) (xs : List A) → length (take n xs) < n → take n xs ≡ xs
  take_short zero xs h = absurd (omega arith)
  take_short (suc n) [] h = refl
  take_short (suc n) (x ∷ xs) h = ap (λ ys. x ∷ ys) (take_short n xs (omega arith))

  nil_of_take : (n : ℕ) (xs : List A) → [] ≡ take (suc n) xs → xs ≡ []
  nil_of_take n [] h = refl
  nil_of_take n (x ∷ xs) h = cc

module _ {R V : Type 0} (e : Engine R V) (layout : Layout R V) {decode : R → Fields V}
    (codec : IsCodec layout decode) {limit : ℕ} (laws : IsEngine limit e) (d : e.Db) (n : ℕ) where
  -- the pages from an offset on, put together, are the rows from there on
  Reads : ℕ → ℕ → Type 0
  Reads rounds o =
      (batches : List (List (String × Fields V))) × (pages e layout rounds d (suc n) o
        ≡ ok (map Dict.of_pairs batches))
      × (concat batches ≡ decode_rows e layout codec (drop o (laws.ordered d)))
      × IsBounded (suc n) batches

  abbrev rows_from : ℕ → Dict String R
  rows_from o = drop o (laws.ordered d)

  bound :
      (o : ℕ) (row : String × R) (rest : Dict String R)
      → row ∷ rest ≡ take (suc n) (rows_from o)
      → length (decode_rows e layout codec (row ∷ rest)) ≤ suc n
  bound o row rest t = omega (
    arith,
    length-map {0, 0} {B = String × Fields V} (λ (r : String × R). (r.0, decode r.1)) (row ∷ rest),
    ap (length {0}) t,
    length-take {0} (suc n) (rows_from o),
  )

  fewer :
      (rounds o : ℕ) (row : String × R) (rest : Dict String R)
      → row ∷ rest ≡ take (suc n) (rows_from o)
      → length (rows_from o) < suc rounds
      → length (rows_from (o + suc n)) < rounds
  fewer rounds o row rest t h = omega (
    arith,
    ap (length {0}) t,
    length-take {0} (suc n) (rows_from o),
    length-drop {0} o (laws.ordered d),
    length-drop {0} (o + suc n) (laws.ordered d),
  )

  decode_join :
      (m o : ℕ)
      → decode_rows e layout codec (take m (rows_from o))
          ++ decode_rows e layout codec (rows_from (o + m))
        ≡ decode_rows e layout codec (rows_from o)
  decode_join m o =
      sym (
        map-append (λ (r : String × R). (r.0, decode r.1)) (take m (rows_from o))
          (rows_from (o + m)))
      ∙ ap (decode_rows e layout codec) (
          ap (λ ys. take m (rows_from o) ++ ys) (sym (drop-drop o m (laws.ordered d)))
          ∙ take-append-drop m (rows_from o))

  page_case :
      (rounds o : ℕ) (rows : Dict String R)
      → e.fetch_page d (suc n) o ≡ rows
      → rows ≡ take (suc n) (drop o (laws.ordered d))
      → length (drop o (laws.ordered d)) < suc rounds
      → (length (drop (o + suc n) (laws.ordered d)) < rounds → Reads rounds (o + suc n))
      → Reads (suc rounds) o
  unfolding Reads pages
  page_case rounds o [] f t h next =
      ([], rw (pages, f) refl, rw (nil_of_take n (drop o (laws.ordered d)) t) refl, tt)
  page_case rounds o (row ∷ rest) f t h next =
      elim (Bool-cases (ltb (length (row ∷ rest)) (suc n))) [
        | inl short ↦
            let whole : take (suc n) (rows_from o) ≡ rows_from o =
              take_short (suc n) (rows_from o) (rw (← t) (ltb_lt _ _ short)) in
            (
              decode_rows e layout codec (row ∷ rest) ∷ [],
              rw (pages, f, values_of_rows-decode e layout codec (row ∷ rest), short) refl,
              append-nil _ ∙ ap (decode_rows e layout codec) (t ∙ whole),
              (bound o row rest t, tt),
            )
        | inr full ↦
            let (batches, p, c, b) = next (fewer rounds o row rest t h) in
            (
              decode_rows e layout codec (row ∷ rest) ∷ batches,
              rw (pages, f, values_of_rows-decode e layout codec (row ∷ rest), full, p) refl,
              cc (c, ap (decode_rows e layout codec) t, decode_join (suc n) o),
              (bound o row rest t, b),
            )
      ]

  pages-lem : (rounds o : ℕ) → length (drop o (laws.ordered d)) < rounds → Reads rounds o
  pages-lem zero o h = absurd (omega arith)
  pages-lem (suc rounds) o h =
      page_case rounds o (e.fetch_page d (suc n) o) refl (laws.page d (suc n) o) h
        (λ h'. pages-lem rounds (o + suc n) h')

  keys-decode_rows :
      (rows : Dict String R) → Dict.keys (decode_rows e layout codec rows) ≡ Dict.keys rows
  keys-decode_rows [] = refl
  keys-decode_rows (row ∷ rows) = ground (arith, keys-decode_rows rows)

  -- what the batches hold, put together: every value once, in the order of the keys
  pub record HoldsInOrder (items : List (String × Fields V)) : Type 0 where
    pub ascending : IsAscending (Dict.keys items)
    pub distinct : Dict.IsDistinct items
    pub complete : (k : String) → Dict.get items k ≡ decoded decode (e.fetch d k)

  rows-HoldsInOrder : HoldsInOrder (decode_rows e layout codec (laws.ordered d))
  rows-HoldsInOrder = record {
    ascending = rw (keys-decode_rows (laws.ordered d)) (laws.ordered_IsAscending d);
    distinct = decode_rows-IsDistinct e layout codec (laws.ordered d) (laws.ordered_IsDistinct d);
    complete = λ k.
        ground (arith, get-decode_rows e layout codec (laws.ordered d) k, laws.get_ordered d k);
  }

  -- If each row reads as a value, and each row that a subclass writes as the value it was made of,
  -- iter_batches of an open store with a positive batch size ends after at most one page more than
  -- there are rows, and yields dicts of at most that size that hold, put together, every stored value
  -- once, in the order of the keys.
  pub iter_batches-ordered :
      (s : SqliteStore e.Db)
      → s.db ≡ d
      → s.closed ≡ false
      → (batches : List (Dict String (Fields V))) × (iter_batches e layout (pos (suc n)) s
          ≡ (ok batches, s))
        × HoldsInOrder (concat batches)
        × IsBounded (suc n) batches
  unfolding iter_batches validate_batch_size Reads
  iter_batches-ordered s q h =
      let (batches, p, c, b) =
        pages-lem (suc (length (e.fetch_all d))) 0 (omega (arith, laws.length-ordered d)) in
      let same : map Dict.of_pairs batches ≡ batches = Order.map-of_pairs batches (
        rw c
          (decode_rows-IsDistinct e layout codec (laws.ordered d) (laws.ordered_IsDistinct d))) in
      (batches, ground (arith, p, same, q, h), rw c rows-HoldsInOrder, b)
