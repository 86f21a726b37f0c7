-- ===== src/Record/Analysis/Groups.antt =====
-- What the grouping analyses of persista/record/analysis/ (dedup.py and schema_shapes.py) report.
use mathlib.Core.List.{Memᴰ}
use mathlib.Core.List.Memᴰ
use mathlib.Core.List.{append-nil, append_assoc}
use persista.Common.{
  Bool, true, false, String, Option, none, some, List, [], ◌∷◌, ◌++◌, ◌≡◌, ◌↔◌, refl, sym, ◌∙◌, map,
  ◌==◌, ==_refl, Keys, Bool-cases, inl, inr, select, length, ltb, if◌then◌else◌, arith,
}
use persista.Common.Equality.{texts_keys}
use persista.Dict
use persista.Dict.{Dict}
use persista.Dict.Laws
use persista.Store.Types.{Fields}
use persista.Record.{Record}
use persista.Record.Analysis.{
  group_at, append_to, group_ids, find_duplicate_record_ids, compute_schema_shapes, shape,
}

-- a group, where there is one
pub group_of : List String → Option (List String)
group_of [] = none
group_of (i ∷ ids) = some (i ∷ ids)

module _ {V H : Type 0} ⦃e : Keys H⦄ (key : Record V → H) where
  -- the ids of the records with one key, in order
  pub ids_with : List (Record V) → H → List String
  ids_with records k = map (λ r. r.id) (select (λ r. key r == k) records)

  get-group_ids :
      (records : List (Record V)) (d : Dict H (List String)) (k : H)
      → Dict.get (group_ids key records d) k ≡ elim (Dict.get d k) [
        | none ↦ group_of (ids_with records k)
        | some group ↦ some (group ++ ids_with records k)
      ]
  unfolding group_ids ids_with group_of
  get-group_ids [] d k = grind (arith, append-nil)
  get-group_ids (r ∷ records) d k = grind (
    arith,
    get-group_ids records (append_to d (key r) r.id) k,
    Laws.get-set d (key r) k (group_at d (key r) ++ r.id ∷ []),
    e.test_iff (key r) k,
    append_assoc,
  )

  group_ids-IsDistinct :
      (records : List (Record V)) (d : Dict H (List String))
      → Dict.IsDistinct d
      → Dict.IsDistinct (group_ids key records d)
  unfolding group_ids
  group_ids-IsDistinct [] d h = h
  group_ids-IsDistinct (r ∷ records) d h =
      group_ids-IsDistinct records _ (Laws.set-IsDistinct d (key r) _ h)

module _ {A : Type 0} (p : A → Bool) where
  select-mem : (xs : List A) {a : A} → Memᴰ a xs → p a ≡ true → Memᴰ a (select p xs)
  select-mem [] m t = absurd (Memᴰ.not-nil m)
  select-mem (x ∷ xs) {a} (Memᴰ.head e) t =
      let q : p x ≡ true = ground (arith, e, t) in rw q (Memᴰ.head e)
  select-mem (x ∷ xs) (Memᴰ.tail m) t = elim (Bool-cases (p x)) [
    | inl q ↦ rw q (Memᴰ.tail (select-mem xs m t))
    | inr q ↦ rw q (select-mem xs m t)
  ]

  mem-select_of :
      (x : A) (xs : List A) {a : A} (b : Bool)
      → (Memᴰ a (select p xs) → Memᴰ a xs × (p a ≡ true))
      → p x ≡ b
      → Memᴰ a (if b then x ∷ select p xs else select p xs)
      → Memᴰ a (x ∷ xs) × (p a ≡ true)
  mem-select_of x xs true below q (Memᴰ.head h) = (Memᴰ.head h, ground (arith, q, h))
  mem-select_of x xs true below q (Memᴰ.tail m) = let (m', t) = below m in (Memᴰ.tail m', t)
  mem-select_of x xs false below q m = let (m', t) = below m in (Memᴰ.tail m', t)

  mem-select : (xs : List A) {a : A} → Memᴰ a (select p xs) → Memᴰ a xs × (p a ≡ true)
  mem-select [] m = absurd (Memᴰ.not-nil m)
  mem-select (x ∷ xs) m = mem-select_of x xs (p x) (λ m'. mem-select xs m') refl m

module _ {K A : Type 0} ⦃e : Keys K⦄ where
  -- what is found under a key is a value
  value_of_get : (d : Dict K A) (k : K) {a : A} → Dict.get d k ≡ some a → Memᴰ a (Dict.values d)
  unfolding Dict.get
  value_of_get [] k g = absurd (ground (arith, g))
  value_of_get ((j, v) ∷ d) k {a} g = elim (Bool-cases (j == k)) [
    | inl q ↦ Memᴰ.head (ground (arith, g, q))
    | inr q ↦ Memᴰ.tail (value_of_get d k (ground (arith, g, q)))
  ]

  -- and every value is found
  get_of_value :
      (d : Dict K A) {a : A}
      → Dict.IsDistinct d
      → Memᴰ a (Dict.values d)
      → (k : K) × (Dict.get d k ≡ some a)
  unfolding Dict.get
  get_of_value [] h m = absurd (Memᴰ.not-nil m)
  get_of_value ((j, v) ∷ d) h (Memᴰ.head q) = (j, ground (arith, q, ==_refl j))
  get_of_value ((j, v) ∷ d) {a} h (Memᴰ.tail m) =
      let (k, g) = get_of_value d h.1 m in (k, ground (arith, g, e.test_iff j k, h.0))

-- a group of more than one id is there
group_of_eq : (ids : List String) → ltb 1 (length ids) ≡ true → group_of ids ≡ some ids
unfolding group_of
group_of_eq [] h = absurd (ground (arith, h))
group_of_eq (i ∷ ids) h = refl

group_of-some : (ids : List String) {g : List String} → group_of ids ≡ some g → ids ≡ g
unfolding group_of
group_of-some [] h = absurd (ground (arith, h))
group_of-some (i ∷ ids) h = ground (arith, h)

module _ {V : Type 0} where
  abbrev groups :
      {H : Type 0} ⦃e : Keys H⦄ → (Fields V → H) → List (Record V) → Dict H (List String)
  groups hash_object records = group_ids (λ r. hash_object r.metadata) records []

  -- A group is reported by find_duplicate_record_ids exactly if it is the list of the ids of all the
  -- records with some metadata hash, in the order of the records, and has more than one member.
  pub find_duplicate_record_ids-groups :
      {H : Type 0} ⦃e : Keys H⦄ (hash_object : Fields V → H) (records : List (Record V))
      (group : List String)
      → Memᴰ group (find_duplicate_record_ids hash_object records) ↔ (
          (h : H) × (ids_with (λ r. hash_object r.metadata) records h ≡ group)
          × (ltb 1 (length group) ≡ true))
  unfolding find_duplicate_record_ids Dict.get
  find_duplicate_record_ids-groups hash_object records group = (
    (λ m.
        let (m', long) = mem-select (λ g. ltb 1 (length g)) _ m in
        let (h, g) =
          get_of_value (groups hash_object records)
            (group_ids-IsDistinct (λ r. hash_object r.metadata) records [] tt) m' in
        (
          h,
          group_of-some _ (sym (get-group_ids (λ r. hash_object r.metadata) records [] h) ∙ g),
          long,
        )),
    (λ (h, q, long).
        select-mem (λ g. ltb 1 (length g)) _
          (value_of_get (groups hash_object records) h (
            get-group_ids (λ r. hash_object r.metadata) records [] h
            ∙ rw q (group_of_eq group long)))
          long),
  )

  -- compute_schema_shapes maps every shape that a record has to the ids of the records with that
  -- shape, in the order of the records, and has no other key.
  pub get-compute_schema_shapes :
      (records : List (Record V)) (s : List String)
      → Dict.get (compute_schema_shapes records) s ≡ group_of (ids_with shape records s)
  unfolding compute_schema_shapes Dict.get
  get-compute_schema_shapes records s = get-group_ids shape records [] s
