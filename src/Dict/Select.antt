-- ===== src/Dict/Select.antt =====
-- Dict comprehensions with a condition.
use persista.Common.{
  Bool, false, String, text_keys, none, some, [], ◌∷◌, ◌≡◌, refl, select, if◌then◌else◌, arith,
}
use persista.Dict
use persista.Dict.{Dict}

-- a dict comprehension with a condition on the value
module _ {A : Type 0} (p : A → Bool) where
  select_absent :
      (d : Dict String A) (k : String)
      → Dict.contains d k ≡ false
      → Dict.contains (select (λ e. p e.1) d) k ≡ false
  unfolding Dict.get
  select_absent [] k h = refl
  select_absent ((j, v) ∷ d) k h = ground (arith, select_absent d k)

  pub select-IsDistinct :
      (d : Dict String A) → Dict.IsDistinct d → Dict.IsDistinct (select (λ e. p e.1) d)
  select-IsDistinct [] h = tt
  select-IsDistinct ((j, v) ∷ d) h = ground (arith, select-IsDistinct d h.1, select_absent d j h.0)

  pub get-select :
      (d : Dict String A) (k : String)
      → Dict.IsDistinct d
      → Dict.get (select (λ e. p e.1) d) k
        ≡ elim (Dict.get d k) [ none ↦ none | some a ↦ if p a then some a else none ]
  unfolding Dict.get
  get-select [] k h = refl
  get-select ((j, v) ∷ d) k h =
      ground (arith, text_keys.test_iff j k, get-select d k h.1, select_absent d j h.0)

-- a dict comprehension with a condition on the key
module _ {A : Type 0} (p : String → Bool) where
  pub get-select_keys :
      (d : Dict String A) (k : String)
      → Dict.get (select (λ e. p e.0) d) k ≡ (if p k then Dict.get d k else none)
  unfolding Dict.get
  get-select_keys [] k = ground arith
  get-select_keys ((j, v) ∷ d) k = ground (arith, get-select_keys d k, text_keys.test_iff j k)

  pub select_keys-IsDistinct :
      (d : Dict String A) → Dict.IsDistinct d → Dict.IsDistinct (select (λ e. p e.0) d)
  select_keys-IsDistinct [] h = tt
  select_keys-IsDistinct ((j, v) ∷ d) h =
      ground (arith, select_keys-IsDistinct d h.1, get-select_keys d j)
