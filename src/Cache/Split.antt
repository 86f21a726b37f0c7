-- ===== src/Cache/Split.antt =====
-- `split_get_many` and `split_try_get_many` of persista/cache/utils.py.
use mathlib.Core.List.{append_assoc, append-nil, Memᴰ}
use persista.Common.{
  Bool, Bool-cases, inl, inr, not, String, text_keys, none, some, List, [], ◌∷◌, ◌++◌, ◌≡◌, refl,
  select, Result, ok, err, key_error, if◌then◌else◌,
}
use persista.Dict
use persista.Dict.{Dict}

module _ {A : Type 0} where
  -- `is_default v` is `v is default`; values[key] raises KeyError for a key that is not there.
  unfoldable pub split_values :
      (A → Bool)
      → List String
      → Dict String A
      → List String
      → List String
      → Result (List String × List String)
  split_values is_default [] values present missing = ok (present, missing)
  split_values is_default (key ∷ keys) values present missing =
      let as_present = split_values is_default keys values (present ++ key ∷ []) missing in
      let as_missing = split_values is_default keys values present (missing ++ key ∷ []) in
      elim (Dict.get values key) [
        | none ↦ err (key_error (key ∷ []))
        | some v ↦ if is_default v then as_missing else as_present
      ]

  unfoldable pub split_get_many :
      (A → Bool) → List String → Dict String A → Result (List String × List String)
  unfolding split_values
  split_get_many is_default keys values = split_values is_default keys values [] []

  -- the loop of split_try_get_many
  unfoldable pub split_keys :
      List String → Dict String A → List String → List String → List String × List String
  split_keys [] values present missing = (present, missing)
  split_keys (key ∷ keys) values present missing =
      let as_present = split_keys keys values (present ++ key ∷ []) missing in
      let as_missing = split_keys keys values present (missing ++ key ∷ []) in
      if Dict.contains values key then as_present else as_missing

  unfoldable pub split_try_get_many : List String → Dict String A → List String × List String
  unfolding split_keys
  split_try_get_many keys values = split_keys keys values [] []

module _ {A : Type 0} where
  split_keys-select :
      (keys : List String) (values : Dict String A) (present missing : List String)
      → split_keys keys values present missing ≡ (
        present ++ select (Dict.contains values) keys,
        missing ++ select (λ k. not (Dict.contains values k)) keys,
      )
  unfolding split_keys
  split_keys-select [] values present missing = rw (append-nil present, append-nil missing) refl
  split_keys-select (k ∷ keys) values present missing = elim (Bool-cases (Dict.contains values k)) [
    | inl e ↦ rw (e, split_keys-select keys values, append_assoc) refl
    | inr e ↦ rw (e, split_keys-select keys values, append_assoc) refl
  ]

  split_values-select :
      (is_default : A → Bool) (values : String → A) (keys : List String) (d : Dict String A)
      (present missing : List String)
      → ((k : String) → Memᴰ k keys → Dict.get d k ≡ some (values k))
      → split_values is_default keys d present missing
        ≡ ok (
          present ++ select (λ k. not (is_default (values k))) keys,
          missing ++ select (λ k. is_default (values k)) keys,
        )
  unfolding split_values
  split_values-select is_default values [] d present missing h =
      rw (append-nil present, append-nil missing) refl
  split_values-select is_default values (k ∷ keys) d present missing h =
      let below : (j : String) → Memᴰ j keys → Dict.get d j ≡ some (values j) =
        λ j i. h j (Memᴰ.tail i) in
      elim (Bool-cases (is_default (values k))) [
        | inl e ↦
            rw
              (
                split_values,
                h k (Memᴰ.head refl),
                e,
                split_values-select is_default values keys d present (missing ++ k ∷ []) below,
                append_assoc,
              )
              refl
        | inr e ↦
            rw
              (
                split_values,
                h k (Memᴰ.head refl),
                e,
                split_values-select is_default values keys d (present ++ k ∷ []) missing below,
                append_assoc,
              )
              refl
      ]

  -- split_try_get_many returns the keys that have a hit and those that have none, each in their
  -- order.
  pub split_try_get_many-select :
      (keys : List String) (hits : Dict String A)
      → split_try_get_many keys hits
        ≡ (select (Dict.contains hits) keys, select (λ k. not (Dict.contains hits k)) keys)
  unfolding split_try_get_many
  split_try_get_many-select keys hits = split_keys-select keys hits [] []

  -- If the dict has every key, split_get_many returns the keys whose value is not the default and
  -- those whose value is, each in their order.
  pub split_get_many-select :
      (is_default : A → Bool) (values : String → A) (keys : List String) (d : Dict String A)
      → ((k : String) → Memᴰ k keys → Dict.get d k ≡ some (values k))
      → split_get_many is_default keys d
        ≡ ok (
          select (λ k. not (is_default (values k))) keys,
          select (λ k. is_default (values k)) keys,
        )
  unfolding split_get_many
  split_get_many-select is_default values keys d h =
      split_values-select is_default values keys d [] [] h
