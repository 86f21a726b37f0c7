-- ===== src/Store/Keys.antt =====
-- `split_present_missing` of persista/store/keys.py.
use mathlib.Core.List.{append-nil, append_assoc}
use persista.Common.{
  Bool, Bool-cases, inl, inr, true, false, not, String, List, [], ◌∷◌, ◌++◌, ◌≡◌, refl, map, select,
  Result, ok, err, value_error,
}

module _ {A : Type 0} where
  -- the loop over zip(keys, flags, strict=True)
  unfoldable pub split_from : List A → List Bool → List A → List A → Result (List A × List A)
  split_from [] [] present missing = ok (present, missing)
  split_from (key ∷ keys) (true ∷ flags) present missing =
      split_from keys flags (present ++ key ∷ []) missing
  split_from (key ∷ keys) (false ∷ flags) present missing =
      split_from keys flags present (missing ++ key ∷ [])
  split_from _ _ present missing = err value_error

unfoldable pub split_present_missing : List String → List Bool → Result (List String × List String)
unfolding split_from
split_present_missing keys flags = split_from keys flags [] []

module _ {A : Type 0} (p : A → Bool) where
  split_from-select :
      (keys present missing : List A)
      → split_from keys (map p keys) present missing
        ≡ ok (present ++ select p keys, missing ++ select (λ k. not (p k)) keys)
  unfolding split_from
  split_from-select [] present missing = rw (append-nil present, append-nil missing) refl
  split_from-select (k ∷ keys) present missing = elim (Bool-cases (p k)) [
    | inl e ↦ rw (e, split_from, split_from-select keys, append_assoc) refl
    | inr e ↦ rw (e, split_from, split_from-select keys, append_assoc) refl
  ]

-- Given the flags of a test on the keys, split_present_missing returns the keys that pass it and
-- those that do not, each in their order.
pub split_present_missing-select :
    (p : String → Bool) (keys : List String)
    → split_present_missing keys (map p keys) ≡ ok (select p keys, select (λ k. not (p k)) keys)
unfolding split_present_missing
split_present_missing-select p keys = split_from-select p keys [] []
