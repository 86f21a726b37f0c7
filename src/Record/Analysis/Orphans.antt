-- ===== src/Record/Analysis/Orphans.antt =====
-- What `find_orphan_references` of persista/record/analysis/reference_check.py reports.
use mathlib.Core.List.{Memᴰ}
use mathlib.Core.List.Memᴰ
use persista.Common.{
  Bool, Bool-cases, true, false, String, text_keys, Option, none, some, List, [], ◌∷◌, ◌≡◌, ◌↔◌,
  inl, inr, refl, arith,
}
use persista.Store.Types.{Object}
use persista.Record.{Record, value_of}
use persista.Record.Analysis.{any, is_orphan, orphans_in, find_orphan_references}

module _ {A : Type 0} (p : A → Bool) where
  any-of_mem : (xs : List A) {a : A} → Memᴰ a xs → p a ≡ true → any p xs ≡ true
  any-of_mem [] m t = absurd (Memᴰ.not-nil m)
  any-of_mem (x ∷ xs) (Memᴰ.head e) t = ground (arith, e, t)
  any-of_mem (x ∷ xs) (Memᴰ.tail m) t = ground (arith, any-of_mem xs m t)

  mem-of_any : (xs : List A) → any p xs ≡ true → (a : A) × Memᴰ a xs × (p a ≡ true)
  mem-of_any [] t = absurd (ground (arith, t))
  mem-of_any (x ∷ xs) t = elim (Bool-cases (p x)) [
    | inl q ↦ (x, Memᴰ.head refl, q)
    | inr q ↦ let (a, m, r) = mem-of_any xs (ground (arith, t, q)) in (a, Memᴰ.tail m, r)
  ]

module _ {V : Type 0} ⦃o : Object V⦄ (text : String → V) (is_none : V → Bool) where
  -- the reference of a record is the id of some record
  pub IsResolved : List (Record V) → Option V → Type 0
  IsResolved records none = Unit {0}
  IsResolved records (some v) =
      is_none v ≡ false → (s : Record V) × Memᴰ s records × (o.equals (text s.id) v ≡ true)

  IsResolved-of_not :
      (records : List (Record V)) (v : Option V)
      → is_orphan text is_none records v ≡ false
      → IsResolved records v
  unfolding IsResolved
  IsResolved-of_not records none h = tt
  IsResolved-of_not records (some v) h =
      λ n. mem-of_any (λ s. o.equals (text s.id) v) records (ground (arith, h, n))

  not-of_IsResolved :
      (records : List (Record V)) (v : Option V)
      → IsResolved records v
      → is_orphan text is_none records v ≡ false
  unfolding IsResolved
  not-of_IsResolved records none h = refl
  not-of_IsResolved records (some v) h = elim (Bool-cases (is_none v)) [
    | inl q ↦ ground (arith, q)
    | inr q ↦
        let (s, m, r) = h q in
        ground (arith, q, any-of_mem (λ s. o.equals (text s.id) v) records m r)
  ]

  module _ (all_records : List (Record V)) (reference_key : String) where
    resolved_of_none :
        (records : List (Record V)) {r : Record V}
        → orphans_in text is_none all_records reference_key records ≡ []
        → Memᴰ r records
        → is_orphan text is_none all_records (value_of reference_key r) ≡ false
    unfolding orphans_in
    resolved_of_none [] h m = absurd (Memᴰ.not-nil m)
    resolved_of_none (s ∷ records) h (Memᴰ.head e) = ground (arith, h, e)
    resolved_of_none (s ∷ records) h (Memᴰ.tail m) = resolved_of_none records (ground (arith, h)) m

    none_of_resolved :
        (records : List (Record V))
        → ((r : Record V)
            → Memᴰ r records
            → is_orphan text is_none all_records (value_of reference_key r) ≡ false)
        → orphans_in text is_none all_records reference_key records ≡ []
    unfolding orphans_in
    none_of_resolved [] h = refl
    none_of_resolved (s ∷ records) h =
        ground (arith, h s (Memᴰ.head refl), none_of_resolved records (λ r m. h r (Memᴰ.tail m)))

  -- find_orphan_references reports nothing exactly if every record's reference, where it has one that
  -- is not None, is the id of a record of the corpus.
  pub find_orphan_references-none :
      (records : List (Record V)) (reference_key : String)
      → (find_orphan_references text is_none records reference_key ≡ [])
        ↔ ((r : Record V) → Memᴰ r records → IsResolved records (value_of reference_key r))
  unfolding find_orphan_references
  find_orphan_references-none records reference_key = (
    (λ h r m. IsResolved-of_not records _ (resolved_of_none records reference_key records h m)),
    (λ h.
        none_of_resolved records reference_key records
          (λ r m. not-of_IsResolved records _ (h r m))),
  )
