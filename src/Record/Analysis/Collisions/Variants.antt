-- ===== src/Record/Analysis/Collisions/Variants.antt =====
-- The variants that `find_id_collisions` of persista/record/analysis/id_collision.py collects.
use persista.Common.{
  Bool, false, text_keys, List, [], ◌∷◌, ◌≡◌, refl, arith, ◌++◌, ◌||◌, true, ◌⊎◌, inl, inr, sym,
  ◌∙◌, Bool-cases,
}
use mathlib.Core.List.{append-nil, append_assoc}
use persista.Store.Types.{Fields, Object}
use persista.Record.Analysis.{same_fields, add_variant, any}

module _ {V : Type 0} ⦃o : Object V⦄ where
  -- the distinct ones, after those already seen
  unfoldable pub distinct_from : List (Fields V) → List (Fields V) → List (Fields V)
  distinct_from seen [] = seen
  distinct_from seen (m ∷ metadata) = distinct_from (add_variant seen m) metadata

  -- `variants` are some of the metadata, in their order
  pub data IsPick : List (Fields V) → List (Fields V) → Type 0 where
    done : IsPick [] []
    keep :
        {m : Fields V} {variants metadata : List (Fields V)}
        → IsPick variants metadata
        → IsPick (m ∷ variants) (m ∷ metadata)
    skip :
        {m : Fields V} {variants metadata : List (Fields V)}
        → IsPick variants metadata
        → IsPick variants (m ∷ metadata)

  pub data IsIn (m : Fields V) : List (Fields V) → Type 0 where
    here : {ms : List (Fields V)} → IsIn m (m ∷ ms)
    there : {n : Fields V} {ms : List (Fields V)} → IsIn m ms → IsIn m (n ∷ ms)

  -- none equals one to its right
  pub HasNoRepeats : List (Fields V) → Type 0
  HasNoRepeats [] = Unit {0}
  HasNoRepeats (v ∷ variants) =
      (any (λ w. same_fields v w) variants ≡ false) × HasNoRepeats variants

  -- each of the metadata is among the variants, or equals one of them
  pub AreCovered : List (Fields V) → List (Fields V) → Type 0
  AreCovered variants [] = Unit {0}
  AreCovered variants (m ∷ metadata) =
      (IsIn m variants ⊎ (any (λ v. same_fields v m) variants ≡ true))
      × AreCovered variants metadata

  any-append :
      (p : Fields V → Bool) (seen : List (Fields V)) (m : Fields V)
      → any p (seen ++ m ∷ []) ≡ (any p seen || p m)
  any-append p [] m = ground arith
  any-append p (v ∷ seen) m = ground (arith, any-append p seen m)

  HasNoRepeats-append :
      (seen : List (Fields V)) (m : Fields V)
      → HasNoRepeats seen
      → any (λ v. same_fields v m) seen ≡ false
      → HasNoRepeats (seen ++ m ∷ [])
  unfolding HasNoRepeats
  HasNoRepeats-append [] m h n = (refl, tt)
  HasNoRepeats-append (v ∷ seen) m h n = (
    ground (arith, any-append (λ w. same_fields v w) seen m, h.0, n),
    HasNoRepeats-append seen m h.1 (ground (arith, n)),
  )

  IsIn-append : (seen : List (Fields V)) (m : Fields V) → IsIn m (seen ++ m ∷ [])
  IsIn-append [] m = here
  IsIn-append (v ∷ seen) m = there (IsIn-append seen m)

  IsIn-before :
      {m : Fields V} {seen : List (Fields V)} (n : Fields V) → IsIn m seen → IsIn m (seen ++ n ∷ [])
  IsIn-before n here = here
  IsIn-before n (there h) = there (IsIn-before n h)

  -- what the code does with one more of the metadata, by whether it has been seen
  add_variant-seen :
      (seen : List (Fields V)) (m : Fields V)
      → any (λ v. same_fields v m) seen ≡ true
      → add_variant seen m ≡ seen
  unfolding add_variant
  add_variant-seen seen m h = ground (arith, h)

  add_variant-new :
      (seen : List (Fields V)) (m : Fields V)
      → any (λ v. same_fields v m) seen ≡ false
      → add_variant seen m ≡ seen ++ m ∷ []
  unfolding add_variant
  add_variant-new seen m h = ground (arith, h)

  -- what holds of the variants that have been collected after those already seen
  record AreCollected (seen metadata variants : List (Fields V)) : Type 0 where
    no_repeats : HasNoRepeats variants
    covered : AreCovered variants metadata
    keeps : {m : Fields V} → IsIn m seen → IsIn m variants
    keeps_any : (p : Fields V → Bool) → any p seen ≡ true → any p variants ≡ true
    fresh : List (Fields V)
    split : variants ≡ seen ++ fresh
    picked : IsPick fresh metadata

  distinct_from-AreCollected :
      (seen metadata : List (Fields V))
      → HasNoRepeats seen
      → AreCollected seen metadata (distinct_from seen metadata)
  unfolding distinct_from AreCovered
  distinct_from-AreCollected seen [] h = record {
    no_repeats = h;
    covered = tt;
    keeps = λ i. i;
    keeps_any = λ p a. a;
    fresh = [];
    split = sym (append-nil seen);
    picked = done;
  }
  distinct_from-AreCollected seen (m ∷ metadata) h =
      elim (Bool-cases (any (λ v. same_fields v m) seen)) [
        | inl t ↦
            let rest = distinct_from-AreCollected seen metadata h in
            rw (add_variant-seen seen m t) (record {
              no_repeats = rest.no_repeats;
              covered = (inr (rest.keeps_any (λ v. same_fields v m) t), rest.covered);
              keeps = rest.keeps;
              keeps_any = rest.keeps_any;
              fresh = rest.fresh;
              split = rest.split;
              picked = skip rest.picked;
            })
        | inr f ↦
            let rest =
              distinct_from-AreCollected (seen ++ m ∷ []) metadata
                (HasNoRepeats-append seen m h f) in
            rw (add_variant-new seen m f) (record {
              no_repeats = rest.no_repeats;
              covered = (inl (rest.keeps (IsIn-append seen m)), rest.covered);
              keeps = λ i. rest.keeps (IsIn-before m i);
              keeps_any = λ p a. rest.keeps_any p (ground (arith, any-append p seen m, a));
              fresh = m ∷ rest.fresh;
              split = rest.split ∙ append_assoc seen (m ∷ []) rest.fresh;
              picked = keep rest.picked;
            })
      ]

  -- The variants of some metadata: some of them, in their order, of which no two are equal, and
  -- which each of the metadata is among or equal to one of.
  pub record AreVariants (metadata variants : List (Fields V)) : Type 0 where
    pub picked : IsPick variants metadata
    pub no_repeats : HasNoRepeats variants
    pub covered : AreCovered variants metadata

  pub distinct_from-AreVariants :
      (metadata : List (Fields V)) → AreVariants metadata (distinct_from [] metadata)
  unfolding HasNoRepeats
  distinct_from-AreVariants metadata =
      let all = distinct_from-AreCollected [] metadata tt in
      record {
        picked = rw all.split all.picked;
        no_repeats = all.no_repeats;
        covered = all.covered;
      }
