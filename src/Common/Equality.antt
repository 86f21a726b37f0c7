-- ===== src/Common/Equality.antt =====
-- What a Python object needs to be a key of a `dict`: a test that decides equality.
use Prim.Native.Nat.{ℕ}
use Prim.Native.String.{String}
use mathlib.Core.Bool.{Bool, true, false, ◌&&◌}
use mathlib.Core.Logic.{◌↔◌}
use mathlib.Core.List.{List, [], ◌∷◌}
use native.Mathlib.Omega.{arith}
use mathlib.Core.Path.{◌≡◌, refl}
use persista.Common.Tests.{nat_beq, nat_beq_iff}
use text.Mathlib.Text.{◌==◌ as same_text}
use text.Mathlib.TextEquality.{eq_iff as same_text_iff}

pub record Keys {ℓ} (K : Type ℓ) : Type ℓ where
  pub test : K → K → Bool
  pub test_iff : (j k : K) → (test j k ≡ true) ↔ (j ≡ k)

instance abbrev pub text_keys : Keys String
text_keys = record { test = same_text; test_iff = same_text_iff }

instance abbrev pub ℕ_keys : Keys ℕ
ℕ_keys = record { test = nat_beq; test_iff = nat_beq_iff }

-- tuples of texts
abbrev same_texts : List String → List String → Bool
same_texts [] [] = true
same_texts (j ∷ js) (k ∷ ks) = same_text j k && same_texts js ks
same_texts _ _ = false

pub same_texts_iff : (js ks : List String) → (same_texts js ks ≡ true) ↔ (js ≡ ks)
same_texts_iff [] [] = ground arith
same_texts_iff [] (k ∷ ks) = ground arith
same_texts_iff (j ∷ js) [] = ground arith
same_texts_iff (j ∷ js) (k ∷ ks) = ground (arith, same_text_iff j k, same_texts_iff js ks)

instance abbrev pub texts_keys : Keys (List String)
texts_keys = record { test = same_texts; test_iff = same_texts_iff }

module _ {ℓ} {K : Type ℓ} ⦃keys : Keys K⦄ where
  infix 50 ◌==◌
  abbrev pub ◌==◌ : K → K → Bool
  j == k = keys.test j k

  pub ==_refl : (k : K) → (k == k) ≡ true
  ==_refl k = (keys.test_iff k k).1 refl
