-- ===== src/Common/Texts.antt =====
-- The order of texts, by code points.
use Prim.Native.Nat.{Ordering, compare as compare_ℕ}
use Prim.Native.String.{String, [], ◌∷◌, compare, then}
use Prim.Native.String.compare.{nil-nil, cons-nil, cons-cons}
use Prim.Native.Char.{code}
use mathlib.Core.Path.{◌≡◌}
use mathlib.Core.Bool.{Bool, true, false}
use native.Mathlib.Omega.{arith}

-- `<` of texts
abbrev pub text_less : String → String → Bool
text_less a b = elim (compare a b) [ Ordering.lt ↦ true | _ ↦ false ]

compare-flip : (s t : String) → compare s t ≡ Ordering.lt → compare t s ≡ Ordering.gt
compare-flip [] [] h = let e : compare [] [] ≡ Ordering.eq = nil-nil in cc (e, h)
compare-flip [] (d ∷ t) h = cons-nil d t
compare-flip (c ∷ s) [] h = let e : compare (c ∷ s) [] ≡ Ordering.gt = cons-nil c s in cc (e, h)
compare-flip (c ∷ s) (d ∷ t) h =
    let e : compare (c ∷ s) (d ∷ t) ≡ then (compare_ℕ (code c) (code d)) (compare s t) =
      cons-cons c d s t in
    let f : compare (d ∷ t) (c ∷ s) ≡ then (compare_ℕ (code d) (code c)) (compare t s) =
      cons-cons d c t s in
    ground (arith, e, f, h, compare-flip s t)

pub text_less-asym : (s t : String) → text_less s t ≡ true → text_less t s ≡ false
text_less-asym s t h = ground (arith, h, compare-flip s t)
