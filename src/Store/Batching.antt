-- ===== src/Store/Batching.antt =====
-- What the stores rely on of `batchify` (coola.utils.batching), which is not part of the program: the
-- batches, put together, are the items in their order, and none is larger than the size asked for.
use persista.Common.{
  ℕ, ℤ, pos, negsuc, suc, ◌≤◌, List, [], ◌∷◌, ◌≡◌, refl, concat, length, ltb, if◌then◌else◌, arith,
}

-- Every batch has at most `n` items.
abbrev pub IsBounded {ℓ} : {X : Type ℓ} → ℕ → List (List X) → Type 0
IsBounded n [] = Unit {0}
IsBounded n (xs ∷ xss) = (length xs ≤ n) × IsBounded n xss

pub record IsBatchify {X : Type 0} (batchify : List X → ℤ → List (List X)) : Type 0 where
  pub covers : (xs : List X) (n : ℕ) → concat (batchify xs (pos (suc n))) ≡ xs
  pub bounded : (xs : List X) (n : ℕ) → IsBounded (suc n) (batchify xs (pos (suc n)))

-- One such function: it fills the batches from the end.
module _ {X : Type 0} where
  push : ℕ → X → List (List X) → List (List X)
  push n x [] = (x ∷ []) ∷ []
  push n x (b ∷ bs) = if ltb (length b) n then (x ∷ b) ∷ bs else (x ∷ []) ∷ b ∷ bs

  fill : ℕ → List X → List (List X)
  unfolding push
  fill n [] = []
  fill n (x ∷ xs) = push n x (fill n xs)

  unfoldable pub chunks : List X → ℤ → List (List X)
  unfolding fill
  chunks xs (pos n) = fill n xs
  chunks xs (negsuc n) = []

  concat-push : (n : ℕ) (x : X) (bs : List (List X)) → concat (push n x bs) ≡ x ∷ concat bs
  unfolding push
  concat-push n x [] = refl
  concat-push n x (b ∷ bs) = ground arith

  concat-fill : (n : ℕ) (xs : List X) → concat (fill n xs) ≡ xs
  unfolding fill
  concat-fill n [] = refl
  concat-fill n (x ∷ xs) = ground (arith, concat-push n x (fill n xs), concat-fill n xs)

  push-IsBounded :
      (n : ℕ) (x : X) (bs : List (List X))
      → IsBounded (suc n) bs
      → IsBounded (suc n) (push (suc n) x bs)
  unfolding push
  push-IsBounded n x [] h = (omega arith, tt)
  push-IsBounded n x (b ∷ bs) h = ground arith

  fill-IsBounded : (n : ℕ) (xs : List X) → IsBounded (suc n) (fill (suc n) xs)
  unfolding fill
  fill-IsBounded n [] = tt
  fill-IsBounded n (x ∷ xs) = push-IsBounded n x (fill (suc n) xs) (fill-IsBounded n xs)

  pub chunks-IsBatchify : IsBatchify chunks
  unfolding chunks
  chunks-IsBatchify = record {
    covers = λ xs n. concat-fill (suc n) xs;
    bounded = λ xs n. fill-IsBounded n xs;
  }
