-- ===== src/Common/Actions.antt =====
-- Methods that mutate an object and may raise: the state comes back beside the result and beside the
-- exception, since what was written before a raise stays written.
use Prim.Native.String.{String}
use mathlib.Core.List.{List}

-- The exceptions that the library's code raises, or that Python raises in it. Messages are left out.
pub data Error : Type 0 where
  runtime_error : Error
  key_error : List String → Error
  value_error : Error
  type_error : Error
  not_a_directory : Error
  operational_error : Error
  index_error : Error
  not_implemented_error : Error
  transport_error : Error
  http_status_error : Error
  decoding_error : Error
  pickling_error : Error
  attribute_error : Error
  -- not an exception: a loop of the model was given too few rounds
  out_of_rounds : Error

pub data Result {ℓ} (A : Type ℓ) : Type ℓ where
  ok : A → Result A
  err : Error → Result A

abbrev pub Exec {ℓ} : Type ℓ → Type ℓ → Type ℓ
Exec S A = S → Result A × S

module _ {ℓ} {S A : Type ℓ} where
  abbrev pub pure : A → Exec S A
  pure a s = (ok a, s)

  abbrev pub raise : Error → Exec S A
  raise e s = (err e, s)

  -- a pure computation that may raise
  abbrev pub lift : Result A → Exec S A
  lift r s = (r, s)

module _ {ℓ} {S A B : Type ℓ} where
  abbrev pub continue : Result A → S → (A → Exec S B) → Result B × S
  continue (ok a) s f = f a s
  continue (err e) s f = (err e, s)

  infixl 5 ◌>>=◌ ◌>>◌
  abbrev pub ◌>>=◌ : Exec S A → (A → Exec S B) → Exec S B
  ◌>>=◌ m f s = continue (m s).0 (m s).1 f

  abbrev pub ◌>>◌ : Exec S A → Exec S B → Exec S B
  ◌>>◌ m n s = continue (m s).0 (m s).1 (λ _. n)
