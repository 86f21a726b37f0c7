-- ===== src/Cache/Keys.antt =====
-- The keys of persista/cache/utils.py. `json.dumps`, `pickle.dumps` and `hash_bytes` of coola are
-- arguments; a value is an argument of a call. What the lru_cache of each test answers is an argument
-- too: it may have been kept for another value that is equal.
use persista.Common.{
  Bool, true, false, String, text_keys, List, [], ◌∷◌, ◌==◌, Result, ok, err, type_error,
  pickling_error, attribute_error, value_error, if◌then◌else◌, Error, Option, some, none,
}
use persista.Dict.{Dict}

-- `P` is the type of Python values, `Raw` of what the serializers return.
pub record Serializers (P Raw : Type 0) : Type 0 where
  -- json.dumps(value), and json.dumps({"func": ..., "args": ..., "kwargs": ...}, sort_keys=True)
  pub json_value : P → Result Raw
  pub json_call : String → List P → Dict String P → Result Raw
  -- pickle.dumps(value), and pickle.dumps((func, args, sorted(kwargs.items())))
  pub pickle_value : P → Result Raw
  pub pickle_call : String → List P → Dict String P → Result Raw
  pub hash_bytes : Raw → String
  -- what the lru_cache of each test has for the value when it is asked, if the value has a hash
  pub json_cached : P → Option Bool
  pub pickle_cached : P → Option Bool

-- does the serializer raise, with an exception that means that it cannot?
abbrev pub caught : {Raw : Type 0} → (Error → Bool) → Result Raw → Result Bool
caught stops (ok raw) = ok true
caught stops (err e) = if stops e then ok false else err e

-- except TypeError
abbrev is_type_error : Error → Bool
is_type_error type_error = true
is_type_error _ = false

-- except (pickle.PicklingError, TypeError, AttributeError)
abbrev is_pickle_error : Error → Bool
is_pickle_error pickling_error = true
is_pickle_error type_error = true
is_pickle_error attribute_error = true
is_pickle_error _ = false

-- the elements with a property that a test finds, which may raise
module _ {A B : Type 0} (value : A → B) (test : B → Result Bool) where
  unfoldable pub keep : List A → Result (List A)
  keep [] = ok []
  keep (a ∷ rest) = elim (test (value a)) [
    | err e ↦ err e
    | ok kept ↦ elim (keep rest) [ err e ↦ err e | ok more ↦ ok (if kept then a ∷ more else more) ]
  ]

module _ {P Raw : Type 0} (s : Serializers P Raw) where
  unfoldable pub is_json_serializable : P → Result Bool
  is_json_serializable value = elim (s.json_cached value) [
    | some answer ↦ ok answer
    | none ↦ caught is_type_error (s.json_value value)
  ]

  unfoldable pub is_picklable : P → Result Bool
  is_picklable value = elim (s.pickle_cached value) [
    | some answer ↦ ok answer
    | none ↦ caught is_pickle_error (s.pickle_value value)
  ]

  -- The arguments that a key is made of.
  unfoldable pub kept_args : (P → Result Bool) → Bool → List P → Result (List P)
  unfolding keep
  kept_args test false args = ok args
  kept_args test true args = keep (λ a. a) test args

  unfoldable pub kept_kwargs : (P → Result Bool) → Bool → Dict String P → Result (Dict String P)
  unfolding keep
  kept_kwargs test false kwargs = ok kwargs
  kept_kwargs test true kwargs = keep (λ e. e.1) test kwargs

  -- what the two functions have in common
  unfoldable pub key_of :
      (P → Result Bool)
      → (String → List P → Dict String P → Result Raw)
      → String
      → List P
      → Dict String P
      → Bool
      → Result String
  unfolding kept_args kept_kwargs
  key_of test dumps func_name args kwargs ignore = elim (kept_args test ignore args) [
    | err e ↦ err e
    | ok args' ↦ elim (kept_kwargs test ignore kwargs) [
      | err e ↦ err e
      | ok kwargs' ↦ elim (dumps func_name args' kwargs') [
        | err e ↦ err e
        | ok raw ↦ ok (s.hash_bytes raw)
      ]
    ]
  ]

  unfoldable pub make_json_key : String → List P → Dict String P → Bool → Result String
  unfolding key_of is_json_serializable
  make_json_key = key_of is_json_serializable s.json_call

  unfoldable pub make_pickle_key : String → List P → Dict String P → Bool → Result String
  unfolding key_of is_picklable
  make_pickle_key = key_of is_picklable s.pickle_call

  unfoldable pub make_key : String → List P → Dict String P → String → Bool → Result String
  unfolding make_json_key make_pickle_key
  make_key func_name args kwargs strategy ignore =
      if strategy == "json"
      then make_json_key func_name args kwargs ignore
      else if strategy == "pickle"
      then make_pickle_key func_name args kwargs ignore
      else err value_error
