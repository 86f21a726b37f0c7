-- ===== src/Store/Types.antt =====
-- persista/store/types.py, and the values that a store holds: a `dict` of named fields. What a field
-- holds is a type `V` of its own; a store never looks into it but through `==` and `None`.
use persista.Common.{Bool, String}
use persista.Dict.{Dict}

pub data OnConflict : Type 0 where
  raise skip overwrite merge : OnConflict

-- dict[str, Any]
abbrev pub Fields : Type 0 → Type 0
Fields V = Dict String V

-- What `filter` uses of Python's objects: `None`, and `==`, which need not be an equivalence.
pub record Object (V : Type 0) : Type 0 where
  pub none_value : V
  pub equals : V → V → Bool
