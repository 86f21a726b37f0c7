-- ===== src/Cache/Types.antt =====
-- What a cache stores and is handed.
use persista.Common.{ℕ, ℤ, Option}

-- A Python object, as far as a cache looks into it: `None`, a time stamp, or anything else.
pub data Value (A : Type 0) : Type 0 where
  null : Value A
  time : ℕ → Value A
  obj : A → Value A

-- The `ttl` argument: `_UNSET`, or what was given, where `None` means no expiry.
pub data Ttl : Type 0 where
  unset : Ttl
  given : Option ℤ → Ttl
