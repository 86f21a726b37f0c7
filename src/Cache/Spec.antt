-- ===== src/Cache/Spec.antt =====
-- What a cache promises: entries with a value and an expiry, of which those not yet expired are live.
use persista.Store.Spec.{View}
use persista.Common.{
  ℕ, ℤ, pos, negsuc, zero, ◌+◌, ◌-◌, suc, Bool, true, false, String, text_keys, Option, none, some,
  List, ◌≡◌, ◌==◌, ok, Result, ltb, ◌&&◌, if◌then◌else◌,
}
use persista.Store.Types.{Fields}
use persista.Store.Conflicts.{member}
use persista.Store.Base.{BaseStore, IsStore}
use persista.Cache.Types.{Value, null, time}
use persista.Cache.{entry_of}

pub record Entry (A : Type 0) : Type 0 where
  pub value : Value A
  pub expires : Option ℕ

abbrev pub Entries : Type 0 → Type 0
Entries A = String → Option (Entry A)

-- is the clock past the entry's expiry?
abbrev pub is_past : ℕ → Option ℕ → Bool
is_past now none = false
is_past now (some t) = ltb t now

module _ {A : Type 0} where
  abbrev pub stamp : Option ℕ → Value A
  stamp none = null
  stamp (some t) = time t

  -- how an entry is written to the store
  abbrev pub encode : Option (Entry A) → Option (Fields (Value A))
  encode none = none
  encode (some e) = some (entry_of e.value (stamp e.expires))

  abbrev pub is_stale : ℕ → Option (Entry A) → Bool
  is_stale now none = false
  is_stale now (some e) = is_past now e.expires

  -- what a lookup at that time shows
  unfoldable pub live : ℕ → Option (Entry A) → Option (Value A)
  live now none = none
  live now (some e) = if is_past now e.expires then none else some e.value

  -- the `(hit, value)` pair of a lookup
  abbrev pub hit_pair : Option (Value A) → Bool × Value A
  hit_pair none = (false, null)
  hit_pair (some v) = (true, v)

  -- the live value, or a default
  abbrev pub live_or : Value A → ℕ → Option (Entry A) → Value A
  live_or default now e = elim (live now e) [ none ↦ default | some v ↦ v ]

  -- a lookup of `keys` drops what it finds expired
  abbrev pub evicted : ℕ → List String → Entries A → Entries A
  evicted now keys entries k = if member keys k && is_stale now (entries k) then none else entries k

  -- the entry that `set` leaves under its key; nothing at all for a ttl of 0
  unfoldable pub fresh : ℕ → Value A → Option ℤ → Option (Entry A)
  fresh now v none = some (record { value = v; expires = none })
  fresh now v (some (pos zero)) = none
  fresh now v (some (pos (suc n))) = some (record { value = v; expires = some (now + suc n) })
  fresh now v (some (negsuc n)) = some (record { value = v; expires = some (now - suc n) })

  -- the entries after one of them has changed
  abbrev pub put : String → Option (Entry A) → Entries A → Entries A
  put key e entries k = if key == k then e else entries k

-- The open store holds exactly these entries.
pub record Holds {A : Type 0} {b : BaseStore (Value A)} {view : b.State → View (Value A)}
    (h : IsStore b view) (s : b.State) (entries : Entries A) : Type 0 where
  pub is_open : b.closed s ≡ false
  pub holds : (k : String) → view s k ≡ encode (entries k)

-- A call returned `r` and left these entries.
pub record Answers {A R : Type 0} {b : BaseStore (Value A)} {view : b.State → View (Value A)}
    (h : IsStore b view) (out : Result R × b.State) (r : R) (entries : Entries A) : Type 0 where
  pub result : out.0 ≡ ok r
  pub leaves : Holds h out.1 entries
