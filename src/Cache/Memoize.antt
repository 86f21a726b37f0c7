-- ===== src/Cache/Memoize.antt =====
-- `Cache.memoize` and `Cache.amemoize` of persista/cache/cache.py, and `cached`, `async_cached`,
-- `get_cache` and `set_cache` of persista/cache/interface.py. A function is an action of its
-- arguments; one that is awaited is the same action.
use persista.Store.Spec.{View}
use persista.Common.{
  ℕ, ℤ, Bool, true, String, text_keys, Option, none, List, ◌≡◌, ok, Exec, lift, ◌>>=◌,
}
use persista.Dict.{Dict}
use persista.Store.Base.{BaseStore, IsStore}
use persista.Cache.Types.{Value, Ttl}
use persista.Cache.Spec.{Entries, live, Holds, Answers}
use persista.Cache.{resolve_ttl, look_up, get_or_compute}
use persista.Cache.Expiry.{is_alive}
use persista.Cache.Compute.{get_or_compute_miss, get_or_compute_twice}
use persista.Cache.Keys.{Serializers, make_key}

-- a function of positional and keyword arguments, on the states of a store
abbrev pub Function : Type 0 → Type 0 → Type 0 → Type 0
Function P S R = List P → Dict String P → Exec S R

-- the cache of `_state`: its default ttl, and the state of its store
pub record Current (S : Type 0) : Type 0 where
  pub default_ttl : Option ℤ
  pub store : S

module _ {S : Type 0} where
  -- get_cache()
  unfoldable pub get_cache : Exec (Current S) (Current S)
  get_cache s = (ok s, s)

  -- set_cache(cache)
  unfoldable pub set_cache : Current S → Exec (Current S) (Unit {0})
  set_cache cache s = (ok tt, cache)

module _ {P Raw A : Type 0} (s : Serializers P Raw) (b : BaseStore (Value A)) where
  -- The wrapper that `memoize` makes of a function, at the times that its call reads.
  unfoldable pub memoize :
      Option ℤ
      → Ttl
      → String
      → Bool
      → String
      → Function P b.State (Value A)
      → ℕ
      → ℕ
      → Function P b.State (Value A)
  unfolding make_key
  memoize default_ttl ttl strategy ignore qualname func now later args kwargs = do
    key ← lift (make_key s qualname args kwargs strategy ignore)
    get_or_compute b default_ttl now later key (func args kwargs) ttl

  unfoldable pub amemoize :
      Option ℤ
      → Ttl
      → String
      → Bool
      → String
      → Function P b.State (Value A)
      → ℕ
      → ℕ
      → Function P b.State (Value A)
  unfolding memoize
  amemoize = memoize

  -- an action on the store of the cache that is current when it starts
  abbrev pub on_store : Current b.State → {R : Type 0} → Exec b.State R → Exec (Current b.State) R
  on_store cache m c = ((m cache.store).0, record c { store = (m cache.store).1 })

  -- The wrapper that `cached` makes of a function: as `memoize`, on the cache that is current when it
  -- is called.
  unfoldable pub cached :
      Ttl
      → String
      → Bool
      → String
      → Function P b.State (Value A)
      → ℕ
      → ℕ
      → Function P (Current b.State) (Value A)
  unfolding make_key get_cache
  cached ttl strategy ignore qualname func now later args kwargs = do
    cache ← get_cache
    key ← lift (make_key s qualname args kwargs strategy ignore)
    on_store cache (get_or_compute b cache.default_ttl now later key (func args kwargs) ttl)

  unfoldable pub async_cached :
      Ttl
      → String
      → Bool
      → String
      → Function P b.State (Value A)
      → ℕ
      → ℕ
      → Function P (Current b.State) (Value A)
  unfolding cached
  async_cached = cached

module _ {P Raw A : Type 0} (s s' : Serializers P Raw) (b : BaseStore (Value A)) where
  -- Over an open store of cache entries, a call of a memoized function that misses returns what the
  -- function does, and a later call of the same function, or of another of its name, with arguments
  -- that make the same key returns that value without a call while its entry is alive. The
  -- serializers of the two calls may answer differently.
  pub memoize_twice :
      {view : b.State → View (Value A)} (h : IsStore b view) (state : b.State) (entries : Entries A)
      (rep : Holds h state entries) (default_ttl : Option ℤ) (ttl : Ttl) (strategy : String)
      (ignore : Bool) (qualname : String) (func other : Function P b.State (Value A))
      (now later again last : ℕ) (args args' : List P) (kwargs kwargs' : Dict String P)
      (key : String) (v : Value A) {after : Entries A} {resolved_ttl : Option ℤ}
      → make_key s qualname args kwargs strategy ignore ≡ ok key
      → make_key s' qualname args' kwargs' strategy ignore ≡ ok key
      → live now (entries key) ≡ none
      → Answers h (func args kwargs (look_up b now key state).1) v after
      → resolve_ttl default_ttl ttl ≡ ok resolved_ttl
      → is_alive later resolved_ttl again ≡ true
      → let first =
          memoize s b default_ttl ttl strategy ignore qualname func now later args kwargs state in
        (first.0 ≡ ok v)
        × ((memoize s' b default_ttl ttl strategy ignore qualname other again last args' kwargs'
              first.1).0
            ≡ ok v)
  unfolding memoize
  memoize_twice h state entries rep default_ttl ttl strategy ignore qualname func other now later
        again last args args' kwargs kwargs' key v k k' miss computed accepted alive =
      rw (k, k')
        (
          (get_or_compute_miss b h state entries rep default_ttl now key later (func args kwargs)
              ttl v miss computed accepted).result,
          get_or_compute_twice b h state entries rep default_ttl now key later again last
              (func args kwargs) (other args' kwargs') ttl v miss computed accepted alive,
        )
