-- ===== src/Cache/Compute.antt =====
-- `get_or_compute`: what is computed once is served until it expires.
use persista.Store.Spec.{View}
use persista.Common.{
  ℕ, ℤ, pos, negsuc, zero, suc, true, String, text_keys, Option, none, some, [], ◌∷◌, ◌≡◌, refl,
  ==_refl, ok, err, Exec, arith, Error,
}
use persista.Store.Base.{BaseStore, IsStore}
use persista.Cache.Types.{Value, Ttl}
use persista.Cache.Spec.{Entries, live, evicted, fresh, put, Holds, Answers}
use persista.Cache.{resolve_ttl, look_up, get_or_compute}
use persista.Cache.Refines.{set-Answers, look_up-Answers}
use persista.Cache.Expiry.{is_alive}

module _ {A : Type 0} where
  live-fresh :
      (now later : ℕ) (value : Value A) (ttl : Option ℤ)
      → is_alive now ttl later ≡ true
      → live later (fresh now value ttl) ≡ some value
  unfolding is_alive live fresh
  live-fresh now later value none h = refl
  live-fresh now later value (some (pos zero)) h = cc
  live-fresh now later value (some (pos (suc n))) h = ground arith
  live-fresh now later value (some (negsuc n)) h = ground arith

module _ {A : Type 0} (b : BaseStore (Value A)) {view : b.State → View (Value A)}
    (h : IsStore b view) (s : b.State) (entries : Entries A) (rep : Holds h s entries)
    (default_ttl : Option ℤ) (now : ℕ) (key : String) where
  -- On a hit the cached value is returned, whatever `fn` would do, and nothing is stored.
  pub get_or_compute_hit :
      (later : ℕ) (fn : Exec b.State (Value A)) (ttl : Ttl) (v : Value A)
      → live now (entries key) ≡ some v
      → Answers h
          (get_or_compute b default_ttl now later key fn ttl s)
          v
          (evicted now (key ∷ []) entries)
  unfolding get_or_compute
  get_or_compute_hit later fn ttl v hit =
      let found = look_up-Answers b h s entries rep now key in
      rw (found.result, hit) (record { result = refl; leaves = found.leaves })

  -- On a miss `fn` is called, and what it returns is stored with the ttl.
  pub get_or_compute_miss :
      (later : ℕ) (fn : Exec b.State (Value A)) (ttl : Ttl) (v : Value A) {after : Entries A}
      {resolved_ttl : Option ℤ}
      → live now (entries key) ≡ none
      → Answers h (fn (look_up b now key s).1) v after
      → resolve_ttl default_ttl ttl ≡ ok resolved_ttl
      → Answers h
          (get_or_compute b default_ttl now later key fn ttl s)
          v
          (put key (fresh later v resolved_ttl) after)
  unfolding get_or_compute
  get_or_compute_miss later fn ttl v {after} {resolved_ttl} miss computed accepted =
      let found = look_up-Answers b h s entries rep now key in
      let stored = set-Answers b h _ after computed.leaves default_ttl later key v ttl accepted in
      rw (found.result, miss, computed.result, stored.result)
        (record { result = refl; leaves = stored.leaves })

  -- When `fn` raises, the exception goes to the caller and nothing is stored.
  pub get_or_compute_raises :
      (later : ℕ) (fn : Exec b.State (Value A)) (ttl : Ttl) (e : Error) (s' : b.State)
      → live now (entries key) ≡ none
      → fn (look_up b now key s).1 ≡ (err e, s')
      → get_or_compute b default_ttl now later key fn ttl s ≡ (err e, s')
  unfolding get_or_compute
  get_or_compute_raises later fn ttl e s' miss raised =
      let found = look_up-Answers b h s entries rep now key in rw (found.result, miss, raised)

module _ {A : Type 0} (b : BaseStore (Value A)) {view : b.State → View (Value A)}
    (h : IsStore b view) (s : b.State) (entries : Entries A) (rep : Holds h s entries)
    (default_ttl : Option ℤ) (now : ℕ) (key : String) where
  -- Over an open store of cache entries, a value that was computed on a miss is served to the next
  -- call for its key, which does not call its function, as long as the entry has not expired.
  pub get_or_compute_twice :
      (later again last : ℕ) (fn other : Exec b.State (Value A)) (ttl : Ttl) (v : Value A)
      {after : Entries A} {resolved_ttl : Option ℤ}
      → live now (entries key) ≡ none
      → Answers h (fn (look_up b now key s).1) v after
      → resolve_ttl default_ttl ttl ≡ ok resolved_ttl
      → is_alive later resolved_ttl again ≡ true
      → (get_or_compute b default_ttl again last key other ttl
          (get_or_compute b default_ttl now later key fn ttl s).1).0
        ≡ ok v
  get_or_compute_twice later again last fn other ttl v {after} {resolved_ttl} miss computed accepted
        alive =
      let first =
        get_or_compute_miss b h s entries rep default_ttl now key later fn ttl v miss computed
          accepted in
      let hit : live again (put key (fresh later v resolved_ttl) after key) ≡ some v =
        ground (arith, ==_refl key, live-fresh later again v resolved_ttl alive) in
      (get_or_compute_hit b h _ _ first.leaves default_ttl again key last other ttl v hit).result
