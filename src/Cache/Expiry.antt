-- ===== src/Cache/Expiry.antt =====
-- What a client of a cache reads after it has written, and when.
use persista.Store.Spec.{View}
use persista.Common.{
  ℕ, ℤ, pos, negsuc, zero, suc, ◌+◌, ◌-◌, ◌≤◌, Bool, true, false, String, text_keys, Option, none,
  some, List, ◌≡◌, ◌≢◌, refl, ==_refl, ok, err, if◌then◌else◌, arith, leb, Option-cases, inl, inr,
  value_error, ◌⊎◌,
}
use persista.Dict
use persista.Dict.{Dict}
use persista.Store.Conflicts.{member}
use persista.Store.Base.{BaseStore, IsStore}
use persista.Cache.Types.{Value, Ttl}
use persista.Cache.Spec.{Entries, live, live_or, evicted, fresh, Holds}
use persista.Cache.{resolve_ttl, get, set, get_many, set_many, choose_ttl}
use persista.Cache.Refines.{set-Answers, get-Answers}
use persista.Cache.Batches.{get_many-Answers, answer, get-answer, set_many-Answers}

-- Is an entry that was stored at `now` with this ttl there at `later`? The last tick is included.
unfoldable pub is_alive : ℕ → Option ℤ → ℕ → Bool
is_alive now none later = true
is_alive now (some (pos zero)) later = false
is_alive now (some (pos (suc n))) later = leb later (now + suc n)
is_alive now (some (negsuc n)) later = leb later (now - suc n)

module _ {A : Type 0} where
  live_or-fresh :
      (now later : ℕ) (value default : Value A) (ttl : Option ℤ)
      → live_or default later (fresh now value ttl)
        ≡ (if is_alive now ttl later then value else default)
  unfolding is_alive live fresh
  live_or-fresh now later value default none = refl
  live_or-fresh now later value default (some (pos zero)) = refl
  live_or-fresh now later value default (some (pos (suc n))) = ground arith
  live_or-fresh now later value default (some (negsuc n)) = ground arith

  -- What a lookup evicts could not be seen any more: while the clock does not go back, later lookups
  -- show the same.
  pub live-evicted :
      (now later : ℕ) (keys : List String) (entries : Entries A) (k : String)
      → now ≤ later
      → live later (evicted now keys entries k) ≡ live later (entries k)
  unfolding live
  live-evicted now later keys entries k h = ground arith

module _ {A : Type 0} (b : BaseStore (Value A)) {view : b.State → View (Value A)}
    (h : IsStore b view) (s : b.State) (entries : Entries A) (rep : Holds h s entries)
    (default_ttl : Option ℤ) (now : ℕ) (key : String) (value : Value A) (ttl : Ttl)
    {resolved_ttl : Option ℤ} (accepted : resolve_ttl default_ttl ttl ≡ ok resolved_ttl) where
  -- Over an open store of cache entries that keeps its contract, after a `set` with an accepted ttl a
  -- `get` of that key returns the value up to and including its expiry, and the default from then on.
  pub get-set_self :
      (later : ℕ) (default : Value A)
      → (get b later key default (set b default_ttl now key value ttl s).1).0
        ≡ ok (if is_alive now resolved_ttl later then value else default)
  get-set_self later default =
      let stored = set-Answers b h s entries rep default_ttl now key value ttl accepted in
      let read = get-Answers b h _ _ stored.leaves later key default in
      ground (arith, read.result, ==_refl key, live_or-fresh now later value default resolved_ttl)

  -- A `set` of one key does not change what a `get` of another returns.
  pub get-set_ne :
      (other : String) (later : ℕ) (default : Value A)
      → key ≢ other
      → (get b later other default (set b default_ttl now key value ttl s).1).0
        ≡ (get b later other default s).0
  get-set_ne other later default ne =
      let stored = set-Answers b h s entries rep default_ttl now key value ttl accepted in
      let read = get-Answers b h _ _ stored.leaves later other default in
      let before = get-Answers b h s entries rep later other default in
      ground (arith, read.result, before.result, text_keys.test_iff key other)

module _ {A : Type 0} (b : BaseStore (Value A)) {view : b.State → View (Value A)}
    (h : IsStore b view) (s : b.State) (entries : Entries A) (rep : Holds h s entries) where
  -- Over an open store of cache entries, one batched `get_many` returns, under every key of the
  -- batch and no other, what `get` of that key alone returns.
  pub get_many-get :
      (now : ℕ) (keys : List String) (default : Value A)
      → (d : Dict String (Value A)) × ((get_many b now keys default s).0 ≡ ok d)
        × ((k : String)
            → member keys k ≡ true
            → (v : Value A) × (Dict.get d k ≡ some v) × ((get b now k default s).0 ≡ ok v))
        × ((k : String) → member keys k ≡ false → Dict.get d k ≡ none)
  get_many-get now keys default = (
    answer entries now keys default,
    (get_many-Answers b h s entries rep now keys default).result,
    λ k m. (
      live_or default now (entries k),
      ground (arith, get-answer entries now keys default k),
      (get-Answers b h s entries rep now k default).result,
    ),
    λ k m. ground (arith, get-answer entries now keys default k),
  )

  -- Over an open store of cache entries, after a batched `set_many` with an accepted ttl, a `get` of a
  -- key of the batch reads as after a `set` of that key alone, and any other key reads as before.
  pub get-set_many :
      (default_ttl : Option ℤ) (now : ℕ) (items : Dict String (Value A)) (ttl : Ttl)
      {resolved_ttl : Option ℤ} (later : ℕ) (default : Value A) (k : String)
      → resolve_ttl default_ttl ttl ≡ ok resolved_ttl
      → Dict.IsDistinct items
      → (get b later k default (set_many b default_ttl now items ttl s).1).0
        ≡ elim (Dict.get items k) [
          | none ↦ (get b later k default s).0
          | some v ↦ ok (if is_alive now resolved_ttl later then v else default)
        ]
  get-set_many default_ttl now items ttl {resolved_ttl} later default k accepted d =
      let stored = set_many-Answers b h s entries rep default_ttl now items ttl accepted d in
      let read = get-Answers b h _ _ stored.leaves later k default in
      let before = get-Answers b h s entries rep later k default in
      elim (Option-cases (Dict.get items k)) [
        | inl absent ↦ ground (arith, absent, read.result, before.result)
        | inr (v, there) ↦
            ground (arith, there, read.result, live_or-fresh now later v default resolved_ttl)
      ]

  -- Over an open store of cache entries, a batched read evicts only what has expired: if the clock
  -- does not go back, a later `get` of any key returns what it would have returned without the
  -- read.
  pub get-get_many :
      (now later : ℕ) (keys : List String) (first second : Value A) (k : String)
      → now ≤ later
      → (get b later k second (get_many b now keys first s).1).0 ≡ (get b later k second s).0
  get-get_many now later keys first second k forward =
      let batch = get_many-Answers b h s entries rep now keys first in
      let read = get-Answers b h _ _ batch.leaves later k second in
      let before = get-Answers b h s entries rep later k second in
      ground (arith, read.result, before.result, live-evicted now later keys entries k forward)

module _ {A : Type 0} (b : BaseStore (Value A)) {view : b.State → View (Value A)}
    (h : IsStore b view) (s : b.State) (entries : Entries A) (rep : Holds h s entries) where
  set_chosen :
      (default_ttl : Option ℤ) (now : ℕ) (key : String) (value : Value A) (ttl : Ttl)
      (chosen : Option ℤ)
      → choose_ttl default_ttl ttl ≡ chosen
      → ((n : ℕ) × (chosen ≡ some (negsuc n))
          × (set b default_ttl now key value ttl s ≡ (err value_error, s)))
        ⊎ (((n : ℕ) → chosen ≢ some (negsuc n))
            × ((set b default_ttl now key value ttl s).0 ≡ ok tt))
  unfolding resolve_ttl set
  set_chosen default_ttl now key value ttl none e =
      let accepted : resolve_ttl default_ttl ttl ≡ ok none = rw e in
      inr (λ n. cc, (set-Answers b h s entries rep default_ttl now key value ttl accepted).result)
  set_chosen default_ttl now key value ttl (some (pos m)) e =
      let accepted : resolve_ttl default_ttl ttl ≡ ok (some (pos m)) = rw e in
      inr (λ n. cc, (set-Answers b h s entries rep default_ttl now key value ttl accepted).result)
  set_chosen default_ttl now key value ttl (some (negsuc n)) e = inl (n, refl, rw e)

  -- Over an open store of cache entries, `set` raises `ValueError` and leaves the store as it is if the
  -- ttl, given or by default, is below zero, and it returns for every other ttl.
  pub set_accepts :
      (default_ttl : Option ℤ) (now : ℕ) (key : String) (value : Value A) (ttl : Ttl)
      → ((n : ℕ) × (choose_ttl default_ttl ttl ≡ some (negsuc n))
          × (set b default_ttl now key value ttl s ≡ (err value_error, s)))
        ⊎ (((n : ℕ) → choose_ttl default_ttl ttl ≢ some (negsuc n))
            × ((set b default_ttl now key value ttl s).0 ≡ ok tt))
  set_accepts default_ttl now key value ttl =
      set_chosen default_ttl now key value ttl (choose_ttl default_ttl ttl) refl
