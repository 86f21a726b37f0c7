-- ===== src/Cache/Batches.antt =====
-- `get_many`, `contains_many` and `set_many` agree with the calls for one key.
use persista.Store.Spec.{View}
use persista.Store.Conflicts.Members.{member-keys}
use persista.Common.{
  ℕ, ℤ, pos, negsuc, zero, suc, ◌+◌, ◌-◌, true, String, text_keys, Option, none, some, List, [],
  ◌∷◌, ◌≡◌, refl, ok, map, if◌then◌else◌, arith,
}
use persista.Dict
use persista.Dict.{Dict}
use persista.Dict.Laws
use persista.Store.Types.{OnConflict}
use persista.Store.Conflicts.{member}
use persista.Store.Base.{BaseStore, IsStore}
use persista.Store.Spec as StoreSpec
use persista.Cache.Types.{Value, Ttl}
use persista.Cache.Spec.{Entries, stamp, live_or, evicted, fresh, Holds, Answers}
use persista.Cache.Many.{
  hits_of, get-hits_of, try_get_many-Answers, delete_many-Answers, not-member-nil,
}
use persista.Cache.{
  entry_of, get_many, contains_many, set_many_resolved, set_many, delete_many, hit_or, entries_of,
  resolve_ttl,
}

module _ {V : Type 0} where
  -- a dict comprehension over keys, as a lookup
  get-update-pairs :
      (f : String → V) (keys : List String) (d : Dict String V) (j : String)
      → Dict.get (Dict.update d (map (λ k. (k, f k)) keys)) j
        ≡ (if member keys j then some (f j) else Dict.get d j)
  unfolding Dict.update member
  get-update-pairs f [] d j = refl
  get-update-pairs f (k ∷ keys) d j = ground (
    arith,
    get-update-pairs f keys (Dict.set d k (f k)) j,
    Laws.get-set d k j (f k),
    text_keys.test_iff k j,
  )

module _ {A : Type 0} (now : ℕ) (default : Value A) (entries : Entries A) where
  -- what `get_many` returns for a key of the batch is what `get` would return
  hit_or-live_or :
      (keys : List String) (k : String)
      → member keys k ≡ true
      → (hit_or (hits_of now entries keys []) default k).1 ≡ live_or default now (entries k)
  unfolding Dict.get
  hit_or-live_or keys k m = ground (arith, get-hits_of now entries keys [] k)

module _ {A : Type 0} (x : Value A) where
  get-entries_of :
      (items : Dict String (Value A)) (k : String)
      → Dict.get (entries_of x items) k
        ≡ elim (Dict.get items k) [ none ↦ none | some v ↦ some (entry_of v x) ]
  unfolding Dict.get
  get-entries_of [] k = refl
  get-entries_of ((j, v) ∷ items) k = ground (arith, get-entries_of items k)

  entries_of-IsDistinct :
      (items : Dict String (Value A)) → Dict.IsDistinct items → Dict.IsDistinct (entries_of x items)
  entries_of-IsDistinct [] d = tt
  entries_of-IsDistinct ((j, v) ∷ items) d =
      (ground (arith, d.0, get-entries_of items j), entries_of-IsDistinct items d.1)

module _ {A : Type 0} (entries : Entries A) where
  -- the dict that `get_many` returns
  pub answer : ℕ → List String → Value A → Dict String (Value A)
  answer now [] default = []
  answer now (key ∷ keys) default =
      Dict.of_pairs (map (hit_or (hits_of now entries (key ∷ keys) []) default) (key ∷ keys))

  pub get-answer :
      (now : ℕ) (keys : List String) (default : Value A) (k : String)
      → Dict.get (answer now keys default) k
        ≡ (if member keys k then some (live_or default now (entries k)) else none)
  unfolding answer Dict.of_pairs Dict.get
  get-answer now [] default k = rw (not-member-nil k)
  get-answer now (key ∷ keys) default k = ground (
    arith,
    get-update-pairs (λ j. (hit_or (hits_of now entries (key ∷ keys) []) default j).1) (key ∷ keys)
        [] k,
    hit_or-live_or now default entries (key ∷ keys) k,
  )

  -- the entries after a batch has been stored with one ttl
  abbrev pub put_many : ℕ → Dict String (Value A) → Option ℤ → Entries A
  put_many now items ttl k = elim (Dict.get items k) [ none ↦ entries k | some v ↦ fresh now v ttl ]

module _ {A : Type 0} (b : BaseStore (Value A)) {view : b.State → View (Value A)}
    (h : IsStore b view) (s : b.State) (entries : Entries A) (rep : Holds h s entries) where
  pub get_many-Answers :
      (now : ℕ) (keys : List String) (default : Value A)
      → Answers h
          (get_many b now keys default s)
          (answer entries now keys default)
          (evicted now keys entries)
  unfolding get_many answer
  get_many-Answers now [] default = record {
    result = refl;
    leaves = record { is_open = rep.is_open; holds = λ k. rw (not-member-nil k) (rep.holds k) };
  }
  get_many-Answers now (key ∷ keys) default =
      let hits = try_get_many-Answers b h s entries rep now (key ∷ keys) in
      rw hits.result (record { result = refl; leaves = hits.leaves })

  pub contains_many-Answers :
      (now : ℕ) (keys : List String)
      → Answers h
          (contains_many b now keys s)
          (map (Dict.contains (hits_of now entries keys [])) keys)
          (evicted now keys entries)
  unfolding contains_many
  contains_many-Answers now keys =
      let hits = try_get_many-Answers b h s entries rep now keys in
      rw hits.result (record { result = refl; leaves = hits.leaves })

  write_many-Answers :
      (items : Dict String (Value A)) (expires : Option ℕ)
      → Dict.IsDistinct items
      → Answers h (b.set_many (entries_of (stamp expires) items) OnConflict.overwrite s) tt (λ k.
        elim (Dict.get items k) [
          | none ↦ entries k
          | some v ↦ some (record { value = v; expires = expires })
        ])
  unfolding StoreSpec.set_many StoreSpec.resolved
  write_many-Answers items expires d =
      let batch = entries_of (stamp expires) items in
      let write =
        h.sets_many s batch OnConflict.overwrite rep.is_open
          (entries_of-IsDistinct (stamp expires) items d) in
      record {
        result = write.result;
        leaves = record {
          is_open = write.stays_open;
          holds = λ k.
              ground (arith, write.shows k, rep.holds k, get-entries_of (stamp expires) items k);
        };
      }

  drop_many-Answers :
      (items : Dict String (Value A))
      → Answers h
          (b.delete_many (Dict.keys items) s)
          tt
          (λ k. elim (Dict.get items k) [ none ↦ entries k | some v ↦ none ])
  unfolding delete_many
  drop_many-Answers items =
      let del = delete_many-Answers b h s entries rep (Dict.keys items) in
      record {
        result = del.result;
        leaves = record {
          is_open = del.leaves.is_open;
          holds = λ k. ground (arith, del.leaves.holds k, member-keys items k);
        };
      }

  set_many_resolved-Answers :
      (now : ℕ) (items : Dict String (Value A)) (ttl : Option ℤ)
      → Dict.IsDistinct items
      → Answers h (set_many_resolved b now items ttl s) tt (put_many entries now items ttl)
  unfolding set_many_resolved fresh
  set_many_resolved-Answers now items none d = write_many-Answers items none d
  set_many_resolved-Answers now items (some (pos zero)) d = drop_many-Answers items
  set_many_resolved-Answers now items (some (pos (suc n))) d =
      write_many-Answers items (some (now + suc n)) d
  set_many_resolved-Answers now items (some (negsuc n)) d =
      write_many-Answers items (some (now - suc n)) d

  -- `set_many` with an accepted ttl does for every item what `set` does for one
  pub set_many-Answers :
      (default_ttl : Option ℤ) (now : ℕ) (items : Dict String (Value A)) (ttl : Ttl)
      {resolved_ttl : Option ℤ}
      → resolve_ttl default_ttl ttl ≡ ok resolved_ttl
      → Dict.IsDistinct items
      → Answers h
          (set_many b default_ttl now items ttl s)
          tt
          (put_many entries now items resolved_ttl)
  unfolding set_many Dict.get
  set_many-Answers default_ttl now [] ttl e d = record {
    result = refl;
    leaves = record { is_open = rep.is_open; holds = rep.holds };
  }
  set_many-Answers default_ttl now (item ∷ items) ttl {resolved_ttl} e d =
      rw e (set_many_resolved-Answers now (item ∷ items) resolved_ttl d)
