-- ===== src/Tests/Caches.antt =====
-- The cache over the in-memory store, run and instantiated.
use persista.Store.InMemory.Laws.{view}
use persista.Common.{
  ℕ, pos, negsuc, true, false, String, none, some, List, [], ◌∷◌, ◌≡◌, ◌≢◌, refl, ok, err,
  value_error, Exec, arith, if◌then◌else◌, ◌⊎◌, text_keys, Result,
}
use text.Mathlib.TextEquality.{eq_iff}
use persista.Dict
use persista.Dict.{Dict}
use persista.Store.Types.{Object}
use persista.Store.Batching.{chunks}
use persista.Store.Base.{BaseStore, IsStore}
use persista.Store.Conflicts.{member}
use persista.Store.InMemory.{InMemoryStore}
use persista.Store.InMemory.Contract.{in_memory, in_memory-IsStore}
use persista.Store.Null.{NullStore, null_store}
use persista.Cache.Disabled
use persista.Cache
use persista.Cache.{resolve_ttl}
use persista.Cache.Types.{Value, null, time, obj, unset, given}
use persista.Cache.Spec.{Entries, live, evicted, Holds, Answers}
use persista.Cache.Expiry
use persista.Cache.Compute
use persista.Cache.Many
use persista.Cache.Memoize
use persista.Cache.Keys.{Serializers, make_key}
use persista.Cache.Refines

-- The cached objects are numbers; `==` on them is not used by a cache.
instance abbrev value_object : Object (Value ℕ)
value_object = record { none_value = null; equals = λ a b. false }

abbrev store : BaseStore (Value ℕ)
store = in_memory chunks

abbrev law : IsStore store view
law = in_memory-IsStore chunks

-- an open cache with one entry, which expires at 10
abbrev start : InMemoryStore (Value ℕ)
start = record {
  entries = ("a", ("value", obj 1) ∷ ("expires_at", time 10) ∷ []) ∷ [];
  closed = false;
}

abbrev entries : Entries ℕ
entries k = Dict.get (("a", record { value = obj 1; expires = some 10 }) ∷ []) k

start-Holds : Holds law start entries
unfolding Dict.get
start-Holds = record { is_open = refl; holds = λ k. ground arith }

accepted : resolve_ttl none (given (some (pos 5))) ≡ ok (some (pos 5))
unfolding resolve_ttl
accepted = refl

a_not_b : ◌≢◌ {A = String} "a" "b"
a_not_b = ground (arith, eq_iff "a" "b")

get-set_self_example :
    (Cache.get store 6 "b" null
      (Cache.set store none 1 "b" (obj 2) (given (some (pos 5))) start).1).0
    ≡ ok (if Expiry.is_alive 1 (some (pos 5)) 6 then obj 2 else null)
get-set_self_example =
    Expiry.get-set_self store law start entries start-Holds none 1 "b" (obj 2)
      (given (some (pos 5))) accepted 6 null

abbrev keys : List String
keys = "a" ∷ "b" ∷ []

get_many-get_example :
    (d : Dict String (Value ℕ)) × ((Cache.get_many store 3 keys null start).0 ≡ ok d)
    × ((k : String)
        → member keys k ≡ true
        → (v : Value ℕ) × (Dict.get d k ≡ some v) × ((Cache.get store 3 k null start).0 ≡ ok v))
    × ((k : String) → member keys k ≡ false → Dict.get d k ≡ none)
get_many-get_example = Expiry.get_many-get store law start entries start-Holds 3 keys null

abbrev items : Dict String (Value ℕ)
items = ("b", obj 2) ∷ ("c", obj 3) ∷ []

items-IsDistinct : Dict.IsDistinct items
unfolding Dict.get
items-IsDistinct = (refl, (refl, tt))

get-set_many_example :
    (Cache.get store 6 "b" null
      (Cache.set_many store none 1 items (given (some (pos 5))) start).1).0
    ≡ elim (Dict.get items "b") [
      | none ↦ (Cache.get store 6 "b" null start).0
      | some v ↦ ok (if Expiry.is_alive 1 (some (pos 5)) 6 then v else null)
    ]
get-set_many_example =
    Expiry.get-set_many store law start entries start-Holds none 1 items (given (some (pos 5))) 6
      null "b" accepted items-IsDistinct

get-get_many_example :
    (Cache.get store 20 "a" null (Cache.get_many store 11 keys null start).1).0
    ≡ (Cache.get store 20 "a" null start).0
get-get_many_example =
    Expiry.get-get_many store law start entries start-Holds 11 20 keys null null "a" (omega arith)

set_accepts_example :
    ((n : ℕ) × (Cache.choose_ttl (some (negsuc 0)) unset ≡ some (negsuc n))
      × (Cache.set store (some (negsuc 0)) 1 "b" (obj 2) unset start ≡ (err value_error, start)))
    ⊎ (((n : ℕ) → Cache.choose_ttl (some (negsuc 0)) unset ≢ some (negsuc n))
        × ((Cache.set store (some (negsuc 0)) 1 "b" (obj 2) unset start).0 ≡ ok tt))
set_accepts_example =
    Expiry.set_accepts store law start entries start-Holds (some (negsuc 0)) 1 "b" (obj 2) unset

-- at 11 the entry has expired: the batch misses "a" and drops it
try_get_many-Answers_example :
    Answers law
      (Cache.try_get_many store 11 keys start)
      (Many.hits_of 11 entries keys [])
      (evicted 11 keys entries)
try_get_many-Answers_example = Many.try_get_many-Answers store law start entries start-Holds 11 keys

abbrev compute : Exec (InMemoryStore (Value ℕ)) (Value ℕ)
compute s = (ok (obj 7), s)

abbrev recompute : Exec (InMemoryStore (Value ℕ)) (Value ℕ)
recompute s = (ok (obj 8), s)

missing : live 3 (entries "b") ≡ none
unfolding live Dict.get
missing = refl

computed :
    Answers law (compute (Cache.look_up store 3 "b" start).1) (obj 7) (evicted 3 ("b" ∷ []) entries)
computed = record {
  result = refl;
  leaves = (Refines.look_up-Answers store law start entries start-Holds 3 "b").leaves;
}

get_or_compute_twice_example :
    (Cache.get_or_compute store none 8 8 "b" recompute
      (given (some (pos 5)))
      (Cache.get_or_compute store none 3 4 "b" compute (given (some (pos 5))) start).1).0
    ≡ ok (obj 7)
unfolding Expiry.is_alive
get_or_compute_twice_example =
    Compute.get_or_compute_twice store law start entries start-Holds none 3 "b" 4 8 8 compute
      recompute (given (some (pos 5))) (obj 7) missing computed accepted refl

abbrev serializers : Serializers ℕ String
serializers = record {
  json_value = λ v. ok "";
  json_call = λ name args kwargs. ok name;
  pickle_value = λ v. ok "";
  pickle_call = λ name args kwargs. ok name;
  hash_bytes = λ raw. raw;
  json_cached = λ v. none;
  pickle_cached = λ v. none;
}

made : make_key serializers "b" (3 ∷ []) [] "json" true ≡ ok "b"
unfolding make_key
made = refl

-- the call that misses
abbrev called : Result (Value ℕ) × InMemoryStore (Value ℕ)
called =
    Memoize.memoize serializers store none (given (some (pos 5))) "json" true "b"
      (λ args kwargs. compute) 3 4 (3 ∷ []) [] start

memoize_twice_example :
    (called.0 ≡ ok (obj 7))
    × ((Memoize.memoize serializers store none
          (given (some (pos 5)))
          "json"
          true
          "b"
          (λ args kwargs. recompute)
          8
          8
          (3 ∷ [])
          []
          called.1).0
        ≡ ok (obj 7))
unfolding Expiry.is_alive
memoize_twice_example =
    Memoize.memoize_twice serializers serializers store law start entries start-Holds none
      (given (some (pos 5))) "json" true "b" (λ args kwargs. compute) (λ args kwargs. recompute) 3 4
      8 8 (3 ∷ []) (3 ∷ []) [] [] "b" (obj 7) made made missing computed accepted refl

abbrev opened : NullStore
opened = record { closed = false }

null-misses_example :
    let t = (Cache.set {A = ℕ} null_store none 0 "a" (obj 1) unset opened).1 in
    (Cache.get {A = ℕ} null_store 1 "a" null t ≡ (ok null, t))
    × (Cache.contains {A = ℕ} null_store 1 "a" t ≡ (ok false, t))
    × (Cache.get_or_compute {A = ℕ} null_store none 1 1 "a" (λ u. (ok (obj 1), u)) unset t
        ≡ (ok (obj 1), t))
null-misses_example =
    Disabled.null-misses {A = ℕ} none unset opened refl refl 0 1 "a" "a" (obj 1) null
