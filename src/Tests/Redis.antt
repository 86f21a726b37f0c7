-- ===== src/Tests/Redis.antt =====
-- The Redis store over a server of one dict and one set, run and instantiated.
use persista.Common.{
  ℕ, Bool, false, not, String, text_keys, List, [], ◌∷◌, ◌++◌, ◌≡◌, ◌&&◌, refl, ok, length, arith,
  select,
}
use persista.Dict
use persista.Dict.{Dict}
use persista.Dict.Laws
use persista.Store.Normalize.{normalize_on_conflict}
use persista.Store.Conflicts.{member}
use persista.Store.Types.{Fields}
use persista.Store.Engine.Table.{drop_in, get-drop_in}
use persista.Store.Sqlite.Rows.{member-append}
use persista.Store.Redis
use persista.Store.Redis.{Server, IsServer, Coding, RedisStore, keys_set}
use persista.Store.Redis.Tracked.{IsTracked}
use persista.Store.Redis.Runs
use persista.Store.Redis.Runs.{Call, run}

-- a server: the data, and the members of the set
server : Server (Fields ℕ)
unfolding drop_in
server = record {
  Db = Dict String (Fields ℕ) × List String;
  get = λ d k. Dict.get d.0 k;
  set = λ d k b. (Dict.set d.0 k b, d.1);
  delete = λ d ks. (drop_in d.0 ks, d.1);
  is_member = λ d k. member d.1 k;
  add = λ d ks. (d.0, ks ++ d.1);
  remove = λ d ks. (d.0, select (λ k. not (member ks k)) d.1);
  members = λ d. d.1;
  card = λ d. length d.1;
}

member-select :
    (p : String → Bool) (ks : List String) (k : String)
    → member (select p ks) k ≡ (member ks k && p k)
unfolding member
member-select p [] k = refl
member-select p (j ∷ ks) k = ground (arith, member-select p ks k, text_keys.test_iff j k)

server-IsServer : IsServer server
unfolding server
server-IsServer = record {
  get_set = λ d j k b n. Laws.get-set d.0 j k b;
  is_member_set = λ d j k b n. refl;
  get_delete = λ d js k n. get-drop_in d.0 js k;
  is_member_delete = λ d js k n. refl;
  get_add = λ d js k n. refl;
  is_member_add = λ d js k. member-append js d.1 k;
  get_remove = λ d js k n. refl;
  is_member_remove = λ d js k. member-select (λ j. not (member js j)) d.1 k;
}

abbrev plain : Coding (Fields ℕ) ℕ
plain = record { encode = λ v. v; decode = ok }

-- what the runs below compute with
program : Unit {0}
unfolding server run normalize_on_conflict Dict.get Dict.set Dict.update Dict.of_pairs member
    Redis.set Redis.set_many Redis.delete
program = tt

empty : RedisStore server.Db
unfolding server
empty = record { closed = false; db = ([], []) }

empty-IsTracked : IsTracked server empty.db
unfolding empty member Dict.get
empty-IsTracked = record { listed = λ k n. refl; unlisted = refl }

-- while "raise" writes one key, another client writes it too
other : server.Db
unfolding server
other = (("ann", []) ∷ [], "ann" ∷ [])

other-IsTracked : IsTracked server other
unfolding other member Dict.get
other-IsTracked = record { listed = λ k n. ground arith; unlisted = refl }

abbrev calls : List (Call server.Db ℕ)
calls =
    Call.set (other ∷ []) "ann" (("age", 30) ∷ []) "raise"
    ∷ Call.set [] "bob" [] "overwrite"
    ∷ Call.set [] "__keys__" [] "overwrite"
    ∷ Call.delete "ann"
    ∷ []

-- the retried "raise" finds the key of the other client, and the reserved key is refused
last : server.Db
unfolding server
last = (("bob", []) ∷ [], "bob" ∷ [])

ends : (run server plain calls empty).db ≡ last
unfolding program empty other last Dict.pop
ends = refl

run-IsTracked_example : IsTracked server (run server plain calls empty).db
run-IsTracked_example =
    Runs.run-IsTracked server plain server-IsServer calls empty
      ((other-IsTracked, tt), (tt, (tt, (tt, tt)))) empty-IsTracked
