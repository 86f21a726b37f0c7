-- ===== src/Store/Redis/Runs.antt =====
-- The calls of persista/store/redis.py that write, one after the other.
use persista.Common.{
  Bool, true, false, String, text_keys, List, [], ◌∷◌, ◌==◌, ◌≡◌, refl, err, arith, runtime_error,
  value_error,
}
use persista.Dict
use persista.Dict.{Dict}
use persista.Store.Types.{Fields}
use persista.Store.Conflicts.{member}
use persista.Store.Redis
use persista.Store.Redis.{Server, IsServer, Coding, RedisStore, keys_set}
use persista.Store.Redis.Tracked.{IsTracked, AreTracked, set_many-IsTracked, delete-IsTracked}

-- The calls that change the store or its server. The items of `set_many` are a dict of these pairs;
-- the databases are those that other clients leave while its tries run.
pub data Call (D V : Type 0) : Type 0 where
  open_store close clear : Call D V
  set : List D → String → Fields V → String → Call D V
  set_many : List D → List (String × Fields V) → String → Call D V
  delete : String → Call D V
  delete_many : List String → Call D V

module _ {B V : Type 0} (server : Server B) (coding : Coding B V) where
  -- the state that a call leaves, whether it returned or raised
  unfoldable pub call : Call server.Db V → RedisStore server.Db → RedisStore server.Db
  call Call.open_store s = (Redis.open_store server coding s).1
  call Call.close s = (Redis.close server coding s).1
  call Call.clear s = (Redis.clear server coding s).1
  call (Call.set others key value c) s = (Redis.set server coding others key value c s).1
  call (Call.set_many others items c) s =
      (Redis.set_many server coding others (Dict.of_pairs items) c s).1
  call (Call.delete key) s = (Redis.delete server coding key s).1
  call (Call.delete_many keys) s = (Redis.delete_many server coding keys s).1

  unfoldable pub run : List (Call server.Db V) → RedisStore server.Db → RedisStore server.Db
  unfolding call
  run [] s = s
  run (c ∷ calls) s = run calls (call c s)

  -- other clients keep the set as well
  abbrev pub IsFair : Call server.Db V → Type 0
  IsFair (Call.set others key value c) = AreTracked server others
  IsFair (Call.set_many others items c) = AreTracked server others
  IsFair _ = Unit {0}

  abbrev pub AreFair : List (Call server.Db V) → Type 0
  AreFair [] = Unit {0}
  AreFair (c ∷ calls) = IsFair c × AreFair calls

  module _ (laws : IsServer server) where
    delete_many-IsTracked :
        (ks : List String) (s : RedisStore server.Db) (closed reserved : Bool)
        → s.closed ≡ closed
        → member ks keys_set ≡ reserved
        → IsTracked server s.db
        → IsTracked server (Redis.delete_many server coding ks s).1.db
    unfolding Redis.delete_many
    delete_many-IsTracked [] s closed reserved e m h =
        let q : (Redis.delete_many server coding [] s).1.db ≡ s.db = ground arith in rw q h
    delete_many-IsTracked (k ∷ ks) s true reserved e m h =
        let q : Redis.delete_many server coding (k ∷ ks) s ≡ (err runtime_error, s) =
          ground arith in
        rw q h
    delete_many-IsTracked (k ∷ ks) s false true e m h =
        let q : Redis.delete_many server coding (k ∷ ks) s ≡ (err value_error, s) = ground arith in
        rw q h
    delete_many-IsTracked (k ∷ ks) s false false e m h =
        let q : (Redis.delete_many server coding (k ∷ ks) s).1.db
            ≡ server.remove (server.delete s.db (k ∷ ks)) (k ∷ ks) =
          ground arith in
        rw q (delete-IsTracked server coding laws (k ∷ ks) s.db m h)

    delete_one-IsTracked :
        (k : String) (s : RedisStore server.Db) (closed reserved : Bool)
        → s.closed ≡ closed
        → (k == keys_set) ≡ reserved
        → IsTracked server s.db
        → IsTracked server (Redis.delete server coding k s).1.db
    unfolding Redis.delete member
    delete_one-IsTracked k s true reserved e m h =
        let q : Redis.delete server coding k s ≡ (err runtime_error, s) = ground arith in rw q h
    delete_one-IsTracked k s false true e m h =
        let q : Redis.delete server coding k s ≡ (err value_error, s) = ground arith in rw q h
    delete_one-IsTracked k s false false e m h =
        let q : (Redis.delete server coding k s).1.db
            ≡ server.remove (server.delete s.db (k ∷ [])) (k ∷ []) =
          ground arith in
        rw q (delete-IsTracked server coding laws (k ∷ []) s.db (ground arith) h)

    clear-IsTracked :
        (s : RedisStore server.Db) (closed : Bool)
        → s.closed ≡ closed
        → IsTracked server s.db
        → IsTracked server (Redis.clear server coding s).1.db
    unfolding Redis.clear
    clear-IsTracked s true e h =
        let q : Redis.clear server coding s ≡ (err runtime_error, s) = ground arith in rw q h
    clear-IsTracked s false e h =
        let q : Redis.clear server coding s
            ≡ Redis.delete_many server coding (server.members s.db) s =
          ground arith in
        rw q (delete_many-IsTracked (server.members s.db) s false _ e refl h)

    call-IsTracked :
        (c : Call server.Db V) (s : RedisStore server.Db)
        → IsFair c
        → IsTracked server s.db
        → IsTracked server (call c s).db
    unfolding call Redis.open_store Redis.close Redis.set
    call-IsTracked Call.open_store s f h = h
    call-IsTracked Call.close s f h = h
    call-IsTracked Call.clear s f h = clear-IsTracked s s.closed refl h
    call-IsTracked (Call.set others k v c) s f h =
        set_many-IsTracked server coding laws others ((k, v) ∷ []) c s f h
    call-IsTracked (Call.set_many others items c) s f h =
        set_many-IsTracked server coding laws others (Dict.of_pairs items) c s f h
    call-IsTracked (Call.delete k) s f h = delete_one-IsTracked k s s.closed _ refl refl h
    call-IsTracked (Call.delete_many ks) s f h = delete_many-IsTracked ks s s.closed _ refl refl h

    -- From a state in which the set of keys has exactly the keys with data, and not its own, whatever
    -- calls are made, successful or not, and whatever tries of set_many other clients disturb, as long
    -- as they do the same, it still has exactly those.
    pub run-IsTracked :
        (calls : List (Call server.Db V)) (s : RedisStore server.Db)
        → AreFair calls
        → IsTracked server s.db
        → IsTracked server (run calls s).db
    unfolding run
    run-IsTracked [] s f h = h
    run-IsTracked (c ∷ calls) s f h = run-IsTracked calls (call c s) f.1 (call-IsTracked c s f.0 h)
