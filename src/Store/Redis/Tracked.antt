-- ===== src/Store/Redis/Tracked.antt =====
-- The set of keys that persista/store/redis.py keeps beside its data: whatever the calls, it has
-- exactly the keys with data.
use persista.Common.{
  Bool, true, false, String, text_keys, List, [], ◌∷◌, ◌==◌, ◌≡◌, refl, ◌||◌, Result, ok, err,
  is_some, arith, ◌∙◌, runtime_error, value_error,
}
use persista.Dict
use persista.Dict.{Dict}
use persista.Store.Types.{OnConflict, Fields}
use persista.Store.Normalize.{normalize_on_conflict}
use persista.Store.Conflicts.{member, resolve_conflicts}
use persista.Store.Conflicts.Members.{member-keys}
use persista.Store.Redis
use persista.Store.Redis.{Server, IsServer, Coding, RedisStore, keys_set}
use persista.Store.Redis.Plans.{IsPlan, resolve_conflicts-IsPlan}

-- The set has exactly the keys with data, and not its own.
pub record IsTracked {B : Type 0} (server : Server B) (d : server.Db) : Type 0 where
  pub listed :
      (k : String) → (k == keys_set) ≡ false → server.is_member d k ≡ is_some (server.get d k)
  pub unlisted : server.is_member d keys_set ≡ false

module _ {B : Type 0} (server : Server B) where
  abbrev pub AreTracked : List server.Db → Type 0
  AreTracked [] = Unit {0}
  AreTracked (d ∷ others) = IsTracked server d × AreTracked others

module _ {B V : Type 0} (server : Server B) (coding : Coding B V) (laws : IsServer server) where
  get-set_all :
      (items : Dict String (Fields V)) (d : server.Db) (k : String)
      → member (Dict.keys items) keys_set ≡ false
      → is_some (server.get (Redis.set_all server coding items d) k)
        ≡ (member (Dict.keys items) k || is_some (server.get d k))
  unfolding Redis.set_all member
  get-set_all [] d k m = ground arith
  get-set_all ((j, v) ∷ items) d k m = ground (
    arith,
    get-set_all items (server.set d j (coding.encode v)) k,
    laws.get_set d j k (coding.encode v),
  )

  is_member-set_all :
      (items : Dict String (Fields V)) (d : server.Db) (k : String)
      → member (Dict.keys items) keys_set ≡ false
      → server.is_member (Redis.set_all server coding items d) k ≡ server.is_member d k
  unfolding Redis.set_all member
  is_member-set_all [] d k m = refl
  is_member-set_all ((j, v) ∷ items) d k m = ground (
    arith,
    is_member-set_all items (server.set d j (coding.encode v)) k,
    laws.is_member_set d j k (coding.encode v),
  )

  write-IsTracked :
      (items : Dict String (Fields V)) (d : server.Db)
      → member (Dict.keys items) keys_set ≡ false
      → IsTracked server d
      → IsTracked server (Redis.write server coding items d)
  unfolding Redis.write
  write-IsTracked [] d m h = h
  write-IsTracked (item ∷ items) d m h =
      let w = item ∷ items in
      let d' = Redis.set_all server coding w d in
      record {
        listed = λ k n. ground (
          arith,
          laws.get_add d' (Dict.keys w) k n,
          laws.is_member_add d' (Dict.keys w) k,
          get-set_all w d k m,
          is_member-set_all w d k m,
          h.listed k n,
        );
        unlisted = ground (
          arith,
          laws.is_member_add d' (Dict.keys w) keys_set,
          is_member-set_all w d keys_set m,
          h.unlisted,
        );
      }

  pub delete-IsTracked :
      (ks : List String) (d : server.Db)
      → member ks keys_set ≡ false
      → IsTracked server d
      → IsTracked server (server.remove (server.delete d ks) ks)
  delete-IsTracked ks d m h = record {
    listed = λ k n. ground (
      arith,
      laws.get_remove (server.delete d ks) ks k n,
      laws.is_member_remove (server.delete d ks) ks k,
      laws.get_delete d ks k m,
      laws.is_member_delete d ks k m,
      h.listed k n,
    );
    unlisted = ground (
      arith,
      laws.is_member_remove (server.delete d ks) ks keys_set,
      laws.is_member_delete d ks keys_set m,
      h.unlisted,
    );
  }

  -- the methods that read leave the state
  get_stays :
      (s : RedisStore server.Db) (k : String)
      → Redis.get server coding k s ≡ ((Redis.get server coding k s).0, s)
  unfolding Redis.get
  get_stays s k = ground arith

  contains_many_stays :
      (s : RedisStore server.Db) (ks : List String)
      → Redis.contains_many server coding ks s ≡ ((Redis.contains_many server coding ks s).0, s)
  unfolding Redis.contains_many
  contains_many_stays s [] = ground arith
  contains_many_stays s (k ∷ ks) = ground arith

  plan :
      (s : RedisStore server.Db) (items : Dict String (Fields V)) (c : OnConflict)
      → Result (Dict String (Fields V)) × RedisStore server.Db
  plan s items c =
      resolve_conflicts (Redis.get server coding) items c (Redis.contains_many server coding) s

  plan-IsPlan :
      (s : RedisStore server.Db) (items : Dict String (Fields V)) (c : OnConflict)
      → member (Dict.keys items) keys_set ≡ false
      → IsPlan
          (Redis.get server coding)
          s
          (λ k. (Redis.get server coding k s).0)
          (get_stays s)
          (plan s items c)
  unfolding plan
  plan-IsPlan s items c m =
      resolve_conflicts-IsPlan (Redis.get server coding) s (λ k. (Redis.get server coding k s).0)
        (get_stays s) (Redis.contains_many server coding)
        (λ ks. (Redis.contains_many server coding ks s).0) (contains_many_stays s) c items m

  last_try :
      (s : RedisStore server.Db) (items : Dict String (Fields V)) (c : OnConflict)
      (out : Result (Dict String (Fields V)) × RedisStore server.Db)
      → plan s items c ≡ out
      → IsPlan (Redis.get server coding) s (λ k. (Redis.get server coding k s).0) (get_stays s) out
      → IsTracked server s.db
      → IsTracked server (Redis.retry server coding items c [] s).1.db
  unfolding Redis.retry plan IsPlan
  last_try s items c (err e, s') q p h = rw (q, p.0) h
  last_try s items c (ok w, s') q p h =
      rw (q, p.0) (write-IsTracked w s.db (member-keys w keys_set ∙ p.1 w refl) h)

  refused_try :
      (s : RedisStore server.Db) (items : Dict String (Fields V)) (c : OnConflict) (d : server.Db)
      (others : List server.Db) (out : Result (Dict String (Fields V)) × RedisStore server.Db)
      → plan s items c ≡ out
      → IsPlan (Redis.get server coding) s (λ k. (Redis.get server coding k s).0) (get_stays s) out
      → IsTracked server s.db
      → IsTracked server (Redis.retry server coding items c others (record s { db = d })).1.db
      → IsTracked server (Redis.retry server coding items c (d ∷ others) s).1.db
  unfolding Redis.retry plan IsPlan
  refused_try s items c d others (err e, s') q p h rest = rw (q, p.0) h
  refused_try s items c d others (ok w, s') q p h rest = rw (q, p.0) rest

  retry-IsTracked :
      (items : Dict String (Fields V)) (c : OnConflict) (others : List server.Db)
      (s : RedisStore server.Db)
      → member (Dict.keys items) keys_set ≡ false
      → AreTracked server others
      → IsTracked server s.db
      → IsTracked server (Redis.retry server coding items c others s).1.db
  retry-IsTracked items c [] s m a h = last_try s items c _ refl (plan-IsPlan s items c m) h
  retry-IsTracked items c (d ∷ others) s m a h =
      refused_try s items c d others _ refl (plan-IsPlan s items c m) h
        (retry-IsTracked items c others _ m a.1 a.0)

  set_resolved-IsTracked :
      (others : List server.Db) (items : Dict String (Fields V)) (c : OnConflict)
      (s : RedisStore server.Db)
      → member (Dict.keys items) keys_set ≡ false
      → AreTracked server others
      → IsTracked server s.db
      → IsTracked server (Redis.set_resolved server coding others items c s).1.db
  unfolding Redis.set_resolved
  set_resolved-IsTracked others items OnConflict.overwrite s m a h = write-IsTracked items s.db m h
  set_resolved-IsTracked others items OnConflict.raise s m a h =
      retry-IsTracked items OnConflict.raise others s m a h
  set_resolved-IsTracked others items OnConflict.skip s m a h =
      retry-IsTracked items OnConflict.skip others s m a h
  set_resolved-IsTracked others items OnConflict.merge s m a h =
      retry-IsTracked items OnConflict.merge others s m a h

  -- the three ways through set_many: closed, a reserved key, or neither
  set_many_cases :
      (others : List server.Db) (item : String × Fields V) (items : Dict String (Fields V))
      (c : String) (s : RedisStore server.Db) (closed reserved : Bool) (r : Result OnConflict)
      → s.closed ≡ closed
      → member (Dict.keys (item ∷ items)) keys_set ≡ reserved
      → normalize_on_conflict c ≡ r
      → AreTracked server others
      → IsTracked server s.db
      → IsTracked server (Redis.set_many server coding others (item ∷ items) c s).1.db
  unfolding Redis.set_many
  set_many_cases others item items c s true reserved r e m n a h =
      let q : Redis.set_many server coding others (item ∷ items) c s ≡ (err runtime_error, s) =
        ground arith in
      rw q h
  set_many_cases others item items c s false true r e m n a h =
      let q : Redis.set_many server coding others (item ∷ items) c s ≡ (err value_error, s) =
        ground arith in
      rw q h
  set_many_cases others item items c s false false (err x) e m n a h =
      let q : Redis.set_many server coding others (item ∷ items) c s ≡ (err x, s) = ground arith in
      rw q h
  set_many_cases others item items c s false false (ok strategy) e m n a h =
      let q : Redis.set_many server coding others (item ∷ items) c s
          ≡ Redis.set_resolved server coding others (item ∷ items) strategy s =
        ground arith in
      rw q (set_resolved-IsTracked others (item ∷ items) strategy s m a h)

  pub set_many-IsTracked :
      (others : List server.Db) (items : Dict String (Fields V)) (c : String)
      (s : RedisStore server.Db)
      → AreTracked server others
      → IsTracked server s.db
      → IsTracked server (Redis.set_many server coding others items c s).1.db
  unfolding Redis.set_many
  set_many-IsTracked others [] c s a h =
      let q : (Redis.set_many server coding others [] c s).1.db ≡ s.db = ground arith in rw q h
  set_many-IsTracked others (item ∷ items) c s a h =
      set_many_cases others item items c s s.closed _ _ refl refl refl a h
