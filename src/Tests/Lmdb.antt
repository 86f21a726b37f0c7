-- ===== src/Tests/Lmdb.antt =====
-- The LMDB store over a dict, run and instantiated.
use persista.Common.{ℕ, false, String, text_keys, [], ◌∷◌, ◌≡◌, refl, ok, length, some}
use persista.Dict
use persista.Dict.{Dict}
use persista.Dict.Laws
use persista.Tests.Stores.{nat_object}
use persista.Store.Normalize.{normalize_on_conflict}
use persista.Store.Types.{Fields}
use persista.Store.Base.{IsStore}
use persista.Store.Batching.{chunks}
use persista.Store.Lmdb
use persista.Store.Lmdb.{LmdbStore, Environment, IsEnvironment, Coding}
use persista.Store.Lmdb.Contract
use persista.Store.Lmdb.Reads
use persista.Store.Lmdb.Reads.{IsCoding}

-- an environment: a dict
environment : Environment (Fields ℕ)
environment = record {
  Db = Dict String (Fields ℕ);
  get = Dict.get;
  put = Dict.set;
  delete = Dict.pop;
  drop = λ d. [];
  keys = Dict.keys;
  entries = length;
}

environment-IsEnvironment : IsEnvironment environment
unfolding environment Dict.get
environment-IsEnvironment = record {
  get_put = λ d j k b. Laws.get-set d j k b;
  get_delete = λ d j k. Laws.get-pop d j k;
  get_drop = λ d k. refl;
}

-- values as their own encodings
abbrev plain : Coding (Fields ℕ) ℕ
plain = record { encode = λ v. v; decode = ok }

plain-IsCoding : IsCoding plain (λ v. v)
plain-IsCoding = record { decodes = λ b. refl; round_trip = λ v. refl }

lmdb-IsStore_example :
    IsStore (Contract.lmdb environment plain chunks) (Reads.view environment plain plain-IsCoding)
lmdb-IsStore_example =
    Contract.lmdb-IsStore environment plain chunks plain-IsCoding environment-IsEnvironment

one : LmdbStore environment.Db
unfolding environment
one = record { closed = false; db = ("ann", ("age", 30) ∷ []) ∷ [] }

merged :
    (Lmdb.get environment plain "ann"
      (Lmdb.set environment plain "ann" (("level", 1) ∷ []) "merge" one).1).0
    ≡ ok (some (("age", 30) ∷ ("level", 1) ∷ []))
unfolding environment one Lmdb.get Lmdb.set normalize_on_conflict Dict.get Dict.set Dict.update
merged = refl
