-- ===== src/Store/Lmdb/Reads.antt =====
-- What the reading methods of persista/store/lmdb.py return, if every stored text decodes.
use persista.Common.{
  Bool, false, String, text_keys, Option, none, some, List, [], ◌∷◌, map, ◌≡◌, refl, ok, is_some,
  arith,
}
use persista.Dict.{Dict}
use persista.Store.Types.{Fields}
use persista.Store.Spec.{View, conflict_keys}
use persista.Store.Lmdb
use persista.Store.Lmdb.{LmdbStore, Environment, IsEnvironment, Coding, conflicts_in}

-- What is encoded can be decoded: every raw value decodes, and an encoded value to itself.
pub record IsCoding {B V : Type 0} (coding : Coding B V) (value_of : B → Fields V) : Type 0 where
  pub decodes : (b : B) → coding.decode b ≡ ok (value_of b)
  pub round_trip : (v : Fields V) → value_of (coding.encode v) ≡ v

module _ {B V : Type 0} (env : Environment B) (coding : Coding B V) {value_of : B → Fields V}
    (codec : IsCoding coding value_of) where
  abbrev pub decoded : Option B → Option (Fields V)
  decoded none = none
  decoded (some b) = some (value_of b)

  abbrev pub view_of : env.Db → View V
  view_of d k = decoded (env.get d k)

  abbrev pub view : LmdbStore env.Db → View V
  view s = view_of s.db

  abbrev pub closed : LmdbStore env.Db → Bool
  closed s = s.closed

  decode_raw-decoded : (raw : Option B) → Lmdb.decode_raw env coding raw ≡ ok (decoded raw)
  unfolding Lmdb.decode_raw
  decode_raw-decoded none = refl
  decode_raw-decoded (some b) = ground (arith, codec.decodes b)

  decode_raws-decoded :
      (d : env.Db) (ks : List String)
      → Lmdb.decode_raws env coding (map (env.get d) ks) ≡ ok (map (view_of d) ks)
  unfolding Lmdb.decode_raws
  decode_raws-decoded d [] = refl
  decode_raws-decoded d (k ∷ ks) =
      ground (arith, decode_raw-decoded (env.get d k), decode_raws-decoded d ks)

  pub is_some-view : (d : env.Db) (k : String) → is_some (env.get d k) ≡ is_some (view_of d k)
  is_some-view d k = ground arith

  map-is_some-view :
      (d : env.Db) (ks : List String)
      → map (λ k. is_some (env.get d k)) ks ≡ map (λ k. is_some (view_of d k)) ks
  map-is_some-view d [] = refl
  map-is_some-view d (k ∷ ks) = ground (arith, map-is_some-view d ks, is_some-view d k)

  pub conflicts_in-eq-conflict_keys :
      (d : env.Db) (items : Dict String (Fields V))
      → conflicts_in env coding items d ≡ conflict_keys (view_of d) items
  unfolding conflict_keys
  conflicts_in-eq-conflict_keys d [] = refl
  conflicts_in-eq-conflict_keys d ((k, v) ∷ items) =
      ground (arith, conflicts_in-eq-conflict_keys d items, is_some-view d k)

  pub get_open :
      (s : LmdbStore env.Db) (k : String)
      → s.closed ≡ false
      → Lmdb.get env coding k s ≡ (ok (view s k), s)
  unfolding Lmdb.get
  get_open s k h = ground (arith, decode_raw-decoded (env.get s.db k))

  pub get_many_open :
      (s : LmdbStore env.Db) (ks : List String)
      → s.closed ≡ false
      → Lmdb.get_many env coding ks s ≡ (ok (map (view s) ks), s)
  unfolding Lmdb.get_many
  get_many_open s [] h = ground arith
  get_many_open s (k ∷ ks) h = ground (arith, decode_raws-decoded s.db (k ∷ ks))

  pub contains_open :
      (s : LmdbStore env.Db) (k : String)
      → s.closed ≡ false
      → Lmdb.contains env coding k s ≡ (ok (is_some (view s k)), s)
  unfolding Lmdb.contains
  contains_open s k h = ground (arith, is_some-view s.db k)

  pub contains_many_open :
      (s : LmdbStore env.Db) (ks : List String)
      → s.closed ≡ false
      → Lmdb.contains_many env coding ks s ≡ (ok (map (λ k. is_some (view s k)) ks), s)
  unfolding Lmdb.contains_many
  contains_many_open s [] h = ground arith
  contains_many_open s (k ∷ ks) h = ground (arith, map-is_some-view s.db (k ∷ ks))
