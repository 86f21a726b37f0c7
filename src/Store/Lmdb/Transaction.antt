-- ===== src/Store/Lmdb/Transaction.antt =====
-- What the write transactions of `set_many` of persista/store/lmdb.py leave in the database.
use persista.Common.{
  true, false, String, text_keys, Option, none, some, List, [], ◌∷◌, ◌≡◌, ◌≢◌, refl, ◌==◌, ok, err,
  is_some, if◌then◌else◌, arith, ◌∙◌, key_error,
}
use persista.Dict
use persista.Dict.{Dict}
use persista.Store.Types.{OnConflict, Fields}
use persista.Store.Conflicts.{member, refuse}
use persista.Store.Conflicts.Laws as Conflicts
use persista.Store.Spec
use persista.Store.Spec.{View, conflict_keys}
use persista.Store.Base.{Becomes}
use persista.Store.Lmdb
use persista.Store.Lmdb.{LmdbStore, Environment, IsEnvironment, Coding, conflicts_in}
use persista.Store.Lmdb.Reads
use persista.Store.Lmdb.Reads.{
  IsCoding, closed, is_some-view, conflicts_in-eq-conflict_keys, get_open, get_many_open,
  contains_open, contains_many_open,
}

module _ {B V : Type 0} (env : Environment B) (coding : Coding B V) {value_of : B → Fields V}
    (codec : IsCoding coding value_of) where
  abbrev view_of : env.Db → View V
  view_of = Reads.view_of env coding codec

  abbrev view : LmdbStore env.Db → View V
  view = Reads.view env coding codec

  module _ (laws : IsEnvironment env) where
    pub view-put :
        (d : env.Db) (j k : String) (v : Fields V)
        → view_of (env.put d j (coding.encode v)) k ≡ (if j == k then some v else view_of d k)
    view-put d j k v = ground (arith, laws.get_put d j k (coding.encode v), codec.round_trip v)

    view-put_all :
        (d : env.Db) (items : Dict String (Fields V)) (k : String)
        → Dict.IsDistinct items
        → view_of (Lmdb.put_all env coding items d) k
          ≡ elim (Dict.get items k) [ none ↦ view_of d k | some v ↦ some v ]
    unfolding Lmdb.put_all Dict.get
    view-put_all d [] k h = refl
    view-put_all d ((j, v) ∷ items) k h = ground (
      arith,
      view-put_all (env.put d j (coding.encode v)) items k h.1,
      view-put d j k v,
      text_keys.test_iff j k,
    )

    -- what the loop makes of what a key has and of what is written to it
    loop_value : OnConflict → Option (Fields V) → Fields V → Fields V
    loop_value c none new = new
    loop_value OnConflict.skip (some old) new = old
    loop_value c (some old) new = Dict.update old new

    -- what one round leaves, by what the key has
    IsPut : OnConflict → String → Fields V → env.Db → env.Db → Type 0
    IsPut c k v d d' =
        (j : String)
        → view_of d' j ≡ (if k == j then some (loop_value c (view_of d k) v) else view_of d j)

    put_item-lem :
        (c : OnConflict) (conflicts : List String) (k : String) (v : Fields V) (d : env.Db)
        (raw : Option B)
        → env.get d k ≡ raw
        → member conflicts k ≡ is_some raw
        → (d' : env.Db) × (Lmdb.put_item env coding c conflicts k v d ≡ ok d') × IsPut c k v d d'
    unfolding Lmdb.put_item loop_value IsPut
    put_item-lem c conflicts k v d none q h =
        (env.put d k (coding.encode v), ground arith, λ j. ground (arith, view-put d k j v))
    put_item-lem OnConflict.skip conflicts k v d (some b) q h =
        (d, ground arith, λ j. ground (arith, text_keys.test_iff k j))
    put_item-lem c conflicts k v d (some b) q h = (
      env.put d k (coding.encode (Dict.update (value_of b) v)),
      ground (arith, codec.decodes b),
      λ j. ground (arith, view-put d k j (Dict.update (value_of b) v)),
    )

    put_items-lem :
        (c : OnConflict) (conflicts : List String) (items : Dict String (Fields V)) (d : env.Db)
        → Dict.IsDistinct items
        → ((k : String) → Dict.contains items k ≡ true → member conflicts k ≡ is_some (env.get d k))
        → (d' : env.Db) × (Lmdb.put_items env coding c conflicts items d ≡ ok d')
          × ((j : String)
              → view_of d' j ≡ elim (Dict.get items j) [
                | none ↦ view_of d j
                | some v ↦ some (loop_value c (view_of d j) v)
              ])
    unfolding Lmdb.put_items Dict.get IsPut
    put_items-lem c conflicts [] d h m = (d, refl, λ j. refl)
    put_items-lem c conflicts ((k, v) ∷ items) d h m =
        let (d1, p, g) =
          put_item-lem c conflicts k v d (env.get d k) refl
            (m k (ground (arith, text_keys.test_iff k k))) in
        let (d', p', g') = put_items-lem c conflicts items d1 h.1 (λ j n. ground (
          arith,
          m j,
          n,
          g j,
          text_keys.test_iff k j,
          is_some-view env coding codec d j,
          is_some-view env coding codec d1 j,
        )) in
        (d', ground (arith, p, p'), λ j. ground (arith, g j, g' j, text_keys.test_iff k j))

    loop_value-resolved :
        (c : OnConflict) (d : env.Db) (items : Dict String (Fields V)) (j : String) (v : Fields V)
        → c ≢ OnConflict.overwrite
        → refuse c (conflict_keys (view_of d) items) ≡ ok tt
        → Dict.get items j ≡ some v
        → loop_value c (view_of d j) v ≡ Spec.resolved c (view_of d j) v
    unfolding loop_value Spec.resolved
    loop_value-resolved OnConflict.overwrite d items j v n r q = absurd (n refl)
    loop_value-resolved OnConflict.raise d items j v n r q =
        ground (arith, Conflicts.no_conflict (view_of d) items j r)
    loop_value-resolved OnConflict.skip d items j v n r q = ground arith
    loop_value-resolved OnConflict.merge d items j v n r q = ground arith

    loop-after_write :
        (c : OnConflict) (d : env.Db) (items : Dict String (Fields V)) (j : String)
        (x : Option (Fields V))
        → c ≢ OnConflict.overwrite
        → refuse c (conflict_keys (view_of d) items) ≡ ok tt
        → Dict.get items j ≡ x
        → elim x [ none ↦ view_of d j | some v ↦ some (loop_value c (view_of d j) v) ]
          ≡ Spec.after_write c items (view_of d) j
    unfolding Spec.after_write
    loop-after_write c d items j none n r q = ground arith
    loop-after_write c d items j (some v) n r q =
        ground (arith, loop_value-resolved c d items j v n r q)

    member-conflicts_in :
        (d : env.Db) (items : Dict String (Fields V)) (k : String)
        → Dict.contains items k ≡ true
        → member (conflict_keys (view_of d) items) k ≡ is_some (env.get d k)
    member-conflicts_in d items k h = ground (
      arith,
      Conflicts.member-conflict_keys (view_of d) items k,
      is_some-view env coding codec d k,
    )

    -- A strategy other than "overwrite" that refuses nothing leaves what the contract says.
    resolve-Becomes :
        (s : LmdbStore env.Db) (items : Dict String (Fields V)) (c : OnConflict)
        → s.closed ≡ false
        → Dict.IsDistinct items
        → c ≢ OnConflict.overwrite
        → refuse c (conflict_keys (view s) items) ≡ ok tt
        → Becomes
            (closed env coding codec)
            view
            (Lmdb.resolve env coding items c s)
            (ok tt, Spec.after_write c items (view s))
    unfolding Lmdb.resolve Spec.after_write
    resolve-Becomes s items c h distinct n r =
        let (d', p, g) =
          put_items-lem c (conflict_keys (view s) items) items s.db distinct
            (member-conflicts_in s.db items) in
        let q : Lmdb.resolve env coding items c s ≡ (ok tt, record s { db = d' }) =
          ground (arith, conflicts_in-eq-conflict_keys env coding codec s.db items, r, p) in
        rw q (record {
          result = refl;
          stays_open = h;
          shows = λ j. g j ∙ loop-after_write c s.db items j (Dict.get items j) n r refl;
        })

    resolve_refused :
        (s : LmdbStore env.Db) (items : Dict String (Fields V)) (k : String) (ks : List String)
        → conflict_keys (view s) items ≡ k ∷ ks
        → Lmdb.resolve env coding items OnConflict.raise s ≡ (err (key_error (k ∷ ks)), s)
    unfolding Lmdb.resolve
    resolve_refused s items k ks e =
        ground (arith, conflicts_in-eq-conflict_keys env coding codec s.db items)

    raise-Becomes :
        (s : LmdbStore env.Db) (items : Dict String (Fields V)) (ks : List String)
        → s.closed ≡ false
        → Dict.IsDistinct items
        → conflict_keys (view s) items ≡ ks
        → Becomes
            (closed env coding codec)
            view
            (Lmdb.resolve env coding items OnConflict.raise s)
            (Spec.write_or_raise ks items (view s))
    unfolding Spec.write_or_raise refuse
    raise-Becomes s items [] h distinct e =
        resolve-Becomes s items OnConflict.raise h distinct (cc) (rw e refl)
    raise-Becomes s items (k ∷ ks) h distinct e =
        let q : Lmdb.resolve env coding items OnConflict.raise s ≡ (err (key_error (k ∷ ks)), s) =
          resolve_refused s items k ks e in
        rw q (record { result = refl; stays_open = h; shows = λ j. refl })

    pub set_resolved-Becomes :
        (s : LmdbStore env.Db) (items : Dict String (Fields V)) (c : OnConflict)
        → s.closed ≡ false
        → Dict.IsDistinct items
        → Becomes
            (closed env coding codec)
            view
            (Lmdb.set_resolved env coding items c s)
            (Spec.set_many c items (view s))
    unfolding Lmdb.set_resolved Spec.set_many Spec.after_write Spec.resolved refuse
    set_resolved-Becomes s items OnConflict.overwrite h d = record {
      result = refl;
      stays_open = h;
      shows = λ j. ground (arith, view-put_all s.db items j d);
    }
    set_resolved-Becomes s items OnConflict.raise h d = raise-Becomes s items _ h d refl
    set_resolved-Becomes s items OnConflict.skip h d =
        resolve-Becomes s items OnConflict.skip h d (cc) (ground arith)
    set_resolved-Becomes s items OnConflict.merge h d =
        resolve-Becomes s items OnConflict.merge h d (cc) (ground arith)
