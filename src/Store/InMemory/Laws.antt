-- ===== src/Store/InMemory/Laws.antt =====
-- `InMemoryStore` keeps the contract of a store.
use persista.Common.{
  Bool, false, String, text_keys, none, List, [], ◌∷◌, map, ◌≡◌, refl, ok, is_some, arith,
}
use persista.Dict
use persista.Dict.{Dict}
use persista.Dict.Laws
use persista.Store.Types.{OnConflict, Fields}
use persista.Store.Normalize.{name, normalize-name}
use persista.Store.Spec
use persista.Store.Spec.{View}
use persista.Store.Conflicts.{member}
use persista.Store.Writes.{IsWriter, set_resolved-Becomes}
use persista.Store.Base.{Becomes, without, without_key}
use persista.Store.InMemory.{
  InMemoryStore, get, get_many, contains, contains_many, write, set_resolved, set_many, delete,
  delete_many, clear, data_get,
}

module _ {V : Type 0} where
  abbrev pub view : InMemoryStore V → View V
  view s k = Dict.get s.entries k

  abbrev pub closed : InMemoryStore V → Bool
  closed s = s.closed

  pub get_open :
      (s : InMemoryStore V) (k : String) → s.closed ≡ false → get k s ≡ (ok (view s k), s)
  unfolding get
  get_open s k h = ground arith

  pub get_many_open :
      (s : InMemoryStore V) (ks : List String)
      → s.closed ≡ false
      → get_many ks s ≡ (ok (map (view s) ks), s)
  unfolding get_many
  get_many_open s [] h = refl
  get_many_open s (k ∷ ks) h = ground (arith, get_many_open s ks h)

  pub contains_open :
      (s : InMemoryStore V) (k : String)
      → s.closed ≡ false
      → contains k s ≡ (ok (is_some (view s k)), s)
  unfolding contains
  contains_open s k h = ground arith

  pub contains_many_open :
      (s : InMemoryStore V) (ks : List String)
      → s.closed ≡ false
      → contains_many ks s ≡ (ok (map (λ k. is_some (view s k)) ks), s)
  unfolding contains_many
  contains_many_open s ks h = ground arith

  pub delete_open :
      (s : InMemoryStore V) (k : String)
      → s.closed ≡ false
      → Becomes closed view (delete k s) (ok tt, without_key k (view s))
  unfolding delete
  delete_open s k h = record {
    result = ground arith;
    stays_open = ground arith;
    shows = λ j. ground (arith, Laws.get-pop s.entries k j);
  }

  pub clear_open :
      (s : InMemoryStore V) → s.closed ≡ false → Becomes closed view (clear s) (ok tt, λ k. none)
  unfolding clear Dict.get
  clear_open s h = record {
    result = ground arith;
    stays_open = ground arith;
    shows = λ j. ground arith;
  }

  pub delete_many_open :
      (s : InMemoryStore V) (ks : List String)
      → s.closed ≡ false
      → Becomes closed view (delete_many ks s) (ok tt, without ks (view s))
  unfolding delete_many member
  delete_many_open s [] h = record { result = refl; stays_open = h; shows = λ j. refl }
  delete_many_open s (k ∷ ks) h =
      let s' : InMemoryStore V = record s { entries = Dict.pop s.entries k } in
      let rest = delete_many_open s' ks h in
      let e : delete_many (k ∷ ks) s ≡ delete_many ks s' = ground arith in
      rw e (record {
        result = rest.result;
        stays_open = rest.stays_open;
        shows = λ j. ground (arith, rest.shows j, Laws.get-pop s.entries k j);
      })

  write_open :
      (s : InMemoryStore V) (items : Dict String (Fields V))
      → s.closed ≡ false
      → Dict.IsDistinct items
      → Becomes closed view
          (write items s)
          (ok tt, Spec.after_write OnConflict.overwrite items (view s))
  unfolding write Spec.after_write
  write_open s items h d = record {
    result = refl;
    stays_open = h;
    shows = λ j. ground (arith, Laws.get-update s.entries items j d);
  }

  in_memory-IsWriter : IsWriter closed view data_get contains_many write
  in_memory-IsWriter = record {
    reads = λ s k h. refl;
    finds = contains_many_open;
    writes = write_open;
  }

  set_resolved_open :
      (s : InMemoryStore V) (items : Dict String (Fields V)) (c : OnConflict)
      → s.closed ≡ false
      → Dict.IsDistinct items
      → Becomes closed view (set_resolved items c s) (Spec.set_many c items (view s))
  unfolding set_resolved
  set_resolved_open s items c h d = set_resolved-Becomes in_memory-IsWriter s h items d c

  pub set_many_open :
      (s : InMemoryStore V) (items : Dict String (Fields V)) (c : OnConflict)
      → s.closed ≡ false
      → Dict.IsDistinct items
      → Becomes closed view (set_many items (name c) s) (Spec.set_many c items (view s))
  unfolding set_many
  set_many_open s items c h d =
      let e : set_many items (name c) s ≡ set_resolved items c s =
        ground (arith, normalize-name c) in
      rw e (set_resolved_open s items c h d)
