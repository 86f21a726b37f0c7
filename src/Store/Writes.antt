-- ===== src/Store/Writes.antt =====
-- The part of `set_many` that the file, SQLite, DuckDB and in-memory stores have in common (in
-- persista/store/file.py, sqlite.py, duckdb.py and in_memory.py): what follows the checks.
use persista.Common.{
  Bool, false, String, text_keys, List, [], ◌∷◌, map, ◌≡◌, refl, ok, Exec, ◌>>=◌, is_some, arith,
  ◌≢◌, Option,
}
use persista.Dict
use persista.Dict.{Dict}
use persista.Store.Types.{OnConflict, Fields}
use persista.Store.Spec
use persista.Store.Spec.{View}
use persista.Store.Conflicts.{refuse, resolve_conflicts}
use persista.Store.Conflicts.Laws as Conflicts
use persista.Store.Conflicts.Laws.{written, written-IsDistinct}
use persista.Store.Base.{Becomes}

module _ {S V : Type 0} (get : String → Exec S (Option (Fields V)))
    (contains_many : List String → Exec S (List Bool))
    (write : Dict String (Fields V) → Exec S (Unit {0})) where
  -- if on_conflict == "overwrite": write(items); return
  -- to_write = resolve_conflicts(items, on_conflict, contains_many, get); write(to_write)
  unfoldable pub set_resolved : Dict String (Fields V) → OnConflict → Exec S (Unit {0})
  unfolding resolve_conflicts
  set_resolved items OnConflict.overwrite = write items
  set_resolved items on_conflict = do
    to_write ← resolve_conflicts get items on_conflict contains_many
    write to_write

-- What the three actions do to a store that is open.
pub record IsWriter {S V : Type 0} (closed : S → Bool) (view : S → View V)
    (get : String → Exec S (Option (Fields V))) (contains_many : List String → Exec S (List Bool))
    (write : Dict String (Fields V) → Exec S (Unit {0})) : Type 0 where
  pub reads : (s : S) (k : String) → closed s ≡ false → get k s ≡ (ok (view s k), s)
  pub finds :
      (s : S) (ks : List String)
      → closed s ≡ false
      → contains_many ks s ≡ (ok (map (λ k. is_some (view s k)) ks), s)
  pub writes :
      (s : S) (items : Dict String (Fields V))
      → closed s ≡ false
      → Dict.IsDistinct items
      → Becomes closed view
          (write items s)
          (ok tt, Spec.after_write OnConflict.overwrite items (view s))

module _ {S V : Type 0} {closed : S → Bool} {view : S → View V}
    {get : String → Exec S (Option (Fields V))} {contains_many : List String → Exec S (List Bool)}
    {write : Dict String (Fields V) → Exec S (Unit {0})}
    (w : IsWriter closed view get contains_many write) (s : S) (is_open : closed s ≡ false)
    (items : Dict String (Fields V)) (distinct : Dict.IsDistinct items) where
  abbrev conflicts : List String
  conflicts = Spec.conflict_keys (view s) items

  -- A strategy other than "raise", or a batch with no conflict, writes what the contract says.
  write_resolved :
      (c : OnConflict)
      → c ≢ OnConflict.overwrite
      → refuse c conflicts ≡ ok tt
      → Becomes closed view
          (write (written c (view s) items []) s)
          (ok tt, Spec.after_write c items (view s))
  unfolding Spec.after_write Spec.resolved
  write_resolved c n r =
      let to_write = written c (view s) items [] in
      let done = w.writes s to_write is_open (written-IsDistinct c (view s) items [] tt) in
      record {
        result = done.result;
        stays_open = done.stays_open;
        shows = λ j.
            ground (
              arith,
              done.shows j,
              Conflicts.written-eq-after_write (view s) items c j n r distinct,
            );
      }

  resolves :
      (c : OnConflict)
      → refuse c conflicts ≡ ok tt
      → resolve_conflicts get items c contains_many s ≡ (ok (written c (view s) items []), s)
  resolves c r =
      Conflicts.resolve_conflicts-eq-written get s (view s) (λ k. w.reads s k is_open) contains_many
        (λ ks. w.finds s ks is_open) c items r

  set_raise :
      (ks : List String)
      → conflicts ≡ ks
      → Becomes closed view
          (set_resolved get contains_many write items OnConflict.raise s)
          (Spec.write_or_raise ks items (view s))
  unfolding set_resolved Spec.write_or_raise refuse
  set_raise [] e =
      let r : refuse OnConflict.raise conflicts ≡ ok tt = rw e in
      rw (resolves OnConflict.raise r) (write_resolved OnConflict.raise (cc) r)
  set_raise (k ∷ ks) e =
      rw
        (Conflicts.resolve_conflicts-raises get s (view s) (λ j. w.reads s j is_open) contains_many
          (λ js. w.finds s js is_open) items e)
        (record { result = refl; stays_open = is_open; shows = λ j. refl })

  -- It has the result and the view of the specification, for each strategy.
  pub set_resolved-Becomes :
      (c : OnConflict)
      → Becomes closed view
          (set_resolved get contains_many write items c s)
          (Spec.set_many c items (view s))
  unfolding set_resolved Spec.set_many refuse
  set_resolved-Becomes OnConflict.overwrite = w.writes s items is_open distinct
  set_resolved-Becomes OnConflict.raise = set_raise _ refl
  set_resolved-Becomes OnConflict.skip =
      let r : refuse OnConflict.skip conflicts ≡ ok tt = ground arith in
      rw (resolves OnConflict.skip r) (write_resolved OnConflict.skip (cc) r)
  set_resolved-Becomes OnConflict.merge =
      let r : refuse OnConflict.merge conflicts ≡ ok tt = ground arith in
      rw (resolves OnConflict.merge r) (write_resolved OnConflict.merge (cc) r)

-- To write no items is to do nothing.
module _ {S V : Type 0} {closed : S → Bool} {view : S → View V} where
  pub nothing-Becomes :
      (s : S) (c : OnConflict)
      → closed s ≡ false
      → Becomes closed view (ok tt, s) (Spec.set_many c [] (view s))
  unfolding Spec.set_many Spec.write_or_raise Spec.after_write Dict.get
  nothing-Becomes s OnConflict.overwrite h = record {
    result = refl;
    stays_open = h;
    shows = λ j. refl;
  }
  nothing-Becomes s OnConflict.raise h = record { result = refl; stays_open = h; shows = λ j. refl }
  nothing-Becomes s OnConflict.skip h = record { result = refl; stays_open = h; shows = λ j. refl }
  nothing-Becomes s OnConflict.merge h = record { result = refl; stays_open = h; shows = λ j. refl }
