-- ===== src/Cache/Refines.antt =====
-- The cache's methods on one key keep the promise of Cache/Spec, over any store that keeps its own.
use persista.Store.Spec.{View}
use persista.Common.Actions.{continue}
use persista.Common.{
  ℕ, ℤ, pos, negsuc, zero, suc, ◌+◌, ◌-◌, true, false, String, text_keys, Option, none, some, [],
  ◌∷◌, ◌≡◌, refl, ok, err, ltb, arith, Option-cases, inl, inr, Bool-cases, pure, is_some,
  value_error,
}
use persista.Dict
use persista.Store.Types.{OnConflict}
use persista.Store.Conflicts.{member}
use persista.Store.Base.{BaseStore, IsStore}
use persista.Store.Spec as StoreSpec
use persista.Cache.Types.{Value, null, Ttl, given}
use persista.Cache.Spec.{
  Entry, Entries, stamp, encode, is_stale, live, hit_pair, evicted, fresh, put, Holds, Answers,
  live_or,
}
use persista.Cache.{
  entry_of, resolve_ttl, look_up_entry, look_up, get, contains, set_resolved, set, delete, clear,
}

module _ {A : Type 0} (b : BaseStore (Value A)) {view : b.State → View (Value A)}
    (h : IsStore b view) (s : b.State) (entries : Entries A) (rep : Holds h s entries) where
  pub delete-Answers : (key : String) → Answers h (delete b key s) tt (put key none entries)
  unfolding delete
  delete-Answers key =
      let del = h.deletes s key rep.is_open in
      record {
        result = del.result;
        leaves = record {
          is_open = del.stays_open;
          holds = λ k. ground (arith, del.shows k, rep.holds k);
        };
      }

  -- what was read is expired, and goes
  evict-Answers :
      (now : ℕ) (key : String) {R : Type 0} (r : R)
      → is_stale now (entries key) ≡ true
      → Answers h
          (continue (b.delete key s).0 (b.delete key s).1 (λ _. pure r))
          r
          (evicted now (key ∷ []) entries)
  unfolding member
  evict-Answers now key r stale =
      let del = h.deletes s key rep.is_open in
      rw del.result (record {
        result = refl;
        leaves = record {
          is_open = del.stays_open;
          holds = λ k. ground (arith, del.shows k, rep.holds k, text_keys.test_iff key k);
        };
      })

  -- nothing expired was read, and all stays
  keep-Answers :
      (now : ℕ) (key : String) {R : Type 0} (r : R)
      → is_stale now (entries key) ≡ false
      → Answers h (ok r, s) r (evicted now (key ∷ []) entries)
  unfolding member
  keep-Answers now key r fresh = record {
    result = refl;
    leaves = record {
      is_open = rep.is_open;
      holds = λ k. ground (arith, rep.holds k, text_keys.test_iff key k);
    };
  }

  look_up_entry-Answers :
      (now : ℕ) (key : String) (o : Option (Entry A))
      → entries key ≡ o
      → Answers h
          (look_up_entry b now key (encode o) s)
          (hit_pair (live now o))
          (evicted now (key ∷ []) entries)
  unfolding look_up_entry live Dict.get
  look_up_entry-Answers now key none e = keep-Answers now key (false, null) (rw e)
  look_up_entry-Answers now key (some entry) e = elim (Option-cases entry.expires) [
    | inl never ↦ rw never (keep-Answers now key (true, entry.value) (rw (e, never)))
    | inr (t, at) ↦ elim (Bool-cases (ltb t now)) [
      | inl past ↦ rw (at, past) (evict-Answers now key (false, null) (rw (e, at, past)))
      | inr left ↦ rw (at, left) (keep-Answers now key (true, entry.value) (rw (e, at, left)))
    ]
  ]

  -- a lookup: the live value, and an expired entry is gone
  pub look_up-Answers :
      (now : ℕ) (key : String)
      → Answers h
          (look_up b now key s)
          (hit_pair (live now (entries key)))
          (evicted now (key ∷ []) entries)
  unfolding look_up
  look_up-Answers now key =
      rw (h.reads s key rep.is_open, rep.holds key)
        (look_up_entry-Answers now key (entries key) refl)

  write_entry-Answers :
      (key : String) (e : Entry A)
      → Answers h
          (b.set key (entry_of e.value (stamp e.expires)) OnConflict.overwrite s)
          tt
          (put key (some e) entries)
  unfolding StoreSpec.set_many StoreSpec.resolved Dict.get
  write_entry-Answers key e =
      let write =
        h.sets s key (entry_of e.value (stamp e.expires)) OnConflict.overwrite rep.is_open in
      record {
        result = write.result;
        leaves = record {
          is_open = write.stays_open;
          holds = λ k. ground (arith, write.shows k, rep.holds k);
        };
      }

  set_resolved-Answers :
      (now : ℕ) (key : String) (value : Value A) (ttl : Option ℤ)
      → Answers h (set_resolved b now key value ttl s) tt (put key (fresh now value ttl) entries)
  unfolding set_resolved fresh delete
  set_resolved-Answers now key value none =
      write_entry-Answers key (record { value = value; expires = none })
  set_resolved-Answers now key value (some (pos zero)) = delete-Answers key
  set_resolved-Answers now key value (some (pos (suc n))) =
      write_entry-Answers key (record { value = value; expires = some (now + suc n) })
  set_resolved-Answers now key value (some (negsuc n)) =
      write_entry-Answers key (record { value = value; expires = some (now - suc n) })

  -- `set` with an accepted ttl leaves the fresh entry, or none for a ttl of 0
  pub set-Answers :
      (default_ttl : Option ℤ) (now : ℕ) (key : String) (value : Value A) (ttl : Ttl)
      {resolved_ttl : Option ℤ}
      → resolve_ttl default_ttl ttl ≡ ok resolved_ttl
      → Answers h
          (set b default_ttl now key value ttl s)
          tt
          (put key (fresh now value resolved_ttl) entries)
  unfolding set
  set-Answers default_ttl now key value ttl {resolved_ttl} e =
      rw e (set_resolved-Answers now key value resolved_ttl)

  -- `get`: the live value or the default
  pub get-Answers :
      (now : ℕ) (key : String) (default : Value A)
      → Answers h
          (get b now key default s)
          (live_or default now (entries key))
          (evicted now (key ∷ []) entries)
  unfolding get
  get-Answers now key default =
      let found = look_up-Answers now key in
      rw found.result (record { result = ground arith; leaves = found.leaves })

  pub contains-Answers :
      (now : ℕ) (key : String)
      → Answers h
          (contains b now key s)
          (is_some (live now (entries key)))
          (evicted now (key ∷ []) entries)
  unfolding contains
  contains-Answers now key =
      let found = look_up-Answers now key in
      rw found.result (record { result = ground arith; leaves = found.leaves })

  pub clear-Answers : Answers h (clear b s) tt (λ k. none)
  unfolding clear
  clear-Answers =
      let cleared = h.clears s rep.is_open in
      record {
        result = cleared.result;
        leaves = record { is_open = cleared.stays_open; holds = cleared.shows };
      }

-- A negative ttl is refused before the store is touched.
module _ {A : Type 0} (b : BaseStore (Value A)) where
  pub set_negative :
      (default_ttl : Option ℤ) (now : ℕ) (key : String) (value : Value A) (n : ℕ) (s : b.State)
      → set b default_ttl now key value (given (some (negsuc n))) s ≡ (err value_error, s)
  unfolding set
  set_negative default_ttl now key value n s = refl
