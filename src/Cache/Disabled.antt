-- ===== src/Cache/Disabled.antt =====
-- A cache over a store that forgets what is written to it, `NullStore` of persista/store/null.py.
use persista.Common.{ℕ, ℤ, false, String, Option, ◌≡◌, refl, ok, arith}
use persista.Store.Null
use persista.Store.Null.{NullStore, null_store}
use persista.Cache.Types.{Value, null, Ttl}
use persista.Cache.{
  resolve_ttl, choose_ttl, is_invalid, look_up, look_up_entry, get, contains, set, set_resolved,
  compute_on_miss, get_or_compute,
}

module _ {A : Type 0} (default_ttl : Option ℤ) (ttl : Ttl) (s : NullStore)
    (is_open : s.closed ≡ false) (accepted : is_invalid (choose_ttl default_ttl ttl) ≡ false) where
  set_forgets :
      (now : ℕ) (key : String) (value : Value A)
      → set null_store default_ttl now key value ttl s ≡ (ok tt, s)
  unfolding set set_resolved resolve_ttl Null.set Null.delete Null.check_open
  set_forgets now key value = ground arith

  look_up_misses :
      (later : ℕ) (j : String) → look_up {A = A} null_store later j s ≡ (ok (false, null), s)
  unfolding look_up look_up_entry Null.get Null.check_open
  look_up_misses later j = ground arith

  computes :
      (later : ℕ) (j : String) (value : Value A)
      → get_or_compute null_store default_ttl later later j (λ u. (ok value, u)) ttl s
        ≡ (ok value, s)
  unfolding get_or_compute compute_on_miss
  computes later j value = rw (look_up_misses later j, set_forgets later j value) refl

  pub null-misses :
      (now later : ℕ) (key j : String) (value default : Value A)
      → let t = (set null_store default_ttl now key value ttl s).1 in
        (get null_store later j default t ≡ (ok default, t))
        × (contains {A = A} null_store later j t ≡ (ok false, t))
        × (get_or_compute null_store default_ttl later later j (λ u. (ok value, u)) ttl t
            ≡ (ok value, t))
  unfolding get contains get_or_compute look_up look_up_entry compute_on_miss Null.get
      Null.check_open
  null-misses now later key j value default =
      rw (set_forgets now key value) (ground arith, ground arith, computes later j value)
