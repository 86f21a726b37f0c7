-- ===== src/Store/Conflicts/Members.antt =====
-- `key in conflicts` over the keys of a dict.
use persista.Common.{
  String, text_keys, Bool, List, [], ◌∷◌, ◌≡◌, refl, is_some, arith, select, ◌&&◌,
}
use persista.Dict
use persista.Dict.{Dict}
use persista.Store.Conflicts.{member}

module _ {ℓ} {V : Type ℓ} where
  pub member-keys :
      (d : Dict String V) (k : String) → member (Dict.keys d) k ≡ is_some (Dict.get d k)
  unfolding member Dict.get
  member-keys [] k = refl
  member-keys ((j, v) ∷ d) k = ground (arith, member-keys d k)

pub member-select :
    (p : String → Bool) (ks : List String) (k : String)
    → member (select p ks) k ≡ (member ks k && p k)
unfolding member
member-select p [] k = refl
member-select p (j ∷ ks) k = ground (arith, member-select p ks k, text_keys.test_iff j k)
