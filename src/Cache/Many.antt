-- ===== src/Cache/Many.antt =====
-- The cache's methods on many keys keep the promise of Cache/Spec.
use persista.Store.Spec.{View}
use mathlib.Core.Path.{fun_ext}
use mathlib.Core.List.{append-nil, append_assoc}
use persista.Common.{
  ℕ, false, String, text_keys, Option, none, some, List, [], ◌∷◌, ◌++◌, ◌≡◌, refl, ap, ◌==◌, ok,
  map, if◌then◌else◌, arith, Bool-cases, inl, inr, is_some, select, ◌&&◌,
}
use persista.Dict
use persista.Dict.{Dict}
use persista.Dict.Laws
use persista.Store.Conflicts.{member}
use persista.Store.Base.{BaseStore, IsStore}
use persista.Cache.Types.{Value}
use persista.Cache.Spec.{Entry, Entries, encode, is_stale, live, evicted, Holds, Answers}
use persista.Cache.{split_entry, split_many, evict, try_get_many, delete_many}

pub not-member-nil : (k : String) → member [] k ≡ false
unfolding member
not-member-nil k = refl

module _ {A : Type 0} (now : ℕ) (entries : Entries A) where
  add_hit : Dict String (Value A) → String → Option (Value A) → Dict String (Value A)
  add_hit hits key none = hits
  add_hit hits key (some value) = Dict.set hits key value

  -- the hits that the loop of `_split_many` collects
  pub hits_of : List String → Dict String (Value A) → Dict String (Value A)
  unfolding add_hit
  hits_of [] hits = hits
  hits_of (key ∷ keys) hits = hits_of keys (add_hit hits key (live now (entries key)))

  -- the keys whose entry has expired
  abbrev pub stale_keys : List String → List String
  stale_keys = select (λ k. is_stale now (entries k))

  split_entry-lem :
      (key : String) (o : Option (Entry A)) (hits : Dict String (Value A)) (expired : List String)
      → split_entry now key (encode o) hits expired
        ≡ ok (
          add_hit hits key (live now o),
          (if is_stale now o then expired ++ key ∷ [] else expired),
        )
  unfolding split_entry add_hit live Dict.get
  split_entry-lem key none hits expired = refl
  split_entry-lem key (some e) hits expired = ground arith

  pub split_many-hits_of :
      (keys : List String) (hits : Dict String (Value A)) (expired : List String)
      → split_many now keys (map (λ k. encode (entries k)) keys) hits expired
        ≡ ok (hits_of keys hits, expired ++ stale_keys keys)
  unfolding split_many hits_of
  split_many-hits_of [] hits expired = rw append-nil
  split_many-hits_of (key ∷ keys) hits expired =
      rw (split_entry-lem key (entries key) hits expired, split_many)
        (elim (Bool-cases (is_stale now (entries key))) [
          | inl stale ↦ rw stale (rw (split_many-hits_of keys _ _, append_assoc))
          | inr left ↦ rw left (split_many-hits_of keys _ expired)
        ])

  get-add_hit :
      (hits : Dict String (Value A)) (key : String) (o : Option (Value A)) (j : String)
      → Dict.get (add_hit hits key o) j ≡ (if key == j && is_some o then o else Dict.get hits j)
  unfolding add_hit
  get-add_hit hits key none j = ground arith
  get-add_hit hits key (some v) j = ground (arith, Laws.get-set hits key j v)

  pub get-hits_of :
      (keys : List String) (hits : Dict String (Value A)) (j : String)
      → Dict.get (hits_of keys hits) j ≡ (
          if member keys j && is_some (live now (entries j))
          then live now (entries j)
          else Dict.get hits j)
  unfolding hits_of member
  get-hits_of [] hits j = refl
  get-hits_of (key ∷ keys) hits j = ground (
    arith,
    get-hits_of keys (add_hit hits key (live now (entries key))) j,
    get-add_hit hits key (live now (entries key)) j,
    text_keys.test_iff key j,
  )

  pub member-stale_keys :
      (keys : List String) (k : String)
      → member (stale_keys keys) k ≡ (member keys k && is_stale now (entries k))
  unfolding member
  member-stale_keys [] k = refl
  member-stale_keys (key ∷ keys) k =
      ground (arith, member-stale_keys keys k, text_keys.test_iff key k)

module _ {A : Type 0} (b : BaseStore (Value A)) {view : b.State → View (Value A)}
    (h : IsStore b view) (s : b.State) (entries : Entries A) (rep : Holds h s entries) where
  pub delete_many-Answers :
      (keys : List String)
      → Answers h (delete_many b keys s) tt (λ k. if member keys k then none else entries k)
  unfolding delete_many
  delete_many-Answers keys =
      let del = h.deletes_many s keys rep.is_open in
      record {
        result = del.result;
        leaves = record {
          is_open = del.stays_open;
          holds = λ k. ground (arith, del.shows k, rep.holds k);
        };
      }

  evict-Answers :
      (now : ℕ) (keys stale : List String)
      → stale_keys now entries keys ≡ stale
      → Answers h (evict b stale s) tt (evicted now keys entries)
  unfolding evict delete_many
  evict-Answers now keys [] e = record {
    result = refl;
    leaves = record {
      is_open = rep.is_open;
      holds = λ k. ground (
        arith,
        ap (λ l. member l k) e,
        not-member-nil k,
        rep.holds k,
        member-stale_keys now entries keys k,
      );
    };
  }
  evict-Answers now keys (key ∷ stale) e =
      let del = delete_many-Answers (key ∷ stale) in
      record {
        result = del.result;
        leaves = record {
          is_open = del.leaves.is_open;
          holds = λ k. ground (
            arith,
            del.leaves.holds k,
            ap (λ l. member l k) e,
            member-stale_keys now entries keys k,
          );
        };
      }

  read_batch :
      (keys : List String) → b.get_many keys s ≡ (ok (map (λ k. encode (entries k)) keys), s)
  read_batch keys = rw (h.reads_many s keys rep.is_open, fun_ext rep.holds)

  -- Over an open store of cache entries, a batched lookup returns the live hits, and every expired
  -- entry of the batch is gone.
  pub try_get_many-Answers :
      (now : ℕ) (keys : List String)
      → Answers h
          (try_get_many b now keys s)
          (hits_of now entries keys [])
          (evicted now keys entries)
  unfolding try_get_many hits_of
  try_get_many-Answers now [] = record {
    result = refl;
    leaves = record { is_open = rep.is_open; holds = λ k. rw (not-member-nil k) (rep.holds k) };
  }
  try_get_many-Answers now (key ∷ keys) =
      let ev = evict-Answers now (key ∷ keys) _ refl in
      rw (read_batch (key ∷ keys), split_many-hits_of now entries (key ∷ keys) [] [])
        (rw ev.result (record { result = refl; leaves = ev.leaves }))
