-- ===== src/Record/Stats/Counts.antt =====
-- What the counters and the samples of persista/record/analysis/metadata_stats.py hold.
use persista.Common.{
  ok, err, Result, ℕ, suc, ◌+◌, ◌≤◌, ℤ, String, text_keys, Option, some, List, [], ◌∷◌, ◌==◌, ◌≡◌,
  refl, length, select, arith, map, if◌then◌else◌, true,
}
use persista.Dict
use persista.Dict.{Dict}
use persista.Dict.Laws
use persista.Store.Types.{Fields, Object}
use persista.Record.{Record}
use persista.Record.Stats
use persista.Record.Analysis.{sorted_keys}
use persista.Record.Stats.{
  Values, MetadataStats, KeyStats, StatsDict, get_or, add_one, add_to, in_set, is_full,
}

-- the occurrences of a key in the counters
abbrev counted : {V : Type 0} → MetadataStats V → String → ℕ
counted st k = get_or st.key_counts k 0

-- the sample of a key
abbrev pub sample : {V : Type 0} → MetadataStats V → String → List V
sample st k = get_or st.key_values k []

-- the records that have a key
abbrev pub having : {V : Type 0} → String → List (Record V) → List (Record V)
having k = select (λ r. Dict.contains r.metadata k)

-- every record's keys are distinct, as those of a dict
abbrev pub AreDistinct : {V : Type 0} → List (Record V) → Type 0
AreDistinct [] = Unit {0}
AreDistinct (r ∷ records) = Dict.IsDistinct r.metadata × AreDistinct records

get_or-add_one :
    (c : Dict String ℕ) (j k : String)
    → get_or (add_one c j) k 0 ≡ (if j == k then suc (get_or c k 0) else get_or c k 0)
get_or-add_one c j k =
    ground (arith, Laws.get-set c j k (suc (get_or c j 0)), text_keys.test_iff j k)

length-having :
    {V : Type 0} (k : String) (records : List (Record V))
    → length (having k records) ≤ length records
length-having k [] = omega arith
length-having k (r ∷ records) = ground (arith, length-having k records)

-- an entry of a dict that is made of its keys
get-entries :
    {A : Type 0} (f : String → A) (ks : List String) (k : String) (a : A)
    → Dict.get (map (λ j. (j, f j)) ks) k ≡ some a
    → a ≡ f k
unfolding Dict.get
get-entries f [] k a h = cc
get-entries f (j ∷ ks) k a h = ground (arith, get-entries f ks k a, text_keys.test_iff j k)

module _ {V : Type 0} ⦃o : Object V⦄ (vs : Values V) where
  -- every value that is an instance of Hashable has a hash
  unfoldable pub HaveHashes : Fields V → Type 0
  HaveHashes [] = Unit {0}
  HaveHashes ((k, v) ∷ metadata) =
      (vs.is_hashable v ≡ true → vs.has_hash v ≡ true) × HaveHashes metadata

  unfoldable pub AreHashed : List (Record V) → Type 0
  AreHashed [] = Unit {0}
  AreHashed (r ∷ records) = HaveHashes r.metadata × AreHashed records

  -- what one round leaves
  key_updated :
      (j : String) (v : V) (st : MetadataStats V) (out : Result (MetadataStats V))
      → Stats.update_key vs j v st ≡ out
      → (vs.is_hashable v ≡ true → vs.has_hash v ≡ true)
      → (st' : MetadataStats V) × (out ≡ ok st')
        × (st'.key_counts ≡ add_one st.key_counts j)
        × (st'.count ≡ st.count)
  unfolding Stats.update_key
  key_updated j v st (ok st') e h = (st', refl, ground (arith, e), ground (arith, e))
  key_updated j v st (err error) e h = absurd (ground (arith, e, h))

  -- what the loop over the metadata leaves
  keys_updated :
      (metadata : Fields V) (st : MetadataStats V)
      → Dict.IsDistinct metadata
      → HaveHashes metadata
      → (st' : MetadataStats V) × (Stats.update_keys vs metadata st ≡ ok st')
        × (st'.count ≡ st.count)
        × ((k : String)
            → counted st' k
              ≡ (if Dict.contains metadata k then suc (counted st k) else counted st k))
  unfolding Stats.update_keys HaveHashes Dict.get
  keys_updated [] st d h = (st, refl, refl, λ k. refl)
  keys_updated ((j, v) ∷ metadata) st d h =
      let first = key_updated j v st _ refl h.0 in
      let rest = keys_updated metadata first.0 d.1 h.1 in
      (
        rest.0,
        rw (Stats.update_keys, first.1) rest.1,
        ground (arith, rest.2, first.3),
        λ k. ground (
          arith,
          rest.3 k,
          first.2,
          get_or-add_one st.key_counts j k,
          text_keys.test_iff j k,
          d.0,
        ),
      )

  -- what a record leaves
  updated :
      (r : Record V) (st : MetadataStats V)
      → Dict.IsDistinct r.metadata
      → HaveHashes r.metadata
      → (st' : MetadataStats V) × (Stats.update vs r st ≡ ok st')
        × (st'.count ≡ suc st.count)
        × ((k : String)
            → counted st' k
              ≡ (if Dict.contains r.metadata k then suc (counted st k) else counted st k))
  unfolding Stats.update Stats.update_totals
  updated r st d h = keys_updated r.metadata (Stats.update_totals vs r.metadata st) d h

  -- what the records leave
  all_updated :
      (records : List (Record V)) (st : MetadataStats V)
      → AreDistinct records
      → AreHashed records
      → (st' : MetadataStats V) × (Stats.update_all vs records st ≡ ok st')
        × (st'.count ≡ length records + st.count)
        × ((k : String) → counted st' k ≡ length (having k records) + counted st k)
  unfolding Stats.update_all AreHashed
  all_updated [] st d h = (st, refl, ground arith, λ k. ground arith)
  all_updated (r ∷ records) st d h =
      let first = updated r st d.0 h.0 in
      let rest = all_updated records first.0 d.1 h.1 in
      (
        rest.0,
        rw (Stats.update_all, first.1) rest.1,
        ground (arith, rest.2, first.2),
        λ k. ground (arith, rest.3 k, first.3 k),
      )

  module _ {Average : Type 0} (quotient : ℕ → ℕ → Average) (no_average : Average)
      (records : List (Record V)) (distinct : AreDistinct records) (hashed : AreHashed records)
      (n : Option ℤ) where
    -- If the keys of every record are distinct, and every value that is an instance of Hashable has a
    -- hash, compute_metadata_stats returns statistics that count the records, and in which an entry of
    -- a key counts the records that have the key as present and the others as missing.
    pub compute_metadata_stats-counts :
        (stats : StatsDict Average V) × (Stats.compute_metadata_stats vs quotient no_average records
            n
          ≡ ok stats)
        × (stats.count ≡ length records)
        × ((k : String) (entry : KeyStats V)
            → Dict.get stats.per_key k ≡ some entry
            → (entry.present_in_records ≡ length (having k records))
              × (entry.present_in_records + entry.missing_in_records ≡ length records))
    unfolding Stats.compute_metadata_stats Stats.to_dict Stats.start Stats.key_stats Dict.get
    compute_metadata_stats-counts =
        let all = all_updated records (Stats.start vs n) distinct hashed in
        (
          Stats.to_dict vs quotient no_average all.0,
          rw (Stats.compute_metadata_stats, all.1) refl,
          ground (arith, all.2),
          λ k entry found.
              let e =
                get-entries (Stats.key_stats vs all.0) (sorted_keys (Dict.keys all.0.key_counts)) k
                  entry found in
              let few = length-having k records in
              rw e (ground (arith, all.3 k), ground (arith, all.3 k, all.2, few)),
        )
