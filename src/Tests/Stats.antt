-- ===== src/Tests/Stats.antt =====
-- The metadata statistics, run and instantiated.
use persista.Common.{
  ℕ, ◌+◌, pos, true, String, text_keys, List, [], ◌∷◌, ◌≡◌, refl, length, nat_beq, some, not,
  Result, ok, err, type_error,
}
use persista.Dict
use persista.Tests.Stores.{nat_object}
use persista.Record.{Record}
use persista.Record.Stats
use persista.Record.Stats.{Values, KeyStats, StatsDict}
use persista.Record.Stats.Counts.{
  having, AreDistinct, HaveHashes, AreHashed, compute_metadata_stats-counts,
}

abbrev values : Values ℕ
values = record {
  type_name = λ v. "int";
  str = λ v. "";
  is_empty = nat_beq 0;
  is_hashable = λ v. true;
  has_hash = λ v. not (nat_beq v 9);
}

abbrev two : List (Record ℕ)
two =
    record { id = "a"; metadata = ("page", 1) ∷ ("year", 0) ∷ [] }
    ∷ record { id = "b"; metadata = ("page", 2) ∷ [] }
    ∷ []

two-AreDistinct : AreDistinct two
unfolding Dict.get
two-AreDistinct = ((refl, (refl, tt)), ((refl, tt), tt))

two-AreHashed : AreHashed values two
unfolding HaveHashes AreHashed
two-AreHashed = ((λ h. refl, (λ h. refl, tt)), ((λ h. refl, tt), tt))

-- the statistics of the two records, with one sample value for each key
abbrev result : Result (StatsDict ℕ ℕ)
result = Stats.compute_metadata_stats values (λ total n. total) 0 two (some (pos 1))

capped :
    (stats : StatsDict ℕ ℕ) × (k : KeyStats ℕ) × (result ≡ ok stats)
    × (Dict.get stats.per_key "page" ≡ some k)
    × (k.present_in_records ≡ 2)
    × (k.unique_values_sample ≡ 1 ∷ [])
    × (k.unique_values_sample_truncated ≡ true)
unfolding Stats.compute_metadata_stats Dict.get Dict.set Stats.key_stats
capped = (_, _, refl, refl, refl, refl, refl)

-- 9 stands for a tuple of lists
unhashed :
    Stats.compute_metadata_stats values
      (λ total n. total)
      0
      (record { id = "a"; metadata = ("page", 9) ∷ [] } ∷ [])
      (some (pos 1))
    ≡ err type_error
unfolding Stats.compute_metadata_stats Dict.get Dict.set
unhashed = refl

compute_metadata_stats-counts_example :
    (stats : StatsDict ℕ ℕ) × (result ≡ ok stats)
    × (stats.count ≡ length two)
    × ((k : String) (entry : KeyStats ℕ)
        → Dict.get stats.per_key k ≡ some entry
        → (entry.present_in_records ≡ length (having k two))
          × (entry.present_in_records + entry.missing_in_records ≡ length two))
compute_metadata_stats-counts_example =
    compute_metadata_stats-counts values (λ total n. total) 0 two two-AreDistinct two-AreHashed
      (some (pos 1))
