-- ===== src/Record/Stats.antt =====
-- `MetadataStats` and `compute_metadata_stats` of persista/record/analysis/metadata_stats.py. A set is
-- a list without repetitions.
pub mod Counts
use persista.Common.{
  ℕ, zero, suc, ◌+◌, ◌-◌, ◌≤◌, ℤ, pos, negsuc, Bool, true, false, not, String, text_keys, Option,
  none, some, List, [], ◌∷◌, ◌++◌, map, ◌&&◌, ◌||◌, ◌==◌, length, leb, ltb, Result, ok, err,
  type_error, if◌then◌else◌, text_less,
}
use persista.Dict
use persista.Dict.{Dict}
use persista.Store.Types.{Fields, Object}
use persista.Record.{Record}
use persista.Record.Sort.{sort}
use persista.Record.Analysis.{sorted_keys}

-- What is used of values: type(value).__name__, str(value), `value is None or value == ""`, and
-- isinstance(value, Hashable), and whether hash(value) returns, which it does not for a tuple of lists.
pub record Values (V : Type 0) : Type 0 where
  pub type_name : V → String
  pub str : V → String
  pub is_empty : V → Bool
  pub is_hashable : V → Bool
  pub has_hash : V → Bool

-- the dataclass
pub record MetadataStats (V : Type 0) : Type 0 where
  pub n_sample_values : Option ℤ
  pub count : ℕ
  pub missing_metadata_count : ℕ
  pub total_keys : ℕ
  pub min_keys : Option ℕ
  pub max_keys : Option ℕ
  pub key_counts : Dict String ℕ
  pub key_none_counts : Dict String ℕ
  pub key_types : Dict String (List String)
  pub key_values : Dict String (List V)
  pub key_values_truncated : Dict String Bool

-- d.get(key, default)
abbrev pub get_or : {A : Type 0} → Dict String A → String → A → A
get_or d key default = elim (Dict.get d key) [ none ↦ default | some a ↦ a ]

-- counter[key] += 1
abbrev pub add_one : Dict String ℕ → String → Dict String ℕ
add_one counter key = Dict.set counter key (suc (get_or counter key 0))

-- value in values, of a set
abbrev pub in_set : {A : Type 0} → (A → A → Bool) → A → List A → Bool
in_set equals a [] = false
in_set equals a (b ∷ set) = equals b a || in_set equals a set

-- values.add(value), of a set
abbrev pub add_to : {A : Type 0} → (A → A → Bool) → A → List A → List A
add_to equals a set = if in_set equals a set then set else set ++ a ∷ []

-- n_sample_values is not None and n >= n_sample_values
abbrev pub is_full : Option ℤ → ℕ → Bool
is_full none n = false
is_full (some (pos limit)) n = leb limit n
is_full (some (negsuc m)) n = true

-- if best is None or better(n, best): best = n
abbrev pub better_of : (ℕ → ℕ → Bool) → ℕ → Option ℕ → Option ℕ
better_of better n none = some n
better_of better n (some best) = if better n best then some n else some best

-- one entry of what `to_dict` returns under "per_key"
pub record KeyStats (V : Type 0) : Type 0 where
  pub present_in_records : ℕ
  pub missing_in_records : ℕ
  pub value_types : List String
  pub none_or_empty_count : ℕ
  pub unique_values_sample : List V
  pub unique_values_sample_truncated : Bool

-- what `to_dict` returns; `Average` is the type of quotients
pub record StatsDict (Average V : Type 0) : Type 0 where
  pub count : ℕ
  pub missing_metadata_count : ℕ
  pub avg_keys : Average
  pub min_keys : Option ℕ
  pub max_keys : Option ℕ
  pub distinct_keys_seen : ℕ
  pub per_key : Dict String (KeyStats V)

module _ {V : Type 0} ⦃o : Object V⦄ (vs : Values V) where
  unfoldable pub start : Option ℤ → MetadataStats V
  start n_sample_values = record {
    n_sample_values = n_sample_values;
    count = 0;
    missing_metadata_count = 0;
    total_keys = 0;
    min_keys = none;
    max_keys = none;
    key_counts = [];
    key_none_counts = [];
    key_types = [];
    key_values = [];
    key_values_truncated = [];
  }

  -- the record-level counters of update
  unfoldable pub update_totals : Fields V → MetadataStats V → MetadataStats V
  update_totals metadata st = record st {
    missing_metadata_count =
        if leb (length metadata) 0
        then suc st.missing_metadata_count
        else st.missing_metadata_count;
    count = suc st.count;
    total_keys = st.total_keys + length metadata;
    min_keys = better_of ltb (length metadata) st.min_keys;
    max_keys = better_of (λ n best. ltb best n) (length metadata) st.max_keys;
  }

  -- the counters of one key
  unfoldable pub tally : String → V → MetadataStats V → MetadataStats V
  tally key value st = record st {
    key_counts = add_one st.key_counts key;
    key_types =
        Dict.set st.key_types key
          (add_to (λ s t. s == t) (vs.type_name value) (get_or st.key_types key []));
    key_none_counts =
        if vs.is_empty value then add_one st.key_none_counts key else st.key_none_counts;
  }

  -- the sample of one key, which is not capped yet; a set raises where it has to hash a value that
  -- has no hash
  unfoldable pub add_sample : String → V → MetadataStats V → Result (MetadataStats V)
  add_sample key value st =
      let values = get_or st.key_values key [] in
      if vs.is_hashable value
      then if vs.has_hash value
        then if is_full st.n_sample_values (length values) && not (in_set o.equals value values)
          then ok (record st {
            key_values = Dict.set st.key_values key values;
            key_values_truncated = Dict.set st.key_values_truncated key true;
          })
          else ok
              (record st { key_values = Dict.set st.key_values key (add_to o.equals value values) })
        else err type_error
      else ok (record st {
        key_values = Dict.set st.key_values key values;
        key_values_truncated = Dict.set st.key_values_truncated key true;
      })

  -- one round of the loop of update
  unfoldable pub update_key : String → V → MetadataStats V → Result (MetadataStats V)
  unfolding tally add_sample
  update_key key value st =
      let tallied = tally key value st in
      if get_or tallied.key_values_truncated key false
      then ok tallied
      else add_sample key value tallied

  unfoldable pub update_keys : Fields V → MetadataStats V → Result (MetadataStats V)
  unfolding update_key
  update_keys [] st = ok st
  update_keys ((key, value) ∷ metadata) st = elim (update_key key value st) [
    | err e ↦ err e
    | ok st' ↦ update_keys metadata st'
  ]

  unfoldable pub update : Record V → MetadataStats V → Result (MetadataStats V)
  unfolding update_totals update_keys
  update r st = update_keys r.metadata (update_totals r.metadata st)

  -- for record in records: stats.update(record)
  unfoldable pub update_all : List (Record V) → MetadataStats V → Result (MetadataStats V)
  unfolding update
  update_all [] st = ok st
  update_all (r ∷ records) st = elim (update r st) [
    | err e ↦ err e
    | ok st' ↦ update_all records st'
  ]

  -- sorted(values, key=str)
  unfoldable pub sorted_values : List V → List V
  unfolding sort
  sorted_values values = map (λ x. x.1) (sort text_less (map (λ v. (vs.str v, v)) values))

  unfoldable pub key_stats : MetadataStats V → String → KeyStats V
  unfolding sorted_keys sorted_values
  key_stats st key = record {
    present_in_records = get_or st.key_counts key 0;
    missing_in_records = st.count - get_or st.key_counts key 0;
    value_types = sorted_keys (get_or st.key_types key []);
    none_or_empty_count = get_or st.key_none_counts key 0;
    unique_values_sample = sorted_values (get_or st.key_values key []);
    unique_values_sample_truncated = get_or st.key_values_truncated key false;
  }

  module _ {Average : Type 0} (quotient : ℕ → ℕ → Average) (no_average : Average) where
    unfoldable pub to_dict : MetadataStats V → StatsDict Average V
    unfolding key_stats sorted_keys
    to_dict st = record {
      count = st.count;
      missing_metadata_count = st.missing_metadata_count;
      avg_keys = if leb st.count 0 then no_average else quotient st.total_keys st.count;
      min_keys = st.min_keys;
      max_keys = st.max_keys;
      distinct_keys_seen = length st.key_counts;
      per_key = map (λ key. (key, key_stats st key)) (sorted_keys (Dict.keys st.key_counts));
    }

    unfoldable pub compute_metadata_stats :
        List (Record V) → Option ℤ → Result (StatsDict Average V)
    unfolding update_all start to_dict
    compute_metadata_stats records n_sample_values =
        elim (update_all records (start n_sample_values)) [
          | err e ↦ err e
          | ok st ↦ ok (to_dict st)
        ]
