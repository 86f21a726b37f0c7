-- ===== src/Record/Analysis.antt =====
-- The exact analyses of persista/record/analysis/: duplicates (dedup.py), snapshots (diff.py), id
-- collisions (id_collision.py), dangling references (reference_check.py) and schema shapes
-- (schema_shapes.py).
pub mod Groups
pub mod Snapshots
pub mod Collisions
pub mod Orphans
use persista.Record.Sort.{sort}
use persista.Common.Equality.{texts_keys}
use persista.Common.{
  Bool, true, false, not, String, text_keys, Option, none, some, List, [], ◌∷◌, ◌++◌, map, ◌&&◌,
  ◌||◌, ◌==◌, Keys, select, all, length, ltb, nat_beq, if◌then◌else◌, text_less,
}
use persista.Dict
use persista.Dict.{Dict}
use persista.Store.Types.{Fields, Object}
use persista.Record.{Record, value_of}

-- any(p(x) for x in xs)
abbrev pub any {ℓ} : {A : Type ℓ} → (A → Bool) → List A → Bool
any p [] = false
any p (x ∷ xs) = p x || any p xs

-- the dict that diff_records returns
pub record Diff : Type 0 where
  pub added : List String
  pub removed : List String
  pub changed : List String

-- tuple(sorted(keys))
unfoldable pub sorted_keys : List String → List String
unfolding sort
sorted_keys keys = map (λ x. x.1) (sort text_less (map (λ k. (k, k)) keys))

module _ {K A : Type 0} ⦃e : Keys K⦄ where
  -- d.get(k, [])
  abbrev pub group_at : Dict K (List A) → K → List A
  group_at d k = elim (Dict.get d k) [ none ↦ [] | some group ↦ group ]

  -- d.setdefault(k, []).append(x)
  abbrev pub append_to : Dict K (List A) → K → A → Dict K (List A)
  append_to d k x = Dict.set d k (group_at d k ++ x ∷ [])

module _ {V H : Type 0} ⦃e : Keys H⦄ where
  -- for record in records: groups.setdefault(key(record), []).append(record.id)
  unfoldable pub group_ids :
      (Record V → H) → List (Record V) → Dict H (List String) → Dict H (List String)
  group_ids key [] groups = groups
  group_ids key (r ∷ records) groups = group_ids key records (append_to groups (key r) r.id)

  -- `hash_object` is that of coola.hashing.
  unfoldable pub find_duplicate_record_ids : (Fields V → H) → List (Record V) → List (List String)
  unfolding group_ids
  find_duplicate_record_ids hash_object records =
      select (λ group. ltb 1 (length group))
        (Dict.values (group_ids (λ r. hash_object r.metadata) records []))

module _ {V : Type 0} where
  -- {record.id: record.metadata for record in records}
  unfoldable pub by_id : List (Record V) → Dict String (Fields V)
  by_id records = Dict.of_pairs (map (λ r. (r.id, r.metadata)) records)

  -- the keys of the metadata, as a sorted tuple
  unfoldable pub shape : Record V → List String
  unfolding sorted_keys
  shape r = sorted_keys (Dict.keys r.metadata)

  unfoldable pub compute_schema_shapes : List (Record V) → Dict (List String) (List String)
  unfolding group_ids shape
  compute_schema_shapes records = group_ids shape records []

module _ {V : Type 0} ⦃o : Object V⦄ where
  -- == of the value under a key, false if the key is missing
  abbrev pub field_equals : Option V → V → Bool
  field_equals none w = false
  field_equals (some v) w = o.equals w v

  -- a == b, for dicts
  unfoldable pub same_fields : Fields V → Fields V → Bool
  same_fields a b = nat_beq (length a) (length b) && all (λ f. field_equals (Dict.get b f.0) f.1) a

  -- d[k] != e[k], for a key of both
  abbrev pub differ_at : Dict String (Fields V) → Dict String (Fields V) → String → Bool
  differ_at d e k = elim (Dict.get d k) [
    | none ↦ false
    | some a ↦ elim (Dict.get e k) [ none ↦ false | some b ↦ not (same_fields a b) ]
  ]

  unfoldable pub diff_records : List (Record V) → List (Record V) → Diff
  unfolding by_id same_fields
  diff_records before after =
      let before_by_id = by_id before in
      let after_by_id = by_id after in
      record {
        added = select (λ rid. not (Dict.contains before_by_id rid)) (Dict.keys after_by_id);
        removed = select (λ rid. not (Dict.contains after_by_id rid)) (Dict.keys before_by_id);
        changed =
            select (λ rid. Dict.contains before_by_id rid && differ_at after_by_id before_by_id rid)
              (Dict.keys after_by_id);
      }

  -- seen.append(metadata), if it is not in there
  unfoldable pub add_variant : List (Fields V) → Fields V → List (Fields V)
  unfolding same_fields
  add_variant seen metadata =
      if any (λ variant. same_fields variant metadata) seen then seen else seen ++ metadata ∷ []

  -- the loop over the records
  unfoldable pub variants_from :
      List (Record V) → Dict String (List (Fields V)) → Dict String (List (Fields V))
  unfolding add_variant
  variants_from [] variants = variants
  variants_from (r ∷ records) variants =
      variants_from records
        (Dict.set variants r.id (add_variant (group_at variants r.id) r.metadata))

  unfoldable pub find_id_collisions : List (Record V) → Dict String (List (Fields V))
  unfolding variants_from
  find_id_collisions records =
      Dict.of_pairs (select (λ e. ltb 1 (length e.1)) (variants_from records []))

  -- `text` is a Python text as a value, `is_none` is `value is None`.
  module _ (text : String → V) (is_none : V → Bool) where
    -- referenced_id in ids
    abbrev pub is_id : List (Record V) → V → Bool
    is_id records referenced_id = any (λ s. o.equals (text s.id) referenced_id) records

    abbrev pub is_orphan : List (Record V) → Option V → Bool
    is_orphan records none = false
    is_orphan records (some referenced_id) =
        if is_none referenced_id then false else not (is_id records referenced_id)

    -- the loop over the records, with `ids` from all of them
    unfoldable pub orphans_in : List (Record V) → String → List (Record V) → List String
    orphans_in all_records reference_key [] = []
    orphans_in all_records reference_key (r ∷ records) =
        let rest = orphans_in all_records reference_key records in
        if is_orphan all_records (value_of reference_key r) then r.id ∷ rest else rest

    unfoldable pub find_orphan_references : List (Record V) → String → List String
    unfolding orphans_in
    find_orphan_references records reference_key = orphans_in records reference_key records
