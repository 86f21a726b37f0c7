-- ===== src/Tests/Records.antt =====
-- The records, their analyses, the name checks and the disabled cache at concrete inputs.
use mathlib.Core.List.{Memᴰ}
use persista.Common.{
  ℕ, Bool, true, false, not, String, text_keys, ℕ_keys, none, some, List, [], ◌∷◌, ◌≡◌, ◌↔◌, ◌⊎◌,
  refl, map, ok, err, value_error, ltb, nat_beq, length, select, if◌then◌else◌, ◌&&◌, is_some,
  arith,
}
use persista.Common.Equality.{texts_keys}
use persista.Dict
use persista.Dict.{Dict}
use persista.Store.Types.{Fields}
use persista.Store.Names.{
  is_name_start, is_name_char, validate_field_name, validate_table_name, validate_value_schema,
}
use persista.Store.Names.Accepted
use persista.Store.Names.Accepted.{IsToken, IsAccepted}
use persista.Store.Normalize.{codes}
use persista.Store.Conflicts.{member}
use persista.Store.Batching.{chunks, chunks-IsBatchify}
use persista.Store.InMemory
use persista.Store.InMemory.{InMemoryStore}
use persista.Store.InMemory.Contract.{in_memory, in_memory-IsStore}
use persista.Record.{Record, Order}
use persista.Record.Sort.{direction, sort_by_metadata}
use persista.Record.Sort.Stable
use persista.Record.Sort.Stable.{IsWeakOrder, has_tied}
use persista.Record.Sort.Ordered
use persista.Record.Sort.Ordered.{IsOrdered}
use persista.Record.Analysis.{find_duplicate_record_ids, diff_records, find_id_collisions}
use persista.Record.Analysis.Groups
use persista.Record.Analysis.Groups.{ids_with, group_of}
use persista.Record.Analysis.Snapshots
use persista.Record.Analysis.Snapshots.{last_with_id, differ}
use persista.Record.Analysis.Collisions
use persista.Record.Analysis.Collisions.{vary, metadata_of, AreVariants}
use persista.Record.RecordStore
use persista.Record.RecordStore.{record_of, record_matches, records_of}
use persista.Record.RecordStore.Contract
use persista.Record.RecordStore.Contract.{or_else}
use persista.Record.RecordStore.Filtering
use persista.Tests.Stores.{nat_object}

instance abbrev nat_order : Order ℕ
nat_order = record { less = ltb }

ltb-IsWeakOrder : IsWeakOrder ltb
ltb-IsWeakOrder = record { asym = λ a b h. ground arith; cotrans = λ a b c h n. ground arith }

abbrev rec : String → Fields ℕ → Record ℕ
rec i m = record { id = i; metadata = m }

abbrev four : List (Record ℕ)
four =
    rec "a" (("page", 5) ∷ [])
    ∷ rec "b" (("page", 2) ∷ [])
    ∷ rec "c" []
    ∷ rec "a" (("page", 5) ∷ ("size", 1) ∷ [])
    ∷ []

abbrev changed : List (Record ℕ)
changed = rec "b" (("page", 3) ∷ []) ∷ rec "d" [] ∷ []

-- what the runs compute with
program : Unit {0}
unfolding sort_by_metadata find_duplicate_record_ids diff_records find_id_collisions
    validate_field_name Dict.get Dict.set Dict.of_pairs
program = tt

sorted :
    sort_by_metadata four "page" true false
    ≡ rec "b" (("page", 2) ∷ [])
      ∷ rec "a" (("page", 5) ∷ [])
      ∷ rec "a" (("page", 5) ∷ ("size", 1) ∷ [])
      ∷ rec "c" []
      ∷ []
unfolding program
sorted = refl

sort_by_metadata_stable_example :
    select (has_tied "page" ltb 5) (sort_by_metadata four "page" true true)
    ≡ select (has_tied "page" ltb 5) four
sort_by_metadata_stable_example =
    Stable.sort_by_metadata_stable ltb-IsWeakOrder four "page" true true 5

sort_by_metadata-IsOrdered_example :
    IsOrdered "page" (direction true ltb) (sort_by_metadata four "page" true true)
sort_by_metadata-IsOrdered_example =
    Ordered.sort_by_metadata-IsOrdered ltb-IsWeakOrder four "page" true true

-- the number of fields, in place of a hash
abbrev size : Fields ℕ → ℕ
size m = length m

duplicates : find_duplicate_record_ids size four ≡ ("a" ∷ "b" ∷ []) ∷ []
unfolding program
duplicates = refl

find_duplicate_record_ids-groups_example :
    Memᴰ ("a" ∷ "b" ∷ []) (find_duplicate_record_ids size four) ↔ (
      (h : ℕ) × (ids_with (λ r. size r.metadata) four h ≡ "a" ∷ "b" ∷ [])
      × (ltb 1 (length {A = String} ("a" ∷ "b" ∷ [])) ≡ true))
find_duplicate_record_ids-groups_example =
    Groups.find_duplicate_record_ids-groups size four ("a" ∷ "b" ∷ [])

difference : (diff_records four changed).changed ≡ "b" ∷ []
unfolding program
difference = refl

diff_records-classifies_example :
    (member (diff_records four changed).added "b"
      ≡ (not (is_some (last_with_id four "b")) && is_some (last_with_id changed "b")))
    × (member (diff_records four changed).removed "b"
        ≡ (not (is_some (last_with_id changed "b")) && is_some (last_with_id four "b")))
    × (member (diff_records four changed).changed "b"
        ≡ differ (last_with_id four "b") (last_with_id changed "b"))
diff_records-classifies_example = Snapshots.diff_records-classifies four changed "b"

collisions :
    find_id_collisions four ≡ ("a", (("page", 5) ∷ []) ∷ (("page", 5) ∷ ("size", 1) ∷ []) ∷ []) ∷ []
unfolding program
collisions = refl

get-find_id_collisions_example :
    (variants : List (Fields ℕ)) × AreVariants (metadata_of four "a") variants
    × (Dict.get (find_id_collisions four) "a"
        ≡ (if vary (metadata_of four "a") then some variants else none))
get-find_id_collisions_example = Collisions.get-find_id_collisions four "a"

-- ids as numbers: the length of the text
abbrev as_value : String → ℕ
as_value i = length (codes i)

abbrev is_zero : ℕ → Bool
is_zero n = nat_beq n 0

abbrev opened : InMemoryStore ℕ
opened = record { entries = ("z", ("page", 9) ∷ []) ∷ ("y", []) ∷ []; closed = false }

get-set_many_records_example :
    ((RecordStore.set_many (in_memory chunks) four opened).0 ≡ ok tt)
    × (RecordStore.get
          (in_memory chunks)
          "a"
          (RecordStore.set_many (in_memory chunks) four opened).1
        ≡ (
          ok (record_of "a" (or_else (last_with_id four "a") (Dict.get opened.entries "a"))),
          (RecordStore.set_many (in_memory chunks) four opened).1,
        ))
get-set_many_records_example =
    Contract.get-set_many_records (in_memory chunks) (in_memory-IsStore chunks) opened refl four "a"

filter-in_memory_example :
    (records : List (Record ℕ)) × (RecordStore.filter
        (in_memory chunks)
        none
        (("page", 9) ∷ [])
        opened
      ≡ (ok records, opened))
    × (records ≡ select (record_matches (("page", 9) ∷ [])) (records_of opened.entries))
    × (InMemory.filter (("page", 9) ∷ []) opened ≡ (ok (map (λ r. r.metadata) records), opened))
unfolding Dict.get
filter-in_memory_example =
    Filtering.filter-in_memory chunks chunks-IsBatchify opened (("page", 9) ∷ []) refl
      (refl, (refl, tt))

a_newline_is_accepted : validate_field_name "user_id\n" ≡ ok tt
unfolding program
a_newline_is_accepted = refl

a_space_is_refused : validate_field_name "bad name" ≡ err value_error
unfolding program
a_space_is_refused = refl

validate_names_iff_example :
    ((validate_field_name "user_id" ≡ ok tt) ↔ IsToken is_name_start is_name_char (codes "user_id"))
    × (validate_table_name "user_id" ≡ validate_field_name "user_id")
    × ((validate_field_name "user_id" ≡ ok tt) ⊎ (validate_field_name "user_id" ≡ err value_error))
validate_names_iff_example = Accepted.validate_names_iff "user_id"

abbrev schema : Dict String String
schema = ("age", "INTEGER") ∷ ("name", "VARCHAR(255)") ∷ []

validate_value_schema_iff_example : (validate_value_schema schema ≡ ok tt) ↔ IsAccepted schema
validate_value_schema_iff_example = Accepted.validate_value_schema_iff schema
