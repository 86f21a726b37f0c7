-- ===== src/Record.antt =====
-- The records of persista/record/: `Record`, and the filters and the sort by a metadata key.
pub mod Filter
pub mod Sort
pub mod Analysis
pub mod Stats
pub mod RecordStore
use persista.Common.{Bool, String, text_keys, Option}
use persista.Dict
use persista.Store.Types.{Fields}

-- The dataclass; its metadata is never changed after it is built.
pub record Record (V : Type 0) : Type 0 where
  pub id : String
  pub metadata : Fields V

module _ {V : Type 0} where
  -- from_metadata; `generate_stable_uuid5` is that of coola.identifier.
  abbrev pub from_metadata : (Fields V → String) → Fields V → Record V
  from_metadata generate_stable_uuid5 metadata = record {
    id = generate_stable_uuid5 metadata;
    metadata = metadata;
  }

  -- r.metadata.get(key), with `none` for a missing key
  abbrev pub value_of : String → Record V → Option V
  value_of metadata_key r = Dict.get r.metadata metadata_key

-- `<` between the values of a metadata key, where they are comparable.
pub record Order (V : Type 0) : Type 0 where
  pub less : V → V → Bool
