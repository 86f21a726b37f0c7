-- ===== src/Lib.antt =====
-- persista: a verification of its key-value stores and of its cache.
--
-- The program (src/persista) persists dicts under string keys through one interface, `BaseStore`,
-- with several backends, and builds a cache with expiring entries and record stores on top of it.
--
-- Which file models which part:
-- - Common and its children: what the modules share. `Actions` has the exceptions and the actions
--   `Exec S A = S → Result A × S`: a method returns or raises, and what it wrote before a raise stays
--   written. `Equality` is the interface of key types with a test.
-- - Dict: Python's `dict`, in insertion order.
-- - Store/Types, Store/Validation, Store/Normalize: persista/store/types.py and the checks of
--   persista/store/validation.py. Store/Conflicts: its `resolve_conflicts`. Store/Names: its checks
--   of field names, table names and column types. Store/Keys: persista/store/keys.py.
-- - Store/Base: `BaseStore` of persista/store/base.py, the abstract methods as a record, with the
--   contract `IsStore` over the specification in Store/Spec; `set_batches` and `values` stand there.
-- - Store/InMemory: `InMemoryStore` of persista/store/in_memory.py.
-- - Store/Writes: what `set_many` has in common in file.py, sqlite.py, duckdb.py and in_memory.py.
-- - Store/Engine: the interface of the SQL databases, with a table that keeps its laws.
--   Store/TypedRows: the rows of the typed SQL stores. Store/Sqlite: persista/store/sqlite.py, with
--   its three subclasses in Store/Sqlite/Stores. Store/Duckdb: persista/store/duckdb.py.
--   Store/Postgres: persista/store/postgres.py.
-- - Store/File: persista/store/file.py, over an interface of the file system.
-- - Store/Lmdb: persista/store/lmdb.py, over an interface of the environment.
-- - Store/Redis: persista/store/redis.py, over an interface of the server that other clients use too.
-- - Store/Uri and Store/Registry: persista/store/uri.py and registry.py, over the functions of
--   urllib.parse.
-- - Store/Null: `NullStore` of persista/store/null.py; Cache/Disabled is a cache over it.
-- - Cache: `Cache` of persista/cache/cache.py, over any store; Cache/Spec says what it promises.
--   Cache/Split and Cache/Keys: the splits and the keys of persista/cache/utils.py. Cache/Memoize:
--   the memoizing decorators, and the default cache of persista/cache/interface.py.
-- - Http: the interface of the client library httpx. Http/Retry and Http/Methods:
--   persista/http/httpx/method.py. Http/HttpClient and Http/AsyncHttpClient:
--   persista/http/httpx/client.py, which puts the cache before the requests.
-- - Record, Record/Filter, Record/Sort: persista/record/record.py, filter.py and sort.py.
-- - Record/Analysis: the exact analyses of persista/record/analysis/ (dedup.py, diff.py,
--   id_collision.py, reference_check.py, schema_shapes.py), with a module for what each reports.
-- - Record/Stats: persista/record/analysis/metadata_stats.py.
-- - Record/RecordStore: `RecordStore` of persista/record/store/record.py, over any store.
-- - Tests: runs, and the theorems at concrete inputs.
--
-- How the model reads the code:
-- - The type of field values is a parameter `V`; a store uses only `None` and `==` of it. Values are
--   immutable, so the deep copies are the identity, and aliasing is not modelled.
-- - A method that holds the lock is one step. Generators are run to their end.
-- - A cached object is `None`, a time stamp or anything else; `time.time()` is an argument of each
--   method that reads it. Times and ttls are whole numbers of ticks of one clock.
-- - `batchify` of coola.utils.batching is a parameter, with what is used of it in `IsBatchify`
--   (Store/Batching).
-- - Metadata values are compared by an `Order`, so sorts and ranges do not raise `TypeError`;
--   `hash_object` and `generate_stable_uuid5` of coola are arguments.
-- - Loops are structural recursions over the lists they read. Three take a number of rounds: the chunks
--   of a list of n items, at most n; the pages of `iter_batches` over a table of n rows, n + 1; and
--   the attempts of `send_request`, one more than the retries. The last two return an error of the
--   model's own if the rounds do not suffice.
-- - The SQL databases, LMDB, Redis and the file system are third-party: their calls are interfaces
--   with laws. A row is given without its key, a key of LMDB stands for its bytes, and a statement
--   does not fail, but for the creation of the table, and in DuckDB on a table that is not there. A
--   column of a declared type keeps a cell as the database makes it (`column` of `Cells`). A
--   serializer is an argument; what is used of it is `IsCodec`, `IsCoding` or `IsJson`. The clients
--   of httpx and the functions of urllib are interfaces too.
-- - What an lru_cache has for a value is an argument of each call that asks it.
-- - Messages of exceptions and logging are left out; `KeyError` keeps its keys.
--
-- Not modelled: the async twins of the methods of the stores and of the cache (those of the HTTP
-- functions and of `memoize` are the sync definitions, with no other task between their awaited
-- calls), the uris of Redis and PostgreSQL, custom record stores, value frequencies and the
-- approximate analyses, the adapter of requests, factories and display.
pub mod Common
pub mod Dict
pub mod Store
pub mod Http
pub mod Cache
pub mod Record
mod Tests
