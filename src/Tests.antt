-- ===== src/Tests.antt =====
-- Runs of the model at concrete inputs, and each theorem at an input that meets its hypotheses.
mod Stores
mod Caches
mod Records
mod Sql
mod File
mod Postgres
mod Stats
mod Registry
mod Lmdb
mod Redis
mod Network
mod Http
mod HttpClient
