-- ===== src/Api.antt =====
-- frontend/src/api/client.ts: the records of the REST API, the requests that each function of
-- `api` sends, and how `request` sends one and reads its answer.
pub mod Json
pub mod Types
pub mod Encode
pub mod Transport
pub mod Client
pub mod Paths
