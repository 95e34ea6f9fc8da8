-- ===== src/Api/Client.antt =====
-- The functions of `api`: the request that each sends.
mod Base
mod Accounts
mod Clusters
mod Services
unfoldable pub use Base.*
unfoldable pub use Accounts.*
unfoldable pub use Clusters.*
unfoldable pub use Services.*
