-- ===== src/Cosmos.antt =====
-- pkg/database/cosmosdb: the client of the database service, generated once for each kind of
-- document and checked in. The map names the copy for OpenShiftClusterDocument.
pub mod Service
pub mod Client
pub mod Retry
pub mod Attempts
pub mod Unconditional
pub mod Exchange
pub mod Replace
pub mod Memory
pub mod Pages
pub mod Tests
