-- ===== src/Database.antt =====
-- pkg/database: the collections of documents behind the front end and the back end.
pub mod Clusters
pub mod Subscriptions
pub mod AsyncOperations
pub mod Tests
