-- ===== src/Preview.antt =====
-- pkg/api/v20191231preview: the first version of the API.
pub mod Cluster
pub mod Convert
pub mod Patterns
pub mod Validate
pub mod Valid
pub mod Static
pub mod Kept
pub mod Profiles
pub mod Delta
pub mod Dynamic
pub mod Tests
