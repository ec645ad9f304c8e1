-- ===== src/Api.antt =====
-- pkg/api: the internal representation that the front end, the database and the back end share.
-- A struct's embedded MissingFields and the texts of error messages are left out: no code of the
-- resource provider decides by them.
pub mod Error
pub mod Cluster
pub mod Document
