-- ===== src/Install.antt =====
-- pkg/install: the installation of a cluster.
pub mod Graph
pub mod Attach
pub mod Phases
