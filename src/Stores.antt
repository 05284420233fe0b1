-- ===== src/Stores.antt =====
-- pkg/stores: how a list is split by what the user may read.
pub mod Rbac
pub mod Lister
pub mod Reserved
pub mod Tables
pub mod Proxy
pub mod Backend
pub mod Partitions
pub mod Composed
pub mod Watches
