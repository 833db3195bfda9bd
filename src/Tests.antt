-- ===== src/Tests.antt =====
-- A concrete host, store, server and world, and the properties at work on them.
pub mod Codec
pub mod Model
pub mod Laws
pub mod Limits
pub mod Server
pub mod Examples
pub mod Workload
pub mod Rotation
pub mod Repository
pub mod Bucket
pub mod Chrome
pub mod Exporting
pub mod Releases
pub mod Importing
pub mod Cloning
pub mod Defaults
pub mod Keys
