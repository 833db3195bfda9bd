-- ===== src/Stores.antt =====
-- src/stores/mod.rs: the trait that every backend implements, and the fan-out to mirrors.
pub mod Contract
pub mod Build
pub mod Git
pub mod Opened
pub mod S3
pub mod Github
use repossess.Prelude.{ℕ, Text, Option, List, [], ◌∷◌}
use repossess.Effect.{M}
use repossess.Host.{Host}

pub record PutResult : Type 0 where
  pub etag : Text

pub record ObjectMeta : Type 0 where
  pub key : Text
  pub etag : Text
  pub size : ℕ

-- A `&dyn SnapshotStore`: its methods, over the world that the stored objects live in.
pub record SnapshotStore (h : Host) : Type 0 where
  pub name : Text
  pub put_if_unmodified : Text → h.Bytes → Option Text → M h.World PutResult
  pub put : Text → h.Bytes → M h.World PutResult
  pub get : Text → M h.World (h.Bytes × Text)
  pub head : Text → M h.World (Option Text)
  pub list : Text → M h.World (List ObjectMeta)
  pub delete_if_match : Text → Text → M h.World (Unit {0})

-- A mirror that fails is only logged.
unfoldable pub fanout : (h : Host) → List (SnapshotStore h) → Text → h.Bytes → h.World → h.World
fanout h [] key body w = w
fanout h (m ∷ mirrors) key body w = fanout h mirrors key body (m.put key body w).1
