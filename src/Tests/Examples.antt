-- ===== src/Tests/Examples.antt =====
-- The properties of saving, restoring and locking at concrete inputs.
use repossess.Prelude.{
  ℕ, Text, codes, true, none, some, [], ◌∷◌, ◌++◌, trim, ◌≡◌, refl, text_eq, arith,
}
use repossess.Effect.{Result, ok, ◌>>=◌}
use repossess.Data.{StorageState, LatestPointer, storage_state_v1}
use repossess.Crypto.{compress, decompress, verify}
use repossess.Commands.Restore.{restore, decode_signature}
use repossess.Commands.Restore.Integrity.{IsRestorable, Found, restore-Found}
use repossess.Commands.Save.{save, save_at, mirror_snapshot, object_key, sig_key}
use repossess.Stores.{fanout}
use repossess.Commands.Save.Safety.{IsFresh, save-IsRestorable}
use repossess.Commands.Save.Success.{Saved, save-Saved}
use repossess.Commands.Seed.{publish, publish_at}
use repossess.Commands.Seed.Seeded.{Seeded, publish-Seeded}
use repossess.Tests.Model.{Memory, host, view, memory_store, empty_memory}
use repossess.Tests.Laws.{
  host-IsCodec, host-Decrypts, host-Verifies, host-IsUndisturbed, memory-IsLawful,
}
use repossess.Lock.{acquire, put_lock}
use repossess.Lock.Holding.{Acquired, acquire-Acquired}
use repossess.Lock.Runners.{
  System, Reach, here, next, read_clock, head_none, create, start, timed, absent, goes, write,
}
use repossess.Lock.Runners.Exclusion.{lock_exclusion}
use repossess.Snapshot.{latest_key, verify_digest, ensure_monotonic}

-- A state with one cookie, and the world after a save of it, onto a pointer made by hand.
abbrev pub session : StorageState ℕ
session = record {
  cookies =
      record {
        name = codes "sid";
        value = codes "42";
        domain = codes "example.org";
        path = codes "/";
        expires = some 9;
        http_only = true;
        secure = true;
        same_site = none;
      }
      ∷ [];
  origins = [];
}

abbrev pub first_pointer : LatestPointer
first_pointer = record {
  version = [];
  object = [];
  object_sha256 = [];
  signature_object = [];
  created_at = 1;
  format = storage_state_v1;
}

abbrev with_pointer : Memory
with_pointer = (memory_store.put latest_key [] empty_memory).1

abbrev pub saved : Memory
saved = (save host memory_store [] 5 3 session first_pointer (0 ∷ []) with_pointer).1

saved_ok :
    (save host memory_store [] 5 3 session first_pointer (0 ∷ []) with_pointer).0 ≡ ok (7 ∷ [])
unfolding save ◌>>=◌ compress save_at ensure_monotonic text_eq sig_key object_key
saved_ok = refl

save-Saved_example :
    Saved host view 5 3 5 3 host-IsCodec
      (host-Decrypts 5)
      (host-Verifies 3)
      memory_store
      memory-IsLawful
      []
      tt
      host-IsUndisturbed
      session
      first_pointer
      (0 ∷ [])
      with_pointer
      (7 ∷ [])
      saved
save-Saved_example =
    save-Saved host view 5 3 5 3 host-IsCodec (host-Decrypts 5) (host-Verifies 3) memory_store
      memory-IsLawful [] tt host-IsUndisturbed session first_pointer (0 ∷ []) with_pointer (7 ∷ [])
      saved_ok

-- What the store then holds.
abbrev pub saved_pointer : LatestPointer
saved_pointer = record {
  version = 7 ∷ [];
  object = codes "snapshots/" ++ (7 ∷ codes ".zst.age");
  object_sha256 = b'x' ∷ 5 ∷ 3 ∷ 1 ∷ 3 ∷ b'x' ∷ [];
  signature_object = codes "snapshots/" ++ (7 ∷ codes ".zst.age.sig");
  created_at = 7;
  format = storage_state_v1;
}

restored_ok :
    (restore host memory_store 5 3 saved).0
    ≡ ok (record { pointer = saved_pointer; pointer_etag = 3 ∷ []; state = session })
unfolding restore save ◌>>=◌ compress decompress verify decode_signature save_at ensure_monotonic
    text_eq sig_key object_key verify_digest mirror_snapshot fanout trim
restored_ok = refl

restore-Found_example :
    Found host view 5 3 memory_store memory-IsLawful saved
      (record { pointer = saved_pointer; pointer_etag = 3 ∷ []; state = session })
restore-Found_example =
    restore-Found host view 5 3 memory_store memory-IsLawful saved
      (record { pointer = saved_pointer; pointer_etag = 3 ∷ []; state = session }) restored_ok

-- A second save, from the world that the first one left.
abbrev second : Result Text × Memory
second = save host memory_store [] 5 3 session saved_pointer (3 ∷ []) saved

restored :
    Found host view 5 3 memory_store memory-IsLawful saved
      (record { pointer = saved_pointer; pointer_etag = 3 ∷ []; state = session })
restored = restore-Found host view 5 3 memory_store memory-IsLawful saved _ restored_ok

fresh : (p : Text) → IsFresh host view 5 3 restored.0 (host.now (host.age_encrypt 5 p saved).1).0
unfolding save ◌>>=◌ compress save_at ensure_monotonic text_eq sig_key object_key mirror_snapshot
    fanout
fresh p = record {
  object_object = rw restored.1 refl;
  object_sig = rw restored.1 refl;
  sig_object = rw restored.1 refl;
  sig_sig = rw restored.1 refl;
}

save-IsRestorable_example : IsRestorable host view 5 3 second.1
save-IsRestorable_example =
    save-IsRestorable host view 5 3 5 3 host-IsCodec (host-Decrypts 5) (host-Verifies 3)
      memory_store memory-IsLawful [] tt host-IsUndisturbed restored.0 session saved_pointer
      (3 ∷ []) fresh

-- A call that finds no lock.
acquired_ok : (acquire host memory_store (codes "r1") 9 empty_memory).0 ≡ ok (0 ∷ [])
unfolding acquire put_lock ◌>>=◌
acquired_ok = refl

acquire-Acquired_example :
    Acquired host view memory_store memory-IsLawful host-IsUndisturbed
      (codes "r1")
      9
      empty_memory
      (0 ∷ [])
      (acquire host memory_store (codes "r1") 9 empty_memory).1
acquire-Acquired_example =
    acquire-Acquired host view memory_store memory-IsLawful host-IsUndisturbed (codes "r1") 9
      empty_memory (0 ∷ []) acquired_ok

-- Runner 1 takes the lock at the time 5, for 10.
abbrev timed_system : System
timed_system = goes (start 5) 1 (timed 5)

abbrev absent_system : System
absent_system = goes timed_system 1 (absent 5)

abbrev locked_system : System
locked_system = write absent_system 1 (codes "r1") 5 10

reached : Reach (start 5) locked_system
reached =
    next (next (next here (read_clock (start 5) 1 refl)) (head_none timed_system 1 5 refl refl))
      (create absent_system 1 5 10 (codes "r1") refl refl)

lock_exclusion_example : ◌≡◌ {A = ℕ} 1 1
lock_exclusion_example = lock_exclusion 1 1 0 0 15 15 reached refl refl (omega arith) (omega arith)

seeded_ok : (publish host memory_store [] 5 3 session empty_memory).0 ≡ ok (7 ∷ [])
unfolding publish publish_at ◌>>=◌ compress text_eq sig_key object_key
seeded_ok = refl

publish-Seeded_example :
    Seeded host view 5 3 5 3 host-IsCodec
      (host-Decrypts 5)
      (host-Verifies 3)
      memory_store
      memory-IsLawful
      []
      tt
      session
      (7 ∷ [])
      (publish host memory_store [] 5 3 session empty_memory).1
publish-Seeded_example =
    publish-Seeded host view 5 3 5 3 host-IsCodec (host-Decrypts 5) (host-Verifies 3) memory_store
      memory-IsLawful [] tt session empty_memory (7 ∷ []) seeded_ok
