-- ===== src/Lock/Holding.antt =====
-- One call of `acquire`, with no other writer during it.
use repossess.Prelude.{
  ℕ, ◌≤◌, Text, ◌≡◌, true, false, none, some, Option, ◌∙◌, sym, refl, arith, ◌⊎◌, inl, inr, subst,
  Bool, if◌then◌else◌,
}
use repossess.Effect.{M, bail, lock_held, ok, Result, err, Report}
use repossess.Effect.Rules.{bind_rule, total_rule, ok_injective}
use repossess.Data.{Lock}
use repossess.Host.{Host}
use repossess.Snapshot.{lock_key}
use repossess.Stores.{PutResult, SnapshotStore}
use repossess.Stores.Contract.{Object, View, IsLawful, IsUndisturbed, none_of_etag}
use repossess.Lock.{is_held, new_lock, put_lock, acquire}

module _ (h : Host) (view : View h) (s : SnapshotStore h) (law : IsLawful h view s)
    (still : IsUndisturbed h view) where
  -- There is no lock in `w`, or one that had expired at `now`.
  abbrev pub IsFree : h.World → ℕ → Type 0
  IsFree w now =
      (view w lock_key ≡ none)
      ⊎ ((o : Object h) × (prev : Lock) × (view w lock_key ≡ some o)
          × (h.lock_json.from_slice o.body ≡ ok prev)
          × (prev.expires_at ≤ now))

  -- `w'` holds the lock of `run_id`, written under `etag`.
  abbrev pub IsLocked : Text → ℕ → ℕ → Text → h.World → Type 0
  IsLocked run_id now lifetime etag w' =
      (body : h.Bytes) × (h.lock_json.to_vec (new_lock run_id now lifetime) ≡ ok body)
      × (view w' lock_key ≡ some (record { body = body; etag = etag }))

  module _ (run_id : Text) (ttl : ℕ) (w : h.World) where
    -- What a call that returned `etag` did.
    abbrev pub Acquired : Text → h.World → Type 0
    Acquired etag w' =
        (lifetime : ℕ) × (h.duration_from_std ttl ≡ ok lifetime)
        × IsFree w (h.now w).0
        × IsLocked run_id (h.now w).0 lifetime etag w'

    P : Result Text → h.World → Type 0
    P r w' = (etag : Text) → r ≡ ok etag → Acquired etag w'

    failed : (e : Report) (w' : h.World) → P (err e) w'
    unfolding P
    failed e w' etag bad = cc

    arrived : (etag : Text) (w' : h.World) → Acquired etag w' → P (ok etag) w'
    unfolding P
    arrived etag w' a e' q = subst (λ t. Acquired t w') (ok_injective q) a

  -- What the write of the lock establishes, from a world `u` in which `head` has just answered.
  abbrev Wrote : ℕ → h.Bytes → h.World → PutResult → h.World → Type 0
  Wrote now body u r u' =
      IsFree u now × (view u' lock_key ≡ some (record { body = body; etag = r.etag }))

  module _ (now : ℕ) (body : h.Bytes) (u : h.World) where
    Q : Result PutResult → h.World → Type 0
    Q r u' = (x : PutResult) → r ≡ ok x → Wrote now body u x u'

    Q-failed : (e : Report) (u' : h.World) → Q (err e) u'
    unfolding Q
    Q-failed e u' x bad = cc

    Q-created :
        Q (s.put_if_unmodified lock_key body none u).0 (s.put_if_unmodified lock_key body none u).1
    unfolding Q
    Q-created x e =
        let done = law.cas_ok lock_key body none u x e in (inl (none_of_etag _ done.0), done.1)

    Q-swapped :
        (etag e : Text) (b : h.Bytes) (prev : Lock) (u' : h.World) (held : Bool)
        → ((j : Text) → view u' j ≡ view u j)
        → view u lock_key ≡ some (record { body = b; etag = e })
        → h.lock_json.from_slice b ≡ ok prev
        → is_held prev now ≡ held
        → let m : M h.World PutResult =
            if held
            then bail (lock_held prev.run_id prev.expires_at now)
            else s.put_if_unmodified lock_key body (some etag) in
          Q (m u').0 (m u').1
    unfolding Q
    Q-swapped etag e b prev u' true same at parsed held x bad = cc
    Q-swapped etag e b prev u' false same at parsed free x done = (
      inr (_, prev, at, parsed, ground arith),
      (law.cas_ok lock_key body (some etag) u' x done).1,
    )

    put_lock-Q :
        (existing : Option Text)
        → Q (put_lock h s now body existing u).0 (put_lock h s now body existing u).1
    unfolding put_lock
    put_lock-Q none = Q-created
    put_lock-Q (some etag) =
        bind_rule Q _ _ u (λ e _. Q-failed e _)
          λ found got.
            bind_rule Q _ _ _ (λ e _. Q-failed e _)
              λ prev parsed.
                Q-swapped etag found.1 found.0 prev _ (is_held prev now)
                  (λ j. law.get_view lock_key j u) (law.get_ok lock_key u found.0 found.1 got)
                  parsed refl

  used :
      (now : ℕ) (body : h.Bytes) (u : h.World) (r : PutResult) (existing : Option Text)
      → (put_lock h s now body existing u).0 ≡ ok r
      → Wrote now body u r (put_lock h s now body existing u).1
  unfolding Q
  used now body u r existing e = put_lock-Q now body u existing r e

  apply :
      (run_id : Text) (ttl : ℕ) (w : h.World) {r : Result Text} {w' : h.World}
      → P run_id ttl w r w'
      → (etag : Text) → r ≡ ok etag
      → Acquired run_id ttl w etag w'
  unfolding P
  apply run_id ttl w p = p

  IsFree-frame :
      (w u : h.World) (now : ℕ) → view u lock_key ≡ view w lock_key → IsFree u now → IsFree w now
  IsFree-frame w u now same (inl e) = inl (sym same ∙ e)
  IsFree-frame w u now same (inr (o, prev, at, parsed, le)) =
      inr (o, prev, sym same ∙ at, parsed, le)

  -- If `acquire` returns an etag, there was no lock or one that had expired at the time that was
  -- read, and now the lock of this run is stored under that etag, to expire a lifetime later.
  pub acquire-Acquired :
      (run_id : Text) (ttl : ℕ) (w : h.World) (etag : Text)
      → (acquire h s run_id ttl w).0 ≡ ok etag
      → Acquired run_id ttl w etag (acquire h s run_id ttl w).1
  unfolding acquire
  acquire-Acquired run_id ttl w = apply run_id ttl w (
      total_rule R _ h.now w (
        bind_rule R _ _ _ (λ e _. bad e _)
          λ lifetime lasts.
            bind_rule R _ _ _ (λ e _. bad e _)
              λ body made.
                bind_rule R _ _ w1 (λ e _. bad e _)
                  λ existing _.
                    bind_rule R _ (put_lock h s (h.now w).0 body existing) _ (λ e _. bad e _)
                      λ r wrote.
                        let (free, at) = used _ body _ r existing wrote in
                        arrived run_id ttl w r.etag _
                          (lifetime, lasts, IsFree-frame w _ _ frame free, (body, made, at))))
    where
      R : Result Text → h.World → Type 0
      R = P run_id ttl w

      w1 : h.World
      w1 = (h.now w).1

      bad : (e : Report) (w' : h.World) → R (err e) w'
      bad = failed run_id ttl w

      frame : view (s.head lock_key w1).1 lock_key ≡ view w lock_key
      frame = law.head_view lock_key lock_key w1 ∙ still.now_view lock_key w
