-- ===== src/Stores/Contract.antt =====
-- What the trait promises of a store in which every object has its own etag (the S3 backend),
-- stated over a view of the stored objects. A call that fails may or may not have taken effect, as
-- after a lost reply, but it has none that its precondition forbids.
use repossess.Prelude.{Text, false, Option, none, some, List, [], ◌∷◌, ◌≡◌, ◌⊎◌, refl, ◌∙◌, text_eq}
use repossess.Effect.{Report, ok, err}
use repossess.Host.{Host}
use repossess.Stores.{PutResult, SnapshotStore, fanout}

pub record Object (h : Host) : Type 0 where
  pub body : h.Bytes
  pub etag : Text

-- The objects that a store holds in a world.
abbrev pub View : Host → Type 0
View h = h.World → Text → Option (Object h)

abbrev pub etag_of : {h : Host} → Option (Object h) → Option Text
etag_of none = none
etag_of (some o) = some o.etag

pub none_of_etag : {h : Host} (o : Option (Object h)) → etag_of o ≡ none → o ≡ none
none_of_etag none e = refl
none_of_etag (some o) e = absurd (cc)

module _ (h : Host) (view : View h) where
  -- The view after a write of `b` at `k` that may have failed half way.
  abbrev pub KeptOrWritten : Text → h.Bytes → h.World → h.World → Type 0
  KeptOrWritten k b w w' =
      (view w' k ≡ view w k) ⊎ ((e : Text) × (view w' k ≡ some (record { body = b; etag = e })))

  pub record IsLawful (s : SnapshotStore h) : Type 0 where
    pub get_ok :
        (k : Text) (w : h.World) (b : h.Bytes) (e : Text)
        → (s.get k w).0 ≡ ok (b, e)
        → view w k ≡ some (record { body = b; etag = e })
    pub get_view : (k j : Text) (w : h.World) → view (s.get k w).1 j ≡ view w j
    pub head_ok :
        (k : Text) (w : h.World) (o : Option Text) → (s.head k w).0 ≡ ok o → o ≡ etag_of (view w k)
    pub head_view : (k j : Text) (w : h.World) → view (s.head k w).1 j ≡ view w j
    pub put_ok :
        (k : Text) (b : h.Bytes) (w : h.World) (r : PutResult)
        → (s.put k b w).0 ≡ ok r
        → view (s.put k b w).1 k ≡ some (record { body = b; etag = r.etag })
    pub put_err :
        (k : Text) (b : h.Bytes) (w : h.World) (x : Report)
        → (s.put k b w).0 ≡ err x
        → KeptOrWritten k b w (s.put k b w).1
    pub put_other :
        (k j : Text) (b : h.Bytes) (w : h.World)
        → text_eq k j ≡ false
        → view (s.put k b w).1 j ≡ view w j
    pub cas_ok :
        (k : Text) (b : h.Bytes) (expected : Option Text) (w : h.World) (r : PutResult)
        → (s.put_if_unmodified k b expected w).0 ≡ ok r
        → (etag_of (view w k) ≡ expected)
          × (view (s.put_if_unmodified k b expected w).1 k
              ≡ some (record { body = b; etag = r.etag }))
    pub cas_err :
        (k : Text) (b : h.Bytes) (expected : Option Text) (w : h.World) (x : Report)
        → (s.put_if_unmodified k b expected w).0 ≡ err x
        → (view (s.put_if_unmodified k b expected w).1 k ≡ view w k)
          ⊎ ((e : Text) × (etag_of (view w k) ≡ expected)
              × (view (s.put_if_unmodified k b expected w).1 k
                  ≡ some (record { body = b; etag = e })))
    pub cas_other :
        (k j : Text) (b : h.Bytes) (expected : Option Text) (w : h.World)
        → text_eq k j ≡ false
        → view (s.put_if_unmodified k b expected w).1 j ≡ view w j
    pub delete_ok :
        (k e : Text) (w : h.World)
        → (s.delete_if_match k e w).0 ≡ ok tt
        → view (s.delete_if_match k e w).1 k ≡ none
    pub delete_err :
        (k e : Text) (w : h.World) (x : Report)
        → (s.delete_if_match k e w).0 ≡ err x
        → (view (s.delete_if_match k e w).1 k ≡ view w k)
          ⊎ ((etag_of (view w k) ≡ some e) × (view (s.delete_if_match k e w).1 k ≡ none))
    pub delete_other :
        (k j e : Text) (w : h.World)
        → text_eq k j ≡ false
        → view (s.delete_if_match k e w).1 j ≡ view w j

  -- A mirror is another store: writing to it leaves the view alone.
  abbrev pub AreApart : List (SnapshotStore h) → Type 0
  AreApart [] = Unit
  AreApart (m ∷ mirrors) =
      ((k j : Text) (b : h.Bytes) (w : h.World) → view (m.put k b w).1 j ≡ view w j)
      × AreApart mirrors

  -- So do the clock and the random numbers that encryption draws.
  pub record IsUndisturbed : Type 0 where
    pub now_view : (j : Text) (w : h.World) → view (h.now w).1 j ≡ view w j
    pub encrypt_view :
        (r : h.Recipient) (d : h.Bytes) (j : Text) (w : h.World)
        → view (h.age_encrypt r d w).1 j ≡ view w j

  pub view-fanout :
      (mirrors : List (SnapshotStore h)) (k j : Text) (b : h.Bytes) (w : h.World)
      → AreApart mirrors
      → view (fanout h mirrors k b w) j ≡ view w j
  unfolding fanout
  view-fanout [] k j b w a = refl
  view-fanout (m ∷ mirrors) k j b w a = view-fanout mirrors k j b (m.put k b w).1 a.1 ∙ a.0 k j b w
