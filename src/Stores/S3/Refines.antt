-- ===== src/Stores/S3/Refines.antt =====
-- src/stores/s3.rs and the contract of a store with an etag per object, on a bucket that honours
-- preconditions.
use repossess.Prelude.{
  Text, false, Option, none, some, ◌++◌, ◌≡◌, ◌⊎◌, inl, inr, refl, subst, sym, ap, ◌∙◌, text_eq,
  text_eq-append,
}
use repossess.Effect.{M, Report, Result, ok, err, with_context, pure, ◌>>=◌}
use repossess.Effect.Rules.{
  ok_of_bind, ok_of_context, err_of_context, ok_of_map, err_of_map, bind_pure, ok_injective,
}
use repossess.Effect.Keeps.{Keeps, Keeps-bind, Keeps-context, Keeps-pure}
use repossess.Host.{Host}
use repossess.Stores.{PutResult}
use repossess.Stores.Contract.{Object, View, etag_of, IsLawful}
use repossess.Stores.S3

module _ (h : Host) (client : S3.S3Client h) (bucket : Text) (view : View h) where
  -- The stored object lets a write with this precondition through.
  abbrev pub Allows : S3.Precondition → Option (Object h) → Type 0
  Allows S3.unconditional o = Unit
  Allows S3.if_none_match o = o ≡ none
  Allows (S3.if_match e) o = etag_of o ≡ some e

  -- A PutObject wrote `b` over an object that let it.
  abbrev pub Written : Text → h.Bytes → S3.Precondition → h.World → h.World → Text → Type 0
  Written k b c w w' e = Allows c (view w k) × (view w' k ≡ some (record { body = b; etag = e }))

  -- What S3 documents of its operations: writes are atomic and honour their precondition, reads give
  -- the stored object, and every answer carries the etag. A call that fails may have taken effect.
  pub record IsS3 : Type 0 where
    pub put_ok :
        (k : Text) (b : h.Bytes) (c : S3.Precondition) (w : h.World) (o : Option Text)
        → (client.put_object bucket k b c w).0 ≡ ok o
        → (e : Text) × (o ≡ some e) × Written k b c w (client.put_object bucket k b c w).1 e
    pub put_err :
        (k : Text) (b : h.Bytes) (c : S3.Precondition) (w : h.World) (x : Report)
        → (client.put_object bucket k b c w).0 ≡ err x
        → (view (client.put_object bucket k b c w).1 k ≡ view w k)
          ⊎ ((e : Text) × Written k b c w (client.put_object bucket k b c w).1 e)
    pub put_other :
        (k j : Text) (b : h.Bytes) (c : S3.Precondition) (w : h.World)
        → text_eq k j ≡ false
        → view (client.put_object bucket k b c w).1 j ≡ view w j
    pub get_ok :
        (k : Text) (w : h.World) (o : Option Text) (stream : client.Body)
        → (client.get_object bucket k w).0 ≡ ok (o, stream)
        → (x : Object h) × (view w k ≡ some x)
          × (o ≡ some x.etag)
          × ((u : h.World) (b : h.Bytes) → (client.collect stream u).0 ≡ ok b → b ≡ x.body)
    pub get_view : (k j : Text) (w : h.World) → view (client.get_object bucket k w).1 j ≡ view w j
    pub collect_view :
        (stream : client.Body) (j : Text) (w : h.World)
        → view (client.collect stream w).1 j ≡ view w j
    pub head_found :
        (k : Text) (w : h.World) (o : Option Text)
        → (client.head_object bucket k w).0 ≡ S3.found o
        → (x : Object h) × (view w k ≡ some x) × (o ≡ some x.etag)
    pub head_not_found :
        (k : Text) (w : h.World)
        → (client.head_object bucket k w).0 ≡ S3.not_found
        → view w k ≡ none
    pub head_view : (k j : Text) (w : h.World) → view (client.head_object bucket k w).1 j ≡ view w j
    pub delete_ok :
        (k e : Text) (w : h.World)
        → (client.delete_object bucket k e w).0 ≡ ok tt
        → view (client.delete_object bucket k e w).1 k ≡ none
    pub delete_err :
        (k e : Text) (w : h.World) (x : Report)
        → (client.delete_object bucket k e w).0 ≡ err x
        → (view (client.delete_object bucket k e w).1 k ≡ view w k)
          ⊎ ((etag_of (view w k) ≡ some e) × (view (client.delete_object bucket k e w).1 k ≡ none))
    pub delete_other :
        (k j e : Text) (w : h.World)
        → text_eq k j ≡ false
        → view (client.delete_object bucket k e w).1 j ≡ view w j

module _ (h : Host) (client : S3.S3Client h) (s : S3.S3Store) (view : View h)
    (law : IsS3 h client s.bucket view) where
  -- What the store holds under a key is what the bucket holds under the prefix and the key.
  abbrev pub prefixed : View h
  prefixed w k = view w (s.prefix ++ k)

  abbrev put_with : Text → Text → h.Bytes → S3.Precondition → M h.World PutResult
  put_with note key body c =
      with_context note (client.put_object s.bucket (s.prefix ++ key) body c) >>= λ e_tag.
      pure (record { etag = S3.or_empty e_tag })

  -- What a PutObject did, in terms of the whole call.
  Wrote : Text → h.Bytes → S3.Precondition → h.World → Result PutResult × h.World → Type 0
  Wrote k b c w p = (r : PutResult) → p.0 ≡ ok r → Written h client s.bucket view k b c w p.1 r.etag

  Failed : Text → h.Bytes → S3.Precondition → h.World → Result PutResult × h.World → Type 0
  Failed k b c w p =
      (x : Report)
      → p.0 ≡ err x
      → (view p.1 k ≡ view w k) ⊎ ((e : Text) × Written h client s.bucket view k b c w p.1 e)

  made : Option Text → PutResult
  made e_tag = record { etag = S3.or_empty e_tag }

  put_with-Wrote :
      (note key : Text) (b : h.Bytes) (c : S3.Precondition) (w : h.World)
      → Wrote (s.prefix ++ key) b c w (put_with note key b c w)
  unfolding Wrote made
  put_with-Wrote note key b c w =
      subst (Wrote (s.prefix ++ key) b c w) (sym (bind_pure made _ w)) λ r e.
        let (o, e1, is_made) = ok_of_map made _ e in
        let (t, is_some, wrote) = law.put_ok _ b c w o (ok_of_context _ _ e1) in
        subst (Written h client s.bucket view (s.prefix ++ key) b c w _)
          (sym (ap S3.or_empty is_some) ∙ ap (λ (r : PutResult). r.etag) is_made) wrote

  put_with-Failed :
      (note key : Text) (b : h.Bytes) (c : S3.Precondition) (w : h.World)
      → Failed (s.prefix ++ key) b c w (put_with note key b c w)
  unfolding Failed made
  put_with-Failed note key b c w =
      subst (Failed (s.prefix ++ key) b c w) (sym (bind_pure made _ w))
        λ x e. let (y, e1) = err_of_context _ _ (err_of_map made _ e) in law.put_err _ b c w y e1

  -- Another key of the store is another key of the bucket.
  apart_under : (k j : Text) → text_eq k j ≡ false → text_eq (s.prefix ++ k) (s.prefix ++ j) ≡ false
  apart_under k j ne = text_eq-append s.prefix k j ∙ ne

  put_with-other :
      (note k j : Text) (b : h.Bytes) (c : S3.Precondition) (w : h.World)
      → text_eq k j ≡ false
      → prefixed (put_with note k b c w).1 j ≡ prefixed w j
  put_with-other note k j b c w ne =
      ap (λ (p : Result PutResult × h.World). prefixed p.1 j)
        (bind_pure
          (λ (e_tag : Option Text). let r : PutResult = record { etag = S3.or_empty e_tag } in r) _
          w)
      ∙ law.put_other _ _ b c w (apart_under k j ne)

  object_path :
      (x : Object h) (b : h.Bytes) (e : Text)
      → x.body ≡ b
      → x.etag ≡ e
      → some x ≡ some (record { body = b; etag = e })
  object_path x b e p q =
      ap (λ t. some (record { body = t; etag = x.etag })) p
      ∙ ap (λ t. some (record { body = b; etag = t })) q

  get_ok :
      (k : Text) (w : h.World) (b : h.Bytes) (e : Text)
      → (S3.get h client s k w).0 ≡ ok (b, e)
      → prefixed w k ≡ some (record { body = b; etag = e })
  unfolding S3.get S3.full_key
  get_ok k w b e g =
      let ((o, stream), g1, e1) = ok_of_bind _ _ w g in
      let (body, g2, e2) = ok_of_bind _ _ _ e1 in
      let (x, at, is_etag, is_body) = law.get_ok _ w o stream (ok_of_context _ _ g1) in
      let q = ok_injective e2 in
      at
      ∙ object_path x b e (sym (is_body _ body g2) ∙ ap (λ (p : h.Bytes × Text). p.0) q)
          (sym (ap S3.or_empty is_etag) ∙ ap (λ (p : h.Bytes × Text). p.1) q)

  get_view : (k j : Text) (w : h.World) → prefixed (S3.get h client s k w).1 j ≡ prefixed w j
  unfolding S3.get S3.full_key
  get_view k j w = whole.at w refl
    where
      whole : Keeps (λ u. prefixed u j ≡ prefixed w j) (S3.get h client s k)
      whole =
          Keeps-bind _ _ (Keeps-context _ _ (record { at = λ u e. law.get_view _ _ u ∙ e })) λ p.
            Keeps-bind _ _ (record { at = λ u e. law.collect_view _ _ u ∙ e }) λ _. Keeps-pure _

  on_head_ok :
      (k : Text) (w : h.World) (r : S3.HeadOutcome) (o : Option Text)
      → (client.head_object s.bucket (s.prefix ++ k) w).0 ≡ r
      → S3.on_head h client s r ≡ ok o
      → o ≡ etag_of (prefixed w k)
  on_head_ok k w (S3.found e_tag) o is e =
      let (x, at, is_etag) = law.head_found _ w e_tag is in
      sym (ok_injective e) ∙ ap (λ t. some (S3.or_empty t)) is_etag ∙ sym (ap etag_of at)
  on_head_ok k w S3.not_found o is e =
      sym (ok_injective e) ∙ sym (ap etag_of (law.head_not_found _ w is))
  on_head_ok k w (S3.failed x) o is e = absurd (cc)

  allowed :
      (k : Text) (w : h.World) (expected : Option Text)
      → Allows h client s.bucket view (S3.precondition_of h client s expected) (prefixed w k)
      → etag_of (prefixed w k) ≡ expected
  allowed k w none a = ap etag_of a
  allowed k w (some e) a = a

  -- On a bucket that honours preconditions, the S3 store is lawful: what it holds are the objects
  -- under its prefix, and each of its operations does what the contract of a store says.
  pub s3-IsLawful : IsLawful h prefixed (S3.s3_store h client s)
  unfolding Wrote Failed S3.put S3.put_if_unmodified S3.head S3.delete_if_match S3.full_key
  s3-IsLawful = record {
    get_ok = get_ok;
    get_view = get_view;
    head_ok = λ k w o e. on_head_ok k w _ o refl e;
    head_view = λ k j w. law.head_view _ _ w;
    put_ok = λ k b w r e. (put_with-Wrote _ k b S3.unconditional w r e).1;
    put_err = λ k b w x e. elim (put_with-Failed _ k b S3.unconditional w x e) [
      | inl same ↦ inl same
      | inr (t, wrote) ↦ inr (t, wrote.1)
    ];
    put_other = λ k j b w ne. put_with-other _ k j b S3.unconditional w ne;
    cas_ok = λ k b expected w r e.
        let (allows, at) = put_with-Wrote _ k b (S3.precondition_of h client s expected) w r e in
        (allowed k w expected allows, at);
    cas_err = λ k b expected w x e.
        elim (put_with-Failed _ k b (S3.precondition_of h client s expected) w x e) [
          | inl same ↦ inl same
          | inr (t, wrote) ↦ inr (t, allowed k w expected wrote.0, wrote.1)
        ];
    cas_other =
        λ k j b expected w ne. put_with-other _ k j b (S3.precondition_of h client s expected) w ne;
    delete_ok = λ k e w q. law.delete_ok _ e w (ok_of_context _ _ q);
    delete_err = λ k e w x q. let (y, q') = err_of_context _ _ q in law.delete_err _ e w y q';
    delete_other = λ k j e w ne. law.delete_other _ _ e w (apart_under k j ne);
  }
