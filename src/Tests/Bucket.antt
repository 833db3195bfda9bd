-- ===== src/Tests/Bucket.antt =====
-- A concrete bucket in the memory, and the S3 store on it.
use repossess.Prelude.{
  Text, codes, false, Option, none, some, [], ◌≡◌, ◌⊎◌, inl, inr, refl, sym, ap, ◌∙◌, text_eq,
}
use repossess.Effect.{Report, Result, ok, err}
use repossess.Effect.Rules.{ok_injective}
use repossess.Stores.{PutResult}
use repossess.Stores.Contract.{Object, IsLawful, none_of_etag}
use repossess.Stores.S3
use repossess.Stores.S3.Refines.{IsS3, Written, prefixed, s3-IsLawful}
use repossess.Tests.Model.{Memory, host, view, memory_store, etag_at, found, object_of}
use repossess.Tests.Laws.{memory-IsLawful}

abbrev etag_result : Result PutResult → Result (Option Text)
etag_result (ok r) = ok (some r.etag)
etag_result (err e) = err e

abbrev put_object : Text → Text → Text → S3.Precondition → Memory → Result (Option Text) × Memory
put_object bucket k b S3.unconditional w =
    (etag_result (memory_store.put k b w).0, (memory_store.put k b w).1)
put_object bucket k b S3.if_none_match w = (
  etag_result (memory_store.put_if_unmodified k b none w).0,
  (memory_store.put_if_unmodified k b none w).1,
)
put_object bucket k b (S3.if_match e) w = (
  etag_result (memory_store.put_if_unmodified k b (some e) w).0,
  (memory_store.put_if_unmodified k b (some e) w).1,
)

abbrev got : Result (Text × Text) → Result (Option Text × Text)
got (ok p) = ok (some p.1, p.0)
got (err e) = err e

abbrev headed : Option Text → S3.HeadOutcome
headed none = S3.not_found
headed (some e) = S3.found (some e)

abbrev bucket : S3.S3Client host
bucket = record {
  Body = Text;
  put_object = put_object;
  get_object = λ bucket k w. (got (found (w.objects k)), w);
  collect = λ body w. (ok body, w);
  head_object = λ bucket k w. (headed (etag_at (w.objects k)), w);
  list_objects_v2 = λ bucket prefix w. (ok [], w);
  delete_object = λ bucket k e w. memory_store.delete_if_match k e w;
}

abbrev store : S3.S3Store
store = record {
  name = codes "r2";
  endpoint = [];
  region = [];
  bucket = codes "b";
  prefix = codes "state/";
}

ok_of_etag_result :
    (r : Result PutResult) (o : Option Text)
    → etag_result r ≡ ok o
    → (x : PutResult) × (r ≡ ok x) × (o ≡ some x.etag)
ok_of_etag_result (ok x) o e = (x, refl, sym (ok_injective e))
ok_of_etag_result (err y) o e = absurd (cc)

err_of_etag_result : (r : Result PutResult) (x : Report) → etag_result r ≡ err x → r ≡ err x
err_of_etag_result (ok y) x e = absurd (cc)
err_of_etag_result (err y) x e = cc

bucket-IsS3 : IsS3 host bucket store.bucket view
bucket-IsS3 = record {
  put_ok = put_ok;
  put_err = put_err;
  put_other = λ k j b c w ne. put_other k j b c w ne;
  get_ok = λ k w o stream e. got_ok (w.objects k) o stream e;
  get_view = λ k j w. refl;
  collect_view = λ stream j w. refl;
  head_found = λ k w o e. headed_found (w.objects k) o e;
  head_not_found = λ k w e. headed_none (w.objects k) e;
  head_view = λ k j w. refl;
  delete_ok = memory-IsLawful.delete_ok;
  delete_err = memory-IsLawful.delete_err;
  delete_other = λ k j e w ne. memory-IsLawful.delete_other k j e w ne;
}
  where
    put_ok :
        (k b : Text) (c : S3.Precondition) (w : Memory) (o : Option Text)
        → (put_object store.bucket k b c w).0 ≡ ok o
        → (e : Text) × (o ≡ some e)
          × Written host bucket store.bucket view k b c w (put_object store.bucket k b c w).1 e
    put_ok k b S3.unconditional w o e =
        let (x, is_ok, is_etag) = ok_of_etag_result _ o e in
        (x.etag, is_etag, (tt, memory-IsLawful.put_ok k b w x is_ok))
    put_ok k b S3.if_none_match w o e =
        let (x, is_ok, is_etag) = ok_of_etag_result _ o e in
        let (free, at) = memory-IsLawful.cas_ok k b none w x is_ok in
        (x.etag, is_etag, (none_of_etag _ free, at))
    put_ok k b (S3.if_match t) w o e =
        let (x, is_ok, is_etag) = ok_of_etag_result _ o e in
        let (same, at) = memory-IsLawful.cas_ok k b (some t) w x is_ok in
        (x.etag, is_etag, (same, at))

    put_err :
        (k b : Text) (c : S3.Precondition) (w : Memory) (x : Report)
        → (put_object store.bucket k b c w).0 ≡ err x
        → (view (put_object store.bucket k b c w).1 k ≡ view w k)
          ⊎ ((e : Text) × Written host bucket store.bucket view k b c w
                (put_object store.bucket k b c w).1
                e)
    put_err k b S3.unconditional w x e = absurd (cc)
    put_err k b S3.if_none_match w x e =
        elim (memory-IsLawful.cas_err k b none w x (err_of_etag_result _ x e)) [
          | inl same ↦ inl same
          | inr (t, free, at) ↦ inr (t, (none_of_etag _ free, at))
        ]
    put_err k b (S3.if_match t) w x e =
        elim (memory-IsLawful.cas_err k b (some t) w x (err_of_etag_result _ x e)) [
          | inl same ↦ inl same
          | inr (u, same, at) ↦ inr (u, (same, at))
        ]

    put_other :
        (k j b : Text) (c : S3.Precondition) (w : Memory)
        → text_eq k j ≡ false
        → view (put_object store.bucket k b c w).1 j ≡ view w j
    put_other k j b S3.unconditional w ne = memory-IsLawful.put_other k j b w ne
    put_other k j b S3.if_none_match w ne = memory-IsLawful.cas_other k j b none w ne
    put_other k j b (S3.if_match e) w ne = memory-IsLawful.cas_other k j b (some e) w ne

    got_ok :
        (x : Option (Text × Text)) (o : Option Text) (stream : Text)
        → got (found x) ≡ ok (o, stream)
        → (y : Object host) × (object_of x ≡ some y)
          × (o ≡ some y.etag)
          × ((u : Memory) (b : Text) → ok stream ≡ ok b → b ≡ y.body)
    got_ok none o stream e = absurd (cc)
    got_ok (some p) o stream e =
        let q = ok_injective e in
        (
          record { body = p.0; etag = p.1 },
          refl,
          sym (ap (λ (z : Option Text × Text). z.0) q),
          λ u b r. sym (ok_injective r) ∙ sym (ap (λ (z : Option Text × Text). z.1) q),
        )

    found_injective : {a b : Option Text} → S3.found a ≡ S3.found b → b ≡ a
    found_injective e = cc

    headed_found :
        (x : Option (Text × Text)) (o : Option Text)
        → headed (etag_at x) ≡ S3.found o
        → (y : Object host) × (object_of x ≡ some y) × (o ≡ some y.etag)
    headed_found none o e = absurd (cc)
    headed_found (some p) o e = (record { body = p.0; etag = p.1 }, refl, found_injective e)

    headed_none :
        (x : Option (Text × Text)) → headed (etag_at x) ≡ S3.not_found → object_of x ≡ none
    headed_none none e = refl
    headed_none (some p) e = absurd (cc)

s3-IsLawful_example :
    IsLawful host (prefixed host bucket store view bucket-IsS3) (S3.s3_store host bucket store)
s3-IsLawful_example = s3-IsLawful host bucket store view bucket-IsS3
