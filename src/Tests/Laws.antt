-- ===== src/Tests/Laws.antt =====
-- The concrete host and store obey the laws.
use repossess.Prelude.{
  ℕ, Text, Bool, true, false, Option, none, some, [], ◌∷◌, ◌++◌, ◌≡◌, refl, inl, ap, sym, subst,
  ◌∙◌, text_eq, text_eq_refl, eq_of_text_eq, if◌then◌else◌, arith, trim, trim_start, trim_end,
  is_whitespace, is_empty,
}
use repossess.Effect.{Report, Result, ok, err}
use repossess.Effect.Rules.{ok_injective}
use repossess.Stores.{PutResult}
use repossess.Host.Laws.{IsCodec, Decrypts, Verifies}
use repossess.Stores.Contract.{IsLawful, IsUndisturbed, etag_of}
use repossess.Secrets.Taken.{RemovesVars}
use repossess.Tests.Codec
use repossess.Tests.Model.{
  Memory, host, view, init, quote, sign, memory_store, put_at, written, object_of, etag_at,
  same_etag, found, refused,
}

init-append : (b : Text) → init (b ++ b'x' ∷ []) ≡ b
init-append [] = refl
init-append (c ∷ []) = refl
init-append (c ∷ d ∷ b) = ap (λ t. c ∷ t) (init-append (d ∷ b))

not_empty : (b : Text) → is_empty (b ++ b'x' ∷ []) ≡ false
not_empty [] = refl
not_empty (c ∷ b) = refl

trim_end-append : (b : Text) → trim_end (b ++ b'x' ∷ []) ≡ b ++ b'x' ∷ []
unfolding trim_end is_whitespace
trim_end-append [] = refl
trim_end-append (c ∷ b) = ground (arith, trim_end-append b, not_empty b)

trim-quote : (b : Text) → trim (quote b) ≡ quote b
unfolding trim trim_start trim_end is_whitespace
trim-quote b = ap (λ t. b'x' ∷ t) (trim_end-append b)

pub host-IsCodec : IsCodec host
host-IsCodec = record {
  zstd = λ level d c e. ground arith;
  state = Codec.serde-IsRoundTrip Codec.state;
  pointer = Codec.serde-IsRoundTrip Codec.pointer;
  hex = λ b. ap ok (init-append b);
  hex_trim = trim-quote;
  utf8 = λ t. refl;
}

pub host-Decrypts : (i : ℕ) → Decrypts host i i
host-Decrypts i = record { decrypts = λ d c w e. ground arith }

pub host-Verifies : (k : ℕ) → Verifies host k k
host-Verifies k = record { verifies = λ d. text_eq_refl (sign k d); len_sig = λ d. refl }

pub host-IsUndisturbed : IsUndisturbed host view
host-IsUndisturbed = record { now_view = λ j w. refl; encrypt_view = λ r d j w. refl }

pub host-RemovesVars : RemovesVars host
host-RemovesVars = record { var_remove = λ k j w. refl }

etag_of-object_of : (o : Option (Text × Text)) → etag_of (object_of o) ≡ etag_at o
etag_of-object_of none = refl
etag_of-object_of (some p) = refl

object_of-found :
    (o : Option (Text × Text)) (b e : Text)
    → found o ≡ ok (b, e)
    → object_of o ≡ some (record { body = b; etag = e })
object_of-found none b e g = cc
object_of-found (some p) b e g =
    ap (λ (q : Text × Text). some (record { body = q.0; etag = q.1 })) (ok_injective g)

pub eq_of_same_etag : (a b : Option Text) → same_etag a b ≡ true → a ≡ b
eq_of_same_etag none none h = refl
eq_of_same_etag none (some e) h = cc
eq_of_same_etag (some d) none h = cc
eq_of_same_etag (some d) (some e) h = ap some (eq_of_text_eq d e h)

-- What is at a key after a write, and at another key.
view-put_at :
    (k : Text) (o : Option (Text × Text)) (w : Memory) → view (put_at k o w) k ≡ object_of o
view-put_at k o w = rw (text_eq_refl k) refl

view-put_at_other :
    (k j : Text) (o : Option (Text × Text)) (w : Memory)
    → text_eq k j ≡ false
    → view (put_at k o w) j ≡ view w j
view-put_at_other k j o w ne = rw ne refl

view-written :
    (k b : Text) (w : Memory) (r : PutResult)
    → (written k b w).0 ≡ ok r
    → view (written k b w).1 k ≡ some (record { body = b; etag = r.etag })
view-written k b w r g =
    view-put_at k (some (b, w.next_etag ∷ [])) w
    ∙ ap (λ (x : PutResult). some (record { body = b; etag = x.etag })) (ok_injective g)

matched :
    (k : Text) (e : Option Text) (w : Memory)
    → same_etag (etag_at (w.objects k)) e ≡ true
    → etag_of (view w k) ≡ e
matched k e w y = etag_of-object_of (w.objects k) ∙ eq_of_same_etag _ _ y

-- Which branch a guarded call took.
module _ {A : Type 0} where
  was_true :
      (c : Bool) (m n : Result A × Memory) (x : A) (e : Report)
      → n.0 ≡ err e
      → (if c then m else n).0 ≡ ok x
      → c ≡ true
  was_true true m n x e bad g = refl
  was_true false m n x e bad g = absurd (cc)

  was_false :
      (c : Bool) (m n : Result A × Memory) (x : A) (e : Report)
      → m.0 ≡ ok x
      → (if c then m else n).0 ≡ err e
      → c ≡ false
  was_false true m n x e good g = absurd (cc)
  was_false false m n x e good g = refl

  either_way :
      (w : Memory) (j : Text) (c : Bool) (m n : Result A × Memory)
      → view m.1 j ≡ view w j
      → view n.1 j ≡ view w j
      → view (if c then m else n).1 j ≡ view w j
  either_way w j true m n em en = em
  either_way w j false m n em en = en

pub memory-IsLawful : IsLawful host view memory_store
memory-IsLawful = record {
  get_ok = λ k w b e g. object_of-found (w.objects k) b e g;
  get_view = λ k j w. refl;
  head_ok = λ k w o g. sym (ok_injective g) ∙ sym (etag_of-object_of (w.objects k));
  head_view = λ k j w. refl;
  put_ok = view-written;
  put_err = λ k b w x g. cc;
  put_other = λ k j b w ne. view-put_at_other k j _ w ne;
  cas_ok = λ k b e w r g.
      let y =
        was_true (same_etag (etag_at (w.objects k)) e) (written k b w) (refused, w) r _ refl g in
      (
        matched k e w y,
        rw y (
            view-written k b w r
              (subst (λ c. (if c then written k b w else (refused, w)).0 ≡ ok r) y g)),
      );
  cas_err = λ k b e w x g.
      let n =
        was_false (same_etag (etag_at (w.objects k)) e) (written k b w) (refused, w) _ x refl g in
      inl (rw n refl);
  cas_other = λ k j b e w ne.
      either_way w j (same_etag (etag_at (w.objects k)) e) (written k b w) (refused, w)
        (view-put_at_other k j _ w ne) refl;
  delete_ok = λ k e w g.
      let y =
        was_true (same_etag (etag_at (w.objects k)) (some e)) (ok tt, put_at k none w) (refused, w)
          tt _ refl g in
      rw y (view-put_at k none w);
  delete_err = λ k e w x g.
      let n =
        was_false (same_etag (etag_at (w.objects k)) (some e)) (ok tt, put_at k none w) (refused, w)
          _ x refl g in
      inl (rw n refl);
  delete_other = λ k j e w ne.
      either_way w j (same_etag (etag_at (w.objects k)) (some e)) (ok tt, put_at k none w)
        (refused, w) (view-put_at_other k j none w ne) refl;
}
