-- ===== src/Canary.antt =====
-- `check` of src/browser/canary.rs: is the session still logged in, as the expected user?
use repossess.Prelude.{
  ℕ, Text, [], ap, sym, ◌∙◌, ◌⊎◌, inl, inr, refl, Bool, true, false, Option, none, some, codes, ◌≡◌,
  ◌==◌, text_eq, eq_of_text_eq, ==_iff, if◌then◌else◌, not,
}
use repossess.Effect.{M, Result, ok, err, in_context, with_context, lift, pure, ◌>>=◌}
use repossess.Effect.Rules.{ok_of_bind, ok_of_context, ok_injective}
use repossess.Host.{Host}
use repossess.Web.{Web, Kind, Response}

pub record CanaryResult : Type 0 where
  pub ok : Bool
  pub status : ℕ
  pub observed : Option Text

module _ (h : Host) (web : Web h) where
  -- `Response::json`
  abbrev pub json_of : Result Text → Result web.Value
  json_of (ok text) = web.parse_json text
  json_of (err e) = err e

  -- `.and_then(|v| v.as_str())`
  abbrev pub str_of : Option web.Value → Option Text
  str_of none = none
  str_of (some v) = elim (web.kind v) [ Kind.string s ↦ some s | _ ↦ none ]

  -- observed.as_deref() == Some(expected_value)
  abbrev pub is_expected : Option Text → Text → Bool
  is_expected none expected = false
  is_expected (some t) expected = text_eq t expected

  unfoldable pub check : web.Client → Text → ℕ → Text → Text → M h.World CanaryResult
  check client url expected_status field_pointer expected_value = do
    res ← with_context (codes "canary GET") (web.send client url [])
    if not (res.status == expected_status)
        then pure (record { ok = false; status = res.status; observed = none })
        else (do
          body ← lift (in_context (codes "canary JSON parse") (json_of res.body))
          let observed = str_of (web.pointer body field_pointer)
          pure (record {
            ok = is_expected observed expected_value;
            status = res.status;
            observed = observed;
          }))

  eq_of_is_expected : (o : Option Text) (t : Text) → is_expected o t ≡ true → o ≡ some t
  eq_of_is_expected none t e = cc
  eq_of_is_expected (some x) t e = ap some (eq_of_text_eq x t e)

  which_branch :
      (b : Bool) (m n : M h.World CanaryResult) (w : h.World) (r : CanaryResult)
      → ((if not b then m else n) w).0 ≡ ok r
      → ((b ≡ true) × ((n w).0 ≡ ok r)) ⊎ ((m w).0 ≡ ok r)
  which_branch true m n w r e = inl (refl, e)
  which_branch false m n w r e = inr e

  -- What the server has to answer for the canary to pass, and what is reported then.
  pub record IsPassed (client : web.Client) (url : Text) (status : ℕ) (field value : Text)
      (w : h.World) (r : CanaryResult) : Type 0 where
    pub res : Response
    pub raw : Text
    pub body : web.Value
    pub user : web.Value
    pub answered : (web.send client url [] w).0 ≡ ok res
    pub has_status : res.status ≡ status
    pub has_body : res.body ≡ ok raw
    pub is_json : web.parse_json raw ≡ ok body
    pub has_field : web.pointer body field ≡ some user
    pub is_value : web.kind user ≡ Kind.string value
    pub reported : r ≡ record { ok = true; status = res.status; observed = some value }

  string_of_str :
      (o : Option web.Value) (t : Text)
      → str_of o ≡ some t
      → (v : web.Value) × (o ≡ some v) × (web.kind v ≡ Kind.string t)
  string_of_str none t e = absurd (cc)
  string_of_str (some v) t e = (v, refl, of_kind (web.kind v) e)
    where
      of_kind :
          (k : Kind)
          → elim k as (λ _. Option Text) [ Kind.string s ↦ some s | _ ↦ none ] ≡ some t
          → k ≡ Kind.string t
      of_kind (Kind.string s) q = cc
      of_kind Kind.object q = absurd (cc)
      of_kind (Kind.other s) q = absurd (cc)

  raw_of_json :
      (b : Result Text) (v : web.Value)
      → json_of b ≡ ok v
      → (raw : Text) × (b ≡ ok raw) × (web.parse_json raw ≡ ok v)
  raw_of_json (ok raw) v e = (raw, refl, e)
  raw_of_json (err x) v e = absurd (cc)

  -- A response with the expected status, whose field was found to be as expected.
  response_passes :
      (client : web.Client) (url : Text) (status : ℕ) (field value : Text) (w : h.World)
      (r : CanaryResult) (res : Response) (body : web.Value)
      → (web.send client url [] w).0 ≡ ok res
      → res.status ≡ status
      → json_of res.body ≡ ok body
      → r ≡ record {
        ok = is_expected (str_of (web.pointer body field)) value;
        status = res.status;
        observed = str_of (web.pointer body field);
      }
      → r.ok ≡ true
      → IsPassed client url status field value w r
  response_passes client url status field value w r res body sent same parsed e good =
      let passed = sym (ap (λ (x : CanaryResult). x.ok) e) ∙ good in
      let observed = eq_of_is_expected (str_of (web.pointer body field)) value passed in
      let (user, has_field, is_value) = string_of_str (web.pointer body field) value observed in
      let (raw, has_body, is_json) = raw_of_json res.body body parsed in
      record {
        res = res;
        raw = raw;
        body = body;
        user = user;
        answered = sent;
        has_status = same;
        has_body = has_body;
        is_json = is_json;
        has_field = has_field;
        is_value = is_value;
        reported = cc (e, passed, observed);
      }

  -- The canary passes only if the request was answered with the expected status and a JSON body whose
  -- field holds, as a string, the expected value; and then it reports that status and that value.
  pub check-IsStrict :
      (client : web.Client) (url : Text) (status : ℕ) (field value : Text) (w : h.World)
      (r : CanaryResult)
      → (check client url status field value w).0 ≡ ok r
      → r.ok ≡ true
      → IsPassed client url status field value w r
  unfolding check
  check-IsStrict client url status field value w r e good =
      let (res, sent, e1) = ok_of_bind _ _ w e in
      elim (which_branch (res.status == status) _ _ _ r e1) [
        | inl (same, e2) ↦
            let (body, parsed, e3) = ok_of_bind _ _ _ e2 in
            response_passes client url status field value w r res body (ok_of_context _ _ sent)
              ((==_iff res.status status).0 same) (ok_of_context _ _ parsed) (sym (ok_injective e3))
              good
        | inr e2 ↦
            let failed = ap (λ (x : CanaryResult). x.ok) (ok_injective e2) ∙ good in absurd (cc)
      ]
