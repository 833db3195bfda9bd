-- ===== src/Stores/Git/Lease.antt =====
-- The conditional write of the git store is a compare-and-swap on the head of the remote branch.
use repossess.Prelude.{
  Text, codes, ◌++◌, Bool, Option, none, some, ◌≡◌, ◌⊎◌, inl, inr, refl, subst, sym, ◌∙◌,
  eq_of_text_eq, arith,
}
use repossess.Effect.{M, Result, ok, lift, total, ◌>>=◌}
use repossess.Effect.Keeps.{
  Keeps, Keeps-pure, Keeps-bail, Keeps-lift, Keeps-if, Keeps-bind, Keeps-lift_bind,
}
use repossess.Host.{Host}
use repossess.Stores.Git.{
  Git, fetch_and_reset, commit_and_push, precondition, verb, put_if_unmodified,
}

module _ (h : Host) (git : Git h) (remote : h.World → Option Text) where
  -- Only a push moves the branch of the remote, and with a lease only from the leased commit.
  pub record IsRemote : Type 0 where
    pub workdir : (o : Option Text) → Keeps (λ w. remote w ≡ o) git.workdir
    pub fetch : (d : git.Dir) (o : Option Text) → Keeps (λ w. remote w ≡ o) (git.fetch d)
    pub reset_hard : (d : git.Dir) (o : Option Text) → Keeps (λ w. remote w ≡ o) (git.reset_hard d)
    pub rev_parse_head :
        (d : git.Dir) (o : Option Text) → Keeps (λ w. remote w ≡ o) (git.rev_parse_head d)
    pub add_all : (d : git.Dir) (o : Option Text) → Keeps (λ w. remote w ≡ o) (git.add_all d)
    pub status : (d : git.Dir) (o : Option Text) → Keeps (λ w. remote w ≡ o) (git.status d)
    pub commit :
        (d : git.Dir) (m : Text) (o : Option Text) → Keeps (λ w. remote w ≡ o) (git.commit d m)
    pub rm : (d : git.Dir) (k : Text) (o : Option Text) → Keeps (λ w. remote w ≡ o) (git.rm d k)
    pub exists :
        (d : git.Dir) (k : Text) (o : Option Text)
        → Keeps (λ w. remote w ≡ o) (total (git.exists d k))
    pub write :
        (d : git.Dir) (k : Text) (b : h.Bytes) (o : Option Text)
        → Keeps (λ w. remote w ≡ o) (git.write d k b)
    pub push :
        (d : git.Dir) (lease : Text) (w : h.World)
        → (remote (git.push d (some lease) w).1 ≡ remote w) ⊎ (remote w ≡ some lease)

  module _ (law : IsRemote) (o : Option Text) (etag : Text) where
    -- The branch is still where it was, or it was at `etag`.
    Q : h.World → Type 0
    Q w = (remote w ≡ o) ⊎ (o ≡ some etag)

    quiet : {A : Type 0} (m : M h.World A) → Keeps (λ w. remote w ≡ o) m → Keeps Q m
    unfolding Q
    quiet m k = record { at = λ w q. elim q [ inl e ↦ inl (k.at w e) | inr e ↦ inr e ] }

    push-Q : (d : git.Dir) → Keeps Q (git.push d (some etag))
    unfolding Q
    push-Q d = record {
      at = λ w q. elim q [
        | inl e ↦ elim (law.push d etag w) [ inl same ↦ inl (same ∙ e) | inr at ↦ inr (sym e ∙ at) ]
        | inr e ↦ inr e
      ];
    }

    fetch_and_reset-Q : (d : git.Dir) → Keeps Q (fetch_and_reset h git d)
    unfolding fetch_and_reset
    fetch_and_reset-Q d = Keeps-bind _ _ (quiet _ (law.fetch d o)) λ fetched.
        Keeps-if _ _ _ (Keeps-pure _)
          (Keeps-bind _ _ (quiet _ (law.reset_hard d o)) λ _. Keeps-pure _)

    head-Q :
        {A : Type 0} (d : git.Dir) (f : Option Text → Result A)
        → Keeps Q (git.rev_parse_head d >>= λ sha. lift (f sha))
    head-Q d f = Keeps-bind _ _ (quiet _ (law.rev_parse_head d o)) λ _. Keeps-lift _

    commit_and_push-Q : (d : git.Dir) (m : Text) → Keeps Q (commit_and_push h git d m (some etag))
    unfolding commit_and_push
    commit_and_push-Q d m = Keeps-bind _ _ (quiet _ (law.add_all d o)) λ _.
        Keeps-bind _ _ (quiet _ (law.status d o)) λ st. Keeps-if _ _ _ (head-Q d _) (
          Keeps-bind _ _ (quiet _ (law.commit d m o))
            λ _. Keeps-bind _ _ (push-Q d) λ pushed. Keeps-if _ _ _ (Keeps-bail _) (head-Q d _))

    -- A precondition that holds has found the expected commit at the local head.
    current_of_precondition :
        (current : Option Text) (present : Bool)
        → precondition h git (some etag) current present ≡ ok tt
        → current ≡ some etag
    unfolding precondition
    current_of_precondition none present e = absurd (cc)
    current_of_precondition (some cur) present e = ground (arith, eq_of_text_eq etag cur)

  -- However a conditional write on `etag` ends, the branch of the remote is where it was, or it was
  -- at the commit `etag`: a write never goes on top of a commit that its caller has not seen.
  pub put_if_unmodified-IsCas :
      (law : IsRemote) (key : Text) (body : h.Bytes) (etag : Text) (w : h.World)
      → (remote (put_if_unmodified h git key body (some etag) w).1 ≡ remote w)
        ⊎ (remote w ≡ some etag)
  unfolding put_if_unmodified Q
  put_if_unmodified-IsCas law key body etag w = whole.at w (inl refl)
    where
      msg : Text
      msg = codes "repossess: " ++ (verb h git (some etag) ++ (codes " " ++ key))

      whole : Keeps (Q law (remote w) etag) (put_if_unmodified h git key body (some etag))
      whole = Keeps-bind _ _ (quiet law _ etag _ (law.workdir _)) λ dir.
          Keeps-bind _ _ (fetch_and_reset-Q law _ etag dir) λ _.
            Keeps-bind _ _ (quiet law _ etag _ (law.rev_parse_head dir _)) λ current.
              Keeps-bind _ _ (Keeps-lift _) λ _.
                Keeps-bind _ _ (quiet law _ etag _ (law.exists dir key _)) λ present.
                  Keeps-lift_bind (precondition h git (some etag) current present) _ λ _ met.
                    Keeps-bind _ _ (quiet law _ etag _ (law.write dir key body _)) λ _.
                      Keeps-bind _ _
                        (subst
                          (λ c. Keeps (Q law (remote w) etag) (commit_and_push h git dir msg c))
                          (sym (current_of_precondition law (remote w) etag current present met))
                          (commit_and_push-Q law _ etag dir msg))
                        λ _. Keeps-pure _
