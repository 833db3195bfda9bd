-- ===== src/Stores/Git/Head.antt =====
-- src/stores/git_branch.rs and the etag that all keys share, the head of the remote branch.
use repossess.Prelude.{
  Text, Bool, true, false, Option, none, some, List, codes, ◌≡◌, ◌≢◌, sym, ap, ◌∙◌, not, is_empty,
  eq_of_text_eq, arith, if◌then◌else◌,
}
use repossess.Effect.{M, Report, Result, ok, err, ok_or, message, lift, total, bail, pure, ◌>>=◌}
use repossess.Effect.Rules.{bind_rule, ok_of_bind, ok_injective}
use repossess.Host.{Host}
use repossess.Stores.{PutResult, ObjectMeta}
use repossess.Stores.Git.{
  Git, fetch_and_reset, commit_and_push, precondition, put_if_unmodified, put, git_store,
}
use repossess.Commands.Save.Heads.{IsHeadEtag}

module _ (h : Host) (git : Git h) (local remote tracking : h.World → Option Text) where
  -- Neither the head of the clone nor the branch of the remote moves.
  abbrev pub IsStill : {A : Type 0} → M h.World A → Type 0
  IsStill m = (w : h.World) → (local (m w).1 ≡ local w) × (remote (m w).1 ≡ remote w)

  -- What git documents: making a clone, a fetch and a reset do not change the remote; a fetch that
  -- succeeds brings what the clone tracks to the branch of the remote; a reset that succeeds brings
  -- the head of the clone to what it tracks; and a push that succeeds brings the branch to the head.
  pub record IsGit : Type 0 where
    pub workdir_remote : (w : h.World) → remote (git.workdir w).1 ≡ remote w
    pub rev_parse_head : (d : git.Dir) → IsStill (git.rev_parse_head d)
    pub add_all : (d : git.Dir) → IsStill (git.add_all d)
    pub status : (d : git.Dir) → IsStill (git.status d)
    pub exists : (d : git.Dir) (k : Text) → IsStill (total (git.exists d k))
    pub write : (d : git.Dir) (k : Text) (b : h.Bytes) → IsStill (git.write d k b)
    pub fetch_remote : (d : git.Dir) (w : h.World) → remote (git.fetch d w).1 ≡ remote w
    pub fetch_true :
        (d : git.Dir) (w : h.World)
        → (git.fetch d w).0 ≡ ok true
        → tracking (git.fetch d w).1 ≡ remote w
    pub reset_remote : (d : git.Dir) (w : h.World) → remote (git.reset_hard d w).1 ≡ remote w
    pub reset_ok :
        (d : git.Dir) (w : h.World)
        → (git.reset_hard d w).0 ≡ ok tt
        → local (git.reset_hard d w).1 ≡ tracking w
    pub rev_parse_ok :
        (d : git.Dir) (w : h.World) (sha : Text)
        → (git.rev_parse_head d w).0 ≡ ok (some sha)
        → local w ≡ some sha
    pub push_true :
        (d : git.Dir) (lease : Option Text) (w : h.World)
        → (git.push d lease w).0 ≡ ok true
        → (remote (git.push d lease w).1 ≡ local w) × (local (git.push d lease w).1 ≡ local w)

  -- The remote can be reached and has the branch: no fetch exits with a failure.
  abbrev pub IsReachable : Type 0
  IsReachable = (d : git.Dir) (w : h.World) → (git.fetch d w).0 ≢ ok false

  module _ (law : IsGit) (reachable : IsReachable) where
    -- The clone is at the branch of the remote.
    Synced : h.World → Type 0
    Synced w = local w ≡ remote w

    Synced-still :
        {A : Type 0} (m : M h.World A) → IsStill m → (w : h.World) → Synced w → Synced (m w).1
    unfolding Synced
    Synced-still m still w same = (still w).0 ∙ same ∙ sym (still w).1

    remote_of_Synced :
        (w : h.World) (sha : Text) → Synced w → local w ≡ some sha → remote w ≡ some sha
    unfolding Synced
    remote_of_Synced w sha same at = sym same ∙ at

    module _ (w : h.World) where
      Fetched : Result Bool → h.World → Type 0
      Fetched r w' = (b : Bool) → r ≡ ok b → Synced w' × (remote w' ≡ remote w)

      fetch_failed : (e : Report) (w' : h.World) → Fetched (err e) w'
      unfolding Fetched
      fetch_failed e w' b bad = absurd (cc)

      fetch_done : (b : Bool) (w' : h.World) → Synced w' → remote w' ≡ remote w → Fetched (ok b) w'
      unfolding Fetched
      fetch_done b w' s same b' e = (s, same)

      after_fetch :
          (d : git.Dir) (b : Bool)
          → (git.fetch d w).0 ≡ ok b
          → Fetched
              ((if not b then pure false else (git.reset_hard d >>= λ _. pure true))
                (git.fetch d w).1).0
              ((if not b then pure false else (git.reset_hard d >>= λ _. pure true))
                (git.fetch d w).1).1
      unfolding Synced
      after_fetch d false e = absurd (reachable d w e)
      after_fetch d true e =
          bind_rule Fetched _ _ _ (λ x _. fetch_failed x _)
            λ _ done.
              let kept = law.reset_remote d (git.fetch d w).1 ∙ law.fetch_remote d w in
              fetch_done true _ (law.reset_ok d _ done ∙ law.fetch_true d w e ∙ sym kept) kept

      fetch_and_reset-Fetched :
          (d : git.Dir) → Fetched (fetch_and_reset h git d w).0 (fetch_and_reset h git d w).1
      unfolding fetch_and_reset
      fetch_and_reset-Fetched d =
          bind_rule Fetched _ _ w (λ x _. fetch_failed x _) λ b e. after_fetch d b e

    -- The commit that is returned is at the head of the remote.
    Pushed : Result Text → h.World → Type 0
    Pushed r w' = (sha : Text) → r ≡ ok sha → remote w' ≡ some sha

    push_failed : (e : Report) (w' : h.World) → Pushed (err e) w'
    unfolding Pushed
    push_failed e w' sha bad = absurd (cc)

    head_at :
        (d : git.Dir) (note : Report) (w : h.World)
        → ((sha : Text) → local w ≡ some sha → remote w ≡ some sha)
        → Pushed
            ((git.rev_parse_head d >>= λ sha. lift (ok_or sha note)) w).0
            ((git.rev_parse_head d >>= λ sha. lift (ok_or sha note)) w).1
    unfolding Pushed
    head_at d note w at =
        bind_rule Pushed _ _ w (λ x _. push_failed x _)
          λ o parsed sha e.
            (law.rev_parse_head d w).1
            ∙ at sha (law.rev_parse_ok d w sha (parsed ∙ ap ok (some_of_ok_or o sha e)))
      where
        some_of_ok_or : (o : Option Text) (sha : Text) → ok_or o note ≡ ok sha → o ≡ some sha
        some_of_ok_or none sha e = absurd (cc)
        some_of_ok_or (some t) sha e = ap some (ok_injective e)

    -- What `commit_and_push` does with the status of the push.
    abbrev on_push : git.Dir → Bool → M h.World Text
    on_push d pushed =
        if not pushed
        then bail (message (codes "git push failed (CAS or auth)"))
        else (git.rev_parse_head d >>= λ sha.
            lift (ok_or sha (message (codes "post-push HEAD missing"))))

    on_push-Pushed :
        (d : git.Dir) (lease : Option Text) (w : h.World) (b : Bool)
        → (git.push d lease w).0 ≡ ok b
        → Pushed (on_push d b (git.push d lease w).1).0 (on_push d b (git.push d lease w).1).1
    on_push-Pushed d lease w false e = push_failed _ _
    on_push-Pushed d lease w true e =
        let (at, kept) = law.push_true d lease w e in head_at d _ _ λ sha is. at ∙ sym kept ∙ is

    commit_and_push-Pushed :
        (d : git.Dir) (m : Text) (lease : Option Text) (w : h.World)
        → Synced w
        → Pushed (commit_and_push h git d m lease w).0 (commit_and_push h git d m lease w).1
    unfolding commit_and_push
    commit_and_push-Pushed d m lease w s =
        bind_rule Pushed _ _ w (λ x _. push_failed x _)
          λ _ _.
            bind_rule Pushed _ _ _ (λ x _. push_failed x _)
              λ st _. by_status (is_empty st) _ (
                Synced-still (git.status d) (law.status d) _
                  (Synced-still (git.add_all d) (law.add_all d) w s))
      where
        nothing : M h.World Text
        nothing = git.rev_parse_head d >>= λ sha.
            lift (ok_or sha (message (codes "no changes and no HEAD")))

        pushing : M h.World Text
        pushing = git.commit d m >>= λ _. git.push d lease >>= on_push d

        by_status :
            (b : Bool) (u : h.World)
            → Synced u
            → Pushed ((if b then nothing else pushing) u).0 ((if b then nothing else pushing) u).1
        by_status true u s' = head_at d _ u λ sha is. remote_of_Synced u sha s' is
        by_status false u s' =
            bind_rule Pushed _ _ u (λ x _. push_failed x _)
              λ _ _.
                bind_rule Pushed _ _ _ (λ x _. push_failed x _) λ b e. on_push-Pushed d lease _ b e

    -- From a write result to the etag.
    Put : Result PutResult → h.World → Type 0
    Put r w' = (p : PutResult) → r ≡ ok p → remote w' ≡ some p.etag

    after_failure : (e : Report) (w' : h.World) → Put (err e) w'
    unfolding Put
    after_failure e w' p bad = absurd (cc)

    abbrev result_of : Text → PutResult
    result_of sha = record { etag = sha }

    committed :
        (d : git.Dir) (m : Text) (lease : Option Text) (w : h.World)
        → Synced w
        → Put
            ((commit_and_push h git d m lease >>= λ sha. pure (result_of sha)) w).0
            ((commit_and_push h git d m lease >>= λ sha. pure (result_of sha)) w).1
    unfolding Put Pushed
    committed d m lease w s =
        bind_rule Put _ _ w (λ x _. after_failure x _)
          λ sha e p q.
            commit_and_push-Pushed d m lease w s sha e
            ∙ ap (λ (x : PutResult). some x.etag) (ok_injective q)

    put-Put : (k : Text) (b : h.Bytes) (w : h.World) → Put (put h git k b w).0 (put h git k b w).1
    unfolding put Fetched
    put-Put k b w =
        bind_rule Put _ _ w (λ x _. after_failure x _)
          λ d _.
            bind_rule Put _ _ _ (λ x _. after_failure x _)
              λ f fetched.
                bind_rule Put _ _ _ (λ x _. after_failure x _)
                  λ _ _.
                    bind_rule Put _ _ _ (λ x _. after_failure x _)
                      λ _ _.
                        bind_rule Put _ _ _ (λ x _. after_failure x _)
                          λ prev _. committed d _ prev _ (
                            Synced-still (git.rev_parse_head d) (law.rev_parse_head d) _ (
                              Synced-still (git.write d k b) (law.write d k b) _
                                (fetch_and_reset-Fetched _ d f fetched).0))

    local_of_precondition :
        (expected : Text) (current : Option Text) (present : Bool)
        → precondition h git (some expected) current present ≡ ok tt
        → current ≡ some expected
    unfolding precondition
    local_of_precondition expected none present e = absurd (cc)
    local_of_precondition expected (some cur) present e = ground (arith, eq_of_text_eq expected cur)

    cas-Head :
        (k : Text) (b : h.Bytes) (expected : Text) (w : h.World) (r : PutResult)
        → (put_if_unmodified h git k b (some expected) w).0 ≡ ok r
        → remote w ≡ some expected
    unfolding put_if_unmodified Fetched
    cas-Head k b expected w r e =
        let (d, _, e1) = ok_of_bind _ _ w e in
        let (f, fetched, e2) = ok_of_bind _ _ _ e1 in
        let (current, parsed, e3) = ok_of_bind _ _ _ e2 in
        let (_, _, e4) = ok_of_bind _ _ _ e3 in
        let (present, _, e5) = ok_of_bind _ _ _ e4 in
        let (_, met, _) = ok_of_bind _ _ _ e5 in
        let (synced, kept) = fetch_and_reset-Fetched _ d f fetched in
        let at = remote_of_Synced _ expected synced (
          law.rev_parse_ok d _ expected
            (parsed ∙ ap ok (local_of_precondition expected current present met))) in
        sym (law.workdir_remote w) ∙ sym kept ∙ at

    -- If the remote can be reached and has the branch, a write to the git store that returns gives the
    -- commit that is then the head of the remote branch, and a conditional write that returns has
    -- found the expected commit there: one etag for all keys.
    pub git-IsHeadEtag :
        (name : Text) (list : Text → M h.World (List ObjectMeta))
        → IsHeadEtag h remote (git_store h git name list)
    unfolding Put
    git-IsHeadEtag name list = record { put_ok = put-Put; cas_ok = cas-Head }
