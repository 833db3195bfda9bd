-- ===== src/Stores/Git/Frame.antt =====
-- What every command of src/stores/git_branch.rs keeps, the operations of the store keep too.
use repossess.Prelude.{Text, Option}
use repossess.Effect.{total}
use repossess.Effect.Keeps.{Keeps, Keeps-pure, Keeps-bail, Keeps-if, Keeps-lift, Keeps-bind}
use repossess.Host.{Host}
use repossess.Stores.Git.{
  Git, fetch_and_reset, commit_and_push, put_if_unmodified, put, get, head, delete_if_match,
}

module _ (h : Host) (git : Git h) (P : h.World → Type 0) where
  pub record CommandsKeep : Type 0 where
    pub workdir : Keeps P git.workdir
    pub fetch : (d : git.Dir) → Keeps P (git.fetch d)
    pub reset_hard : (d : git.Dir) → Keeps P (git.reset_hard d)
    pub rev_parse_head : (d : git.Dir) → Keeps P (git.rev_parse_head d)
    pub add_all : (d : git.Dir) → Keeps P (git.add_all d)
    pub status : (d : git.Dir) → Keeps P (git.status d)
    pub commit : (d : git.Dir) (m : Text) → Keeps P (git.commit d m)
    pub push : (d : git.Dir) (lease : Option Text) → Keeps P (git.push d lease)
    pub rm : (d : git.Dir) (k : Text) → Keeps P (git.rm d k)
    pub exists : (d : git.Dir) (k : Text) → Keeps P (total (git.exists d k))
    pub read : (d : git.Dir) (k : Text) → Keeps P (git.read d k)
    pub write : (d : git.Dir) (k : Text) (b : h.Bytes) → Keeps P (git.write d k b)

  module _ (law : CommandsKeep) where
    pub fetch_and_reset-Keeps : (d : git.Dir) → Keeps P (fetch_and_reset h git d)
    unfolding fetch_and_reset
    fetch_and_reset-Keeps d = Keeps-bind _ _ (law.fetch d) λ fetched.
        Keeps-if _ _ _ (Keeps-pure _) (Keeps-bind _ _ (law.reset_hard d) λ _. Keeps-pure _)

    commit_and_push-Keeps :
        (d : git.Dir) (m : Text) (lease : Option Text) → Keeps P (commit_and_push h git d m lease)
    unfolding commit_and_push
    commit_and_push-Keeps d m lease = Keeps-bind _ _ (law.add_all d) λ _.
        Keeps-bind _ _ (law.status d) λ st.
          Keeps-if _ _ _ (Keeps-bind _ _ (law.rev_parse_head d) λ _. Keeps-lift _) (
            Keeps-bind _ _ (law.commit d m) λ _. Keeps-bind _ _ (law.push d lease) λ pushed.
              Keeps-if _ _ _ (Keeps-bail _)
                (Keeps-bind _ _ (law.rev_parse_head d) λ _. Keeps-lift _))

    pub put_if_unmodified-Keeps :
        (k : Text) (b : h.Bytes) (e : Option Text) → Keeps P (put_if_unmodified h git k b e)
    unfolding put_if_unmodified
    put_if_unmodified-Keeps k b e = Keeps-bind _ _ law.workdir λ d.
        Keeps-bind _ _ (fetch_and_reset-Keeps d) λ _.
          Keeps-bind _ _ (law.rev_parse_head d) λ current. Keeps-bind _ _ (Keeps-lift _) λ _.
            Keeps-bind _ _ (law.exists d k) λ present. Keeps-bind _ _ (Keeps-lift _) λ _.
              Keeps-bind _ _ (law.write d k b)
                λ _. Keeps-bind _ _ (commit_and_push-Keeps d _ current) λ _. Keeps-pure _

    pub put-Keeps : (k : Text) (b : h.Bytes) → Keeps P (put h git k b)
    unfolding put
    put-Keeps k b = Keeps-bind _ _ law.workdir λ d. Keeps-bind _ _ (fetch_and_reset-Keeps d) λ _.
        Keeps-bind _ _ (Keeps-lift _) λ _. Keeps-bind _ _ (law.write d k b) λ _.
          Keeps-bind _ _ (law.rev_parse_head d)
            λ prev. Keeps-bind _ _ (commit_and_push-Keeps d _ prev) λ _. Keeps-pure _

    pub get-Keeps : (k : Text) → Keeps P (get h git k)
    unfolding get
    get-Keeps k = Keeps-bind _ _ law.workdir λ d. Keeps-bind _ _ (fetch_and_reset-Keeps d) λ _.
        Keeps-bind _ _ (Keeps-lift _) λ _. Keeps-bind _ _ (law.read d k) λ _.
          Keeps-bind _ _ (law.rev_parse_head d) λ _. Keeps-bind _ _ (Keeps-lift _) λ _. Keeps-pure _

    pub head-Keeps : (k : Text) → Keeps P (head h git k)
    unfolding head
    head-Keeps k = Keeps-bind _ _ law.workdir λ d.
        Keeps-bind _ _ (fetch_and_reset-Keeps d) λ fetched. Keeps-if _ _ _ (Keeps-pure _) (
          Keeps-bind _ _ (Keeps-lift _) λ _.
            Keeps-bind _ _ (law.exists d k)
              λ present. Keeps-if _ _ _ (Keeps-pure _) (law.rev_parse_head d))

    pub delete_if_match-Keeps : (k e : Text) → Keeps P (delete_if_match h git k e)
    unfolding delete_if_match
    delete_if_match-Keeps k e = Keeps-bind _ _ law.workdir λ d.
        Keeps-bind _ _ (fetch_and_reset-Keeps d) λ _. Keeps-bind _ _ (law.rev_parse_head d) λ _.
          Keeps-bind _ _ (Keeps-lift _) λ current. Keeps-if _ _ _ (Keeps-bail _) (
            Keeps-bind _ _ (Keeps-lift _) λ _. Keeps-bind _ _ (law.exists d k) λ present.
              Keeps-if _ _ _ (Keeps-pure _) (
                Keeps-bind _ _ (law.rm d k)
                  λ _. Keeps-bind _ _ (commit_and_push-Keeps d _ _) λ _. Keeps-pure _))
