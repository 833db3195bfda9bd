-- ===== src/Chatgpt/Markdown/Walk.antt =====
-- When the walk of src/workload/chatgpt.rs along the parents ends, and which messages it renders.
use repossess.Prelude.{
  ℕ, zero, suc, ◌<◌, Text, Option, none, some, List, [], ◌∷◌, ◌++◌, ◌≡◌, refl, ap, ◌∙◌, reverse,
  arith,
}
use repossess.Host.{Host}
use repossess.Web.{Web}
use repossess.Chatgpt.{MappingNode, ConversationDetail, Formats}
use repossess.Chatgpt.Markdown.{
  node_at, above, at_parent, at_node, climb, walk_to_current, heading, blocks, blocks_of, reversed,
  body_of, under, to_markdown,
}

module _ {F Value : Type 0} (mapping : List (Text × MappingNode F Value)) where
  -- The nodes from one up to a root, or to a parent that is missing.
  pub data Chain : Text → List (MappingNode F Value) → Type 0 where
    missing : {id : Text} → node_at mapping id ≡ none → Chain id []
    root :
        {id : Text} (node : MappingNode F Value)
        → node_at mapping id ≡ some node
        → node.parent ≡ none
        → Chain id (node ∷ [])
    up :
        {id p : Text} (node : MappingNode F Value) {path : List (MappingNode F Value)}
        → node_at mapping id ≡ some node
        → node.parent ≡ some p
        → Chain p path
        → Chain id (node ∷ path)

  -- Every parent is smaller than its child, so there is no cycle.
  abbrev pub IsRankedBy : (Text → ℕ) → Type 0
  IsRankedBy rank =
      (id p : Text) (node : MappingNode F Value)
      → node_at mapping id ≡ some node
      → node.parent ≡ some p
      → rank p < rank id

  -- A set of ids in which every node has its parent in the set too.
  abbrev pub IsEndless : (Text → Type 0) → Type 0
  IsEndless S =
      (id : Text)
      → S id
      → (node : MappingNode F Value) × (p : Text) × (node_at mapping id ≡ some node)
        × (node.parent ≡ some p)
        × S p

  Climbed : Option (List (MappingNode F Value)) → Text → Type 0
  Climbed r id = (path : List (MappingNode F Value)) × (r ≡ some path) × Chain id path

  at_parent-Climbed :
      (go_on : Text → Option (List (MappingNode F Value))) (id : Text) (node : MappingNode F Value)
      (parent : Option Text)
      → node_at mapping id ≡ some node
      → node.parent ≡ parent
      → ((p : Text) → parent ≡ some p → Climbed (go_on p) p)
      → Climbed (at_parent go_on node parent) id
  unfolding Climbed
  at_parent-Climbed go_on id node none here top rest = (node ∷ [], refl, root node here top)
  at_parent-Climbed go_on id node (some p) here child rest =
      let (path, done, chain) = rest p refl in
      (node ∷ path, ap (above node) done, up node here child chain)

  at_node-Climbed :
      (go_on : Text → Option (List (MappingNode F Value))) (id : Text)
      (found : Option (MappingNode F Value))
      → node_at mapping id ≡ found
      → ((node : MappingNode F Value) (p : Text)
          → found ≡ some node
          → node.parent ≡ some p
          → Climbed (go_on p) p)
      → Climbed (at_node go_on found) id
  unfolding Climbed
  at_node-Climbed go_on id none gone rest = ([], refl, missing gone)
  at_node-Climbed go_on id (some node) here rest =
      at_parent-Climbed go_on id node node.parent here refl (λ p e. rest node p refl e)

  climb-Climbed :
      (rank : Text → ℕ) (ranked : IsRankedBy rank) (fuel : ℕ) (id : Text)
      → rank id < fuel
      → Climbed (climb mapping fuel id) id
  unfolding climb
  climb-Climbed rank ranked zero id lt = absurd (omega arith)
  climb-Climbed rank ranked (suc fuel) id lt =
      at_node-Climbed (climb mapping fuel) id (node_at mapping id) refl λ node p here child.
        climb-Climbed rank ranked fuel p (omega (arith, ranked id p node here child))

  climb-none :
      (S : Text → Type 0) (endless : IsEndless S) (fuel : ℕ) (id : Text)
      → S id
      → climb mapping fuel id ≡ none
  unfolding climb
  climb-none S endless zero id inside = refl
  climb-none S endless (suc fuel) id inside =
      let (node, p, here, child, also) = endless id inside in
      ap (at_node (climb mapping fuel)) here
      ∙ (ap (at_parent (climb mapping fuel) node) child
          ∙ ap (above node) (climb-none S endless fuel p also))

module _ (h : Host) (web : Web h) (formats : Formats h web) where
  module _ (conv : ConversationDetail h.F64 web.Value)
      (mapping : List (Text × MappingNode h.F64 web.Value)) (current : Text)
      (has_mapping : conv.mapping ≡ some mapping)
      (has_current : conv.current_node ≡ some current) where
    rendered : Option (List (MappingNode h.F64 web.Value)) → Option Text
    rendered none = none
    rendered (some path) = some (heading h web formats conv ++ blocks h web formats (reverse path))

    to_markdown_lem :
        (fuel : ℕ) → to_markdown h web formats conv fuel ≡ rendered (climb mapping fuel current)
    unfolding to_markdown walk_to_current rendered
    to_markdown_lem fuel =
        ap (λ m. under h web formats title (body_of h web formats m conv.current_node fuel))
          has_mapping
        ∙ (ap (λ c. under h web formats title (body_of h web formats (some mapping) c fuel))
              has_current
            ∙ split (climb mapping fuel current))
      where
        title : Text
        title = heading h web formats conv

        split :
            (r : Option (List (MappingNode h.F64 web.Value)))
            → under h web formats title (blocks_of h web formats (reversed r)) ≡ rendered r
        split none = refl
        split (some path) = refl

    -- If every parent in the mapping is smaller than its child by some measure, `to_markdown`
    -- ends with the current node's measure and one as fuel, or any more: the text is the heading
    -- and the messages on the chain of parents of the current node, the oldest first.
    pub to_markdown-Chain :
        (rank : Text → ℕ) (ranked : IsRankedBy mapping rank) (fuel : ℕ)
        → rank current < fuel
        → (path : List (MappingNode h.F64 web.Value)) × Chain mapping current path
          × (to_markdown h web formats conv fuel
              ≡ some (heading h web formats conv ++ blocks h web formats (reverse path)))
    unfolding rendered Climbed
    to_markdown-Chain rank ranked fuel lt =
        let (path, done, chain) = climb-Climbed mapping rank ranked fuel current lt in
        (path, chain, to_markdown_lem fuel ∙ ap rendered done)

    -- If the current node is in a set of nodes whose parents are all in the set, such as a cycle,
    -- `to_markdown` does not end, whatever the fuel.
    pub to_markdown-IsEndless :
        (S : Text → Type 0) (endless : IsEndless mapping S)
        → S current
        → (fuel : ℕ) → to_markdown h web formats conv fuel ≡ none
    unfolding rendered
    to_markdown-IsEndless S endless inside fuel =
        to_markdown_lem fuel ∙ ap rendered (climb-none mapping S endless fuel current inside)
