-- ===== src/Chatgpt/Markdown.antt =====
-- `to_markdown` of src/workload/chatgpt.rs: the messages on the path to the current node, as text. The
-- walk along the parents runs on fuel, a number of nodes; `none` is that it goes on after them.
pub mod Walk
use repossess.Prelude.{
  ℕ, zero, suc, Text, Bool, true, false, Option, none, some, List, [], ◌∷◌, ◌++◌, codes, reverse,
  is_empty, text_eq, trim, if◌then◌else◌,
}
use repossess.Host.{Host}
use repossess.Web.{Web, Kind}
use repossess.Canary.{str_of}
use repossess.Chatgpt.{Message, MappingNode, ConversationDetail, Formats}

module _ {F Value : Type 0} where
  -- `HashMap::get`
  abbrev pub node_at : List (Text × MappingNode F Value) → Text → Option (MappingNode F Value)
  node_at [] id = none
  node_at ((k, n) ∷ mapping) id = if text_eq k id then some n else node_at mapping id

  abbrev pub above :
      MappingNode F Value
      → Option (List (MappingNode F Value))
      → Option (List (MappingNode F Value))
  above node none = none
  above node (some path) = some (node ∷ path)

  abbrev pub at_parent :
      (Text → Option (List (MappingNode F Value)))
      → MappingNode F Value
      → Option Text
      → Option (List (MappingNode F Value))
  at_parent go_on node none = some (node ∷ [])
  at_parent go_on node (some p) = above node (go_on p)

  abbrev pub at_node :
      (Text → Option (List (MappingNode F Value)))
      → Option (MappingNode F Value)
      → Option (List (MappingNode F Value))
  at_node go_on none = some []
  at_node go_on (some node) = at_parent go_on node node.parent

  -- The path from a node up to the root, in this order.
  unfoldable pub climb :
      List (Text × MappingNode F Value) → ℕ → Text → Option (List (MappingNode F Value))
  climb mapping zero id = none
  climb mapping (suc fuel) id = at_node (climb mapping fuel) (node_at mapping id)

  abbrev pub reversed : Option (List (MappingNode F Value)) → Option (List (MappingNode F Value))
  reversed none = none
  reversed (some path) = some (reverse path)

  unfoldable pub walk_to_current :
      List (Text × MappingNode F Value) → ℕ → Text → Option (List (MappingNode F Value))
  walk_to_current mapping fuel current = reversed (climb mapping fuel current)

-- `join`
abbrev pub join : Text → List Text → Text
join separator [] = []
join separator (s ∷ []) = s
join separator (s ∷ t ∷ texts) = s ++ (separator ++ join separator (t ∷ texts))

unfoldable pub role_name : Text → Text
role_name role =
    if text_eq role (codes "user")
    then codes "You"
    else if text_eq role (codes "assistant")
    then codes "ChatGPT"
    else if text_eq role (codes "system")
    then codes "System"
    else if text_eq role (codes "tool")
    then codes "Tool"
    else role

abbrev pub unwrap_or : Option Text → Text → Text
unwrap_or none d = d
unwrap_or (some t) d = t

module _ (h : Host) (web : Web h) (formats : Formats h web) where
  unfoldable pub ts_fmt : h.F64 → Text
  ts_fmt ts = unwrap_or (formats.to_rfc3339 ts) (formats.show_f64 ts)

  -- `filter_map(|p| p.as_str())`
  abbrev pub strings : List web.Value → List Text
  strings [] = []
  strings (p ∷ parts) = elim (str_of h web (some p)) [
    | none ↦ strings parts
    | some s ↦ s ∷ strings parts
  ]

  -- `.filter(|t| !t.is_empty())`
  abbrev pub non_empty : Text → Option Text
  non_empty [] = none
  non_empty (c ∷ t) = some (c ∷ t)

  abbrev pub joined : Option (List web.Value) → Option Text
  joined none = none
  joined (some parts) = non_empty (join (codes "\n") (strings parts))

  unfoldable pub text_of : Message h.F64 web.Value → Text
  text_of msg = unwrap_or (joined msg.content.parts) (codes "[non-text content]")

  abbrev pub is_partial : Option Text → Bool
  is_partial none = false
  is_partial (some status) = text_eq status (codes "finished_partially")

  -- The comment in front of a message that has a time.
  abbrev pub stamp : Option h.F64 → Text → Text
  stamp none id = []
  stamp (some ct) id = codes "<!-- " ++ (ts_fmt ct ++ (codes " | " ++ (id ++ codes " -->\n")))

  -- What one node adds.
  unfoldable pub block_of : Option (Message h.F64 web.Value) → Text
  block_of none = []
  block_of (some msg) =
      if is_partial msg.status
      then []
      else if is_empty (trim (text_of msg))
      then []
      else stamp msg.create_time msg.id
        ++ (codes "**"
            ++ (role_name msg.author.role
                ++ (codes ":**\n\n" ++ (text_of msg ++ codes "\n\n---\n\n"))))

  unfoldable pub blocks : List (MappingNode h.F64 web.Value) → Text
  blocks [] = []
  blocks (node ∷ path) = block_of node.message ++ blocks path

  abbrev pub dated : Text → Option h.F64 → Text
  dated label none = []
  dated label (some ts) = codes "*" ++ (label ++ (codes ": " ++ (ts_fmt ts ++ codes "*\n\n")))

  -- The title and the two times.
  unfoldable pub heading : ConversationDetail h.F64 web.Value → Text
  heading conv =
      codes "# "
      ++ (unwrap_or conv.title (codes "Untitled")
          ++ (codes "\n\n"
              ++ (dated (codes "Created") conv.create_time
                  ++ dated (codes "Updated") conv.update_time)))

  abbrev pub blocks_of : Option (List (MappingNode h.F64 web.Value)) → Option Text
  blocks_of none = none
  blocks_of (some path) = some (blocks path)

  abbrev pub body_of :
      Option (List (Text × MappingNode h.F64 web.Value)) → Option Text → ℕ → Option Text
  body_of none current fuel = some (codes "_No messages._\n")
  body_of (some mapping) none fuel = some (codes "_No messages._\n")
  body_of (some mapping) (some current) fuel = blocks_of (walk_to_current mapping fuel current)

  abbrev pub under : Text → Option Text → Option Text
  under title none = none
  under title (some body) = some (title ++ body)

  unfoldable pub to_markdown : ConversationDetail h.F64 web.Value → ℕ → Option Text
  to_markdown conv fuel = under (heading conv) (body_of conv.mapping conv.current_node fuel)
