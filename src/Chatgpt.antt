-- ===== src/Chatgpt.antt =====
-- The data of src/workload/chatgpt.rs, the read-only client that the export command uses; its list of
-- summaries is that of Web.antt.
pub mod Client
pub mod Markdown
use repossess.Prelude.{Text, Option, List}
use repossess.Effect.{Result}
use repossess.Host.{Host}
use repossess.Web.{Web}

pub record Author : Type 0 where
  pub role : Text

pub record Content (Value : Type 0) : Type 0 where
  pub content_type : Text
  pub parts : Option (List Value)

pub record Message (F Value : Type 0) : Type 0 where
  pub id : Text
  pub author : Author
  pub create_time : Option F
  pub content : Content Value
  pub status : Option Text

pub record MappingNode (F Value : Type 0) : Type 0 where
  pub id : Text
  pub message : Option (Message F Value)
  pub parent : Option Text
  pub children : List Text

-- The `HashMap` of nodes is the list of its entries, which have distinct keys.
pub record ConversationDetail (F Value : Type 0) : Type 0 where
  pub id : Text
  pub title : Option Text
  pub create_time : Option F
  pub update_time : Option F
  pub mapping : Option (List (Text × MappingNode F Value))
  pub current_node : Option Text

-- serde_json at `ConversationDetail`, and the printing of times: `timestamp_opt(…).single()` with
-- `to_rfc3339`, and the display of an f64.
pub record Formats (h : Host) (web : Web h) : Type 0 where
  pub detail_of_value : web.Value → Result (ConversationDetail h.F64 web.Value)
  pub to_vec_pretty : ConversationDetail h.F64 web.Value → Result h.Bytes
  pub to_rfc3339 : h.F64 → Option Text
  pub show_f64 : h.F64 → Text
