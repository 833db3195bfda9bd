-- ===== src/Web.antt =====
-- What the HTTP clients are handed: reqwest, serde_json's `Value` and timers.
use repossess.Prelude.{ℕ, Text, Option, List}
use repossess.Effect.{M, Result}
use repossess.Host.{Host}

-- A response: its status, its headers that are text, and what reading its body gives.
pub record Response : Type 0 where
  pub status : ℕ
  pub headers : List (Text × Text)
  pub body : Result Text

-- The shape of a `serde_json::Value` that the error handling looks at; `other` with its display.
pub data Kind : Type 0 where
  string : Text → Kind
  object : Kind
  other : Text → Kind

-- `ConversationSummary` of src/workload/chatgpt.rs.
pub record ConversationSummary (F : Type 0) : Type 0 where
  pub id : Text
  pub title : Option Text
  pub update_time : Option F

pub record Web (h : Host) : Type 1 where
  pub Client : Type 0
  pub Value : Type 0
  -- A GET with headers, and `tokio::time::sleep` of so many milliseconds.
  pub send : Client → Text → List (Text × Text) → M h.World Response
  pub sleep : ℕ → h.World → h.World
  pub parse_json : Text → Result Value
  pub get : Value → Text → Option Value
  pub pointer : Value → Text → Option Value
  pub kind : Value → Kind
  pub as_f64 : Value → Option h.F64
  pub value_to_vec : Value → Result h.Bytes
  pub value_from_slice : h.Bytes → Result Value
  -- `serde_json` at `SessionResponse` and `ConversationListResponse`.
  pub session_of_json : Text → Result (Option Text)
  pub list_of_value : Value → Result (List (ConversationSummary h.F64))
  -- `str::parse::<u64>` and `to_string` of a number.
  pub parse_u64 : Text → Option ℕ
  pub show : ℕ → Text
