-- ===== src/Ask/Types.antt =====
-- internal/ask/types.go: the data of the ask component. Times are nanoseconds.
use lark_coding_agent_bridge.Prelude.{ℕ, String, Bool, Option, List, ℤ}

-- One selectable choice of a question.
pub record Opt : Type 0 where
  pub key : String
  pub label : String

pub record Question : Type 0 where
  pub prompt : String
  pub options : List Opt
  pub multi_select : Bool

pub record Route : Type 0 where
  pub chat_id : String
  pub reply_to : String
  pub in_thread : Bool
  pub scope : String

-- `RawPayload`, which no operation of the broker reads, is left out.
pub record CreateInput : Type 0 where
  pub route : Route
  pub questions : List Question
  pub timeout : ℤ
  pub source : String
  pub freeform : Bool

pub data ResultKind : Type 0 where
  answered timed_out invalidated : ResultKind

pub record Result : Type 0 where
  pub kind : ResultKind
  pub answers : List (List String)
  pub by : String
  pub comment : String
  pub reason : String

pub data ClickOutcome : Type 0 where
  accepted toggled unauthorized stale already_settled need_selection need_input : ClickOutcome

pub record Pending : Type 0 where
  pub id : String
  pub nonce : String
  pub route : Route
  pub questions : List Question
  pub selections : List (List String)
  pub source : String
  pub freeform : Bool
  pub created_at : ℕ
  pub deadline_at : ℕ
  pub card_message_id : String
  pub card_entity_id : String
  pub settled : Bool
  pub result : Option Result

-- What registration refuses, with the index of the question at fault.
pub data Error : Type 0 where
  chat_id_required questions_required dispatcher_not_wired : Error
  empty_prompt needs_options missing_key : ℕ → Error
  duplicate_key : ℕ → String → Error
