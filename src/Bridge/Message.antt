-- ===== src/Bridge/Message.antt =====
-- The normalized message of internal/bridge/message.go and the scope that isolates its session.
use lark_coding_agent_bridge.Prelude.{
  String, Bool, ◌&&◌, ◌||◌, not, List, ◌==◌, if◌then◌else◌, concat, starts_with,
}

pub record Mention : Type 0 where
  pub open_id : String
  pub name : String
  pub key : String
  pub is_bot : Bool

-- `media.Resource`.
pub record Resource : Type 0 where
  pub file_key : String
  pub kind : String
  pub name : String

pub record Message : Type 0 where
  pub message_id : String
  pub chat_id : String
  pub chat_type : String
  pub thread_id : String
  pub root_id : String
  pub parent_id : String
  pub sender_id : String
  pub sender_type : String
  pub content : String
  pub raw_type : String
  pub mentions : List Mention
  pub mention_all : Bool
  pub mentioned_bot : Bool
  pub resources : List Resource

unfoldable pub topic_root_id : Message → String
topic_root_id m =
    if not (m.root_id == "")
    then m.root_id
    else if not (m.thread_id == "")
    then m.thread_id
    else m.message_id

abbrev pub join : String → String → String
join chat rest = concat chat (concat ":" rest)

unfoldable pub scope : Message → String
scope m =
    if m.chat_type == "p2p"
    then (let root = topic_root_id m in if root == "" then m.chat_id else join m.chat_id root)
    else if not (m.thread_id == "")
    then join m.chat_id m.thread_id
    else m.chat_id

unfoldable pub reply_in_thread : String → Bool
reply_in_thread chat_type = chat_type == "p2p"

-- `scopeBelongsToChat` of internal/bridge/model.go.
unfoldable pub scope_belongs_to_chat : String → String → Bool
scope_belongs_to_chat s chat_id =
    not (chat_id == "") && (s == chat_id || starts_with s (concat chat_id ":"))
