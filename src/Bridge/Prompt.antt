-- ===== src/Bridge/Prompt.antt =====
-- internal/bridge/prompt.go: what an agent is asked.
pub mod Sealed
pub mod Values
pub mod Contents
use Prim.Native.Char.{Char, code}
use lark_coding_agent_bridge.Prelude.{
  String, Bool, true, ◌||◌, Option, none, some, List, [], ◌∷◌, ◌++◌, ◌==◌, eqb, if◌then◌else◌, has,
  concat, trim_space, join,
}
use lark_coding_agent_bridge.Agent.Json.{
  Json, null, bool, str, arr, obj, Items, stop, item, Fields, empty, entry, get, present, as_map,
  to_list,
}
use lark_coding_agent_bridge.Agent.Marshal.{marshal}
use lark_coding_agent_bridge.Bridge.Message.{Message, Mention}

-- What the platform sends as a message's content: the text, and the JSON that it is.
pub record Content : Type 0 where
  pub raw : String
  pub decoded : Option Json

-- A member of a struct that is a text; `none` where `json.Unmarshal` fails.
unfoldable pub text_member : Fields → String → Option String
unfolding get
text_member m key = elim (get m key) [ str s ↦ some s | null ↦ some "" | _ ↦ none ]

unfoldable pub text_body : Option Json → Option String
unfolding text_member
text_body (some (obj m)) = text_member m "text"
text_body (some null) = some ""
text_body _ = none

-- The content of a post, which may be under a language.
abbrev content_of : Fields → Option Json
content_of m = if present m "content" then some (get m "content") else none

abbrev sub_content : Json → Option Json
sub_content v = elim (as_map v) [ some m ↦ content_of m | none ↦ none ]

unfoldable pub under_language : Fields → List String → Option Json
unfolding present get as_map
under_language doc [] = none
under_language doc (lang ∷ langs) =
    let rest = under_language doc langs in
    elim (sub_content (get doc lang)) [ some c ↦ some c | none ↦ rest ]

unfoldable pub post_content : Fields → Option Json
unfolding present get
post_content doc =
    if present doc "content"
    then some (get doc "content")
    else under_language doc ("zh_cn" ∷ "en_us" ∷ "ja_jp" ∷ [])

-- Where both are decoded.
abbrev both : (String → String → String) → Option String → Option String → Option String
both f none b = none
both f (some a) none = none
both f (some a) (some b) = some (f a b)

-- The text that an element of a quoted post adds; `none` where it is not decoded.
unfoldable pub quoted_element : Json → Option String
unfolding text_member
quoted_element (obj m) =
    both (λ tag text. if tag == "text" then text else "") (text_member m "tag")
      (text_member m "text")
quoted_element null = some ""
quoted_element _ = none

unfoldable pub quoted_line : List Json → Option String
quoted_line [] = some ""
quoted_line (v ∷ vs) = both concat (quoted_element v) (quoted_line vs)

abbrev paragraph : Json → Option (List Json)
paragraph (arr vs) = some (to_list vs)
paragraph null = some []
paragraph _ = none

abbrev paragraph_text : Option (List Json) → Option String
paragraph_text none = none
paragraph_text (some line) = quoted_line line

unfoldable pub quoted_lines : List Json → Option String
quoted_lines [] = some ""
quoted_lines (v ∷ vs) =
    both (λ text rest. concat text (concat "\n" rest)) (paragraph_text (paragraph v))
      (quoted_lines vs)

abbrev is_newline : Char → Bool
is_newline c = eqb (code c) 10

abbrev trim_newline : Char → String → String
trim_newline c String.[] = if is_newline c then String.[] else String.◌∷◌ c String.[]
trim_newline c (String.◌∷◌ d s) = String.◌∷◌ c (String.◌∷◌ d s)

-- `strings.TrimRight(s, "\n")`.
unfoldable pub trim_newlines : String → String
trim_newlines String.[] = String.[]
trim_newlines (String.◌∷◌ c s) = trim_newline c (trim_newlines s)

abbrev or_raw : String → Option String → String
or_raw raw none = raw
or_raw raw (some s) = s

abbrev trimmed : Option String → Option String
trimmed none = none
trimmed (some s) = some (trim_newlines s)

abbrev quoted_content : Option Json → Option String
quoted_content none = none
quoted_content (some v) = elim (paragraph v) [ none ↦ none | some vs ↦ trimmed (quoted_lines vs) ]

unfoldable pub flatten_quoted : String → Content → String
unfolding post_content
flatten_quoted kind content =
    if kind == "text"
    then or_raw content.raw (text_body content.decoded)
    else if kind == "post"
    then elim content.decoded [
      | some (obj doc) ↦ or_raw content.raw (quoted_content (post_content doc))
      | _ ↦ content.raw
    ]
    else content.raw

-- The replacer of `promptSection`, which turns `<` into a backspace and leaves the other two.
unfoldable pub replace_tags : String → String
replace_tags String.[] = String.[]
replace_tags (String.◌∷◌ c s) =
    let rest = replace_tags s in
    if eqb (code c) b'<' then concat "\u{8}" rest else String.◌∷◌ c rest

abbrev pub section_of : String → String → String
section_of tag body =
    concat (concat "<" (concat tag ">\n")) (concat body (concat "\n</" (concat tag ">")))

unfoldable pub prompt_section : String → Fields → String
prompt_section tag value = section_of tag (replace_tags (marshal (obj value)))

-- A text member that is left out where it is empty.
abbrev optional : String → String → Fields → Fields
optional key value m = if value == "" then m else entry key (str value) m

unfoldable pub sender_type_of : Message → String
sender_type_of m = if m.sender_type == "" || m.sender_type == "user" then "user" else "bot"

unfoldable pub sender_annotation : Message → String
unfolding sender_type_of
sender_annotation m =
    let id = if m.sender_id == "" then "unknown" else m.sender_id in
    concat "[" (concat id (concat " (" (concat (sender_type_of m) ")]")))

abbrev mention_fields : Mention → Fields
mention_fields m =
    optional "openId" m.open_id
      (optional "name" m.name (if m.is_bot then entry "isBot" (bool true) empty else empty))

-- The first mention of everybody who is mentioned, behind those already seen.
unfoldable pub mentions_of : List String → List Mention → Items
unfolding has
mentions_of seen [] = stop
mentions_of seen (m ∷ ms) =
    let key = if m.open_id == "" then m.name else m.open_id in
    let skipped = mentions_of seen ms in
    let rest = mentions_of (key ∷ seen) ms in
    if key == "" || has key seen then skipped else item (obj (mention_fields m)) rest

unfoldable pub all_mentions : List Message → List Mention
all_mentions [] = []
all_mentions (m ∷ ms) = m.mentions ++ all_mentions ms

unfoldable pub message_ids : List Message → Items
message_ids [] = stop
message_ids (m ∷ ms) = item (str m.message_id) (message_ids ms)

abbrev some_items : String → Items → Fields → Fields
some_items key stop m = m
some_items key (item v vs) m = entry key (arr (item v vs)) m

unfoldable pub prompt_context : String → Message → List Message → Fields
unfolding mentions_of all_mentions message_ids sender_type_of
prompt_context bot first rest =
    let batch = first ∷ rest in
    entry "chatId" (str first.chat_id) (
      entry "chatType" (str first.chat_type) (
        entry "senderId" (str first.sender_id) (
          optional "senderType" (sender_type_of first) (
            optional "botOpenId" bot (
              some_items "mentions" (mentions_of [] (all_mentions batch)) (
                optional "threadId" first.thread_id (
                  some_items "messageIds" (message_ids batch)
                    (entry "source" (str "im") empty))))))))

-- `strings.ReplaceAll(s, "\n", "\n    ")`.
unfoldable pub indent : String → String
indent String.[] = String.[]
indent (String.◌∷◌ c s) =
    let rest = indent s in if is_newline c then concat "\n    " rest else String.◌∷◌ c rest

unfoldable pub annotated : List Message → List String
unfolding sender_annotation trim_space indent
annotated [] = []
annotated (m ∷ ms) =
    let rest = annotated ms in
    let content = trim_space m.content in
    if content == ""
    then rest
    else concat (sender_annotation m) (concat ":\n    " (indent content)) ∷ rest

-- One message as it is, several with their senders.
unfoldable pub batch_text : Message → List Message → String
unfolding trim_space annotated join
batch_text first [] = trim_space first.content
batch_text first (m ∷ ms) = join "\n" (annotated (first ∷ m ∷ ms))

pub record Attachment : Type 0 where
  pub path : String
  pub kind : String
  pub name : String

unfoldable pub attachments_of : List Attachment → Items
attachments_of [] = stop
attachments_of (a ∷ as') =
    item
      (obj (entry "path" (str a.path) (entry "kind" (str a.kind) (optional "name" a.name empty))))
      (attachments_of as')

abbrev pub user_input : String → List Attachment → Fields
user_input text attachments =
    entry "text" (str text) (some_items "attachments" (attachments_of attachments) empty)

-- A message that the user replies to; one that cannot be fetched, or is empty, leaves no section.
abbrev pub quoted_section : String → Option (String × Content) → String
quoted_section parent none = ""
quoted_section parent (some (kind, content)) =
    let text = flatten_quoted kind content in
    if text == ""
    then ""
    else concat
        (prompt_section "quoted_message"
          (entry "content" (str text) (entry "id" (str parent) (entry "type" (str kind) empty))))
        "\n\n"

-- The prompt of a batch, which is never empty; `fetch` is the platform's answer about a message.
unfoldable pub build_prompt :
    String
    → (String → Option (String × Content))
    → Message
    → List Message
    → List Attachment
    → String
build_prompt bot fetch first rest attachments =
    let quoted =
      if first.parent_id == ""
      then ""
      else quoted_section first.parent_id (fetch first.parent_id) in
    concat (prompt_section "bridge_context" (prompt_context bot first rest)) (
      concat "\n\n" (
        concat quoted
          (prompt_section "user_input" (user_input (batch_text first rest) attachments))))
