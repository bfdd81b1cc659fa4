-- ===== src/Bridge/Prompt/Contents.antt =====
-- What the prompt of internal/bridge/prompt.go tells an agent, section by section.
use lark_coding_agent_bridge.Prelude.{
  String, ◌≡◌, ◌≢◌, refl, false, Option, none, some, List, arith, ◌==◌, eq_iff, if◌then◌else◌,
  concat,
}
use lark_coding_agent_bridge.Agent.Json.{str, obj, Fields, empty, entry, get}
use lark_coding_agent_bridge.Agent.Marshal.{marshal}
use lark_coding_agent_bridge.Bridge.Message.{Message}
use lark_coding_agent_bridge.Bridge.Prompt.{
  Content, flatten_quoted, replace_tags, section_of, prompt_section, quoted_section, build_prompt,
  Attachment, user_input, batch_text, prompt_context,
}
use lark_coding_agent_bridge.Bridge.Prompt.Sealed.{Sealed, Sealed-replaced}
use lark_coding_agent_bridge.Bridge.Prompt.Values.{
  IsContext, IsInput, prompt_context-IsContext, user_input-IsInput,
}

-- The section of a tag with a value, which opens or closes no other tag.
abbrev pub IsSection : String → Fields → String → Type 0
IsSection tag value s =
    (s ≡ section_of tag (replace_tags (marshal (obj value))))
    × Sealed (replace_tags (marshal (obj value)))

prompt_section-IsSection :
    (tag : String) (value : Fields) → IsSection tag value (prompt_section tag value)
unfolding prompt_section
prompt_section-IsSection tag value = (refl, Sealed-replaced (marshal (obj value)))

-- Between the two, the quoted message if it can be fetched and has a text.
abbrev pub IsQuoted : String → (String → Option (String × Content)) → String → Type 0
IsQuoted parent fetch between =
    (parent ≡ "" → between ≡ "")
    × (parent ≢ "" → fetch parent ≡ none → between ≡ "")
    × ((kind : String) (content : Content)
        → parent ≢ ""
        → fetch parent ≡ some (kind, content)
        → flatten_quoted kind content ≡ ""
        → between ≡ "")
    × ((kind : String) (content : Content)
        → parent ≢ ""
        → fetch parent ≡ some (kind, content)
        → flatten_quoted kind content ≢ ""
        → (value : Fields) × (section : String) × IsSection "quoted_message" value section
          × (between ≡ concat section "\n\n")
          × (get value "content" ≡ str (flatten_quoted kind content))
          × (get value "id" ≡ str parent)
          × (get value "type" ≡ str kind))

abbrev pub Sections :
    (String → Option (String × Content))
    → Message
    → List Message
    → List Attachment
    → String
    → Type 0
Sections fetch first rest attachments prompt =
    (context : Fields) × (input : Fields) × (head : String) × (between : String) × (tail : String)
    × (prompt ≡ concat head (concat "\n\n" (concat between tail)))
    × IsSection "bridge_context" context head
    × IsContext first rest context
    × IsQuoted first.parent_id fetch between
    × IsSection "user_input" input tail
    × IsInput first rest attachments input

not_empty : (s : String) → s ≢ "" → (s == "") ≡ false
not_empty s n = ground (arith, n, eq_iff s "")

quoted_section-IsQuoted :
    (parent : String) (fetch : String → Option (String × Content))
    → IsQuoted parent fetch (if parent == "" then "" else quoted_section parent (fetch parent))
unfolding get
quoted_section-IsQuoted parent fetch =
    let replied = λ (n : parent ≢ ""). not_empty parent n in
    (
      (λ e. rw ((eq_iff parent "").1 e) refl),
      (λ n e. rw (replied n, e) refl),
      (λ kind content n e q.
          rw (replied n, e) (rw ((eq_iff (flatten_quoted kind content) "").1 q) refl)),
      (λ kind content n e q.
          let value =
            entry "content" (str (flatten_quoted kind content))
              (entry "id" (str parent) (entry "type" (str kind) empty)) in
          (
            value,
            prompt_section "quoted_message" value,
            prompt_section-IsSection "quoted_message" value,
            rw (replied n, e) (rw (not_empty (flatten_quoted kind content) q) refl),
            refl,
            refl,
            refl,
          )),
    )

-- The prompt of a batch is the section of the context, that of the quoted message if there is one, and
-- that of the user's input, and whatever the messages, the names and the files say, no text in a section
-- opens or closes a tag. The context names the chat, its type, the sender of the first message and the
-- ids of all messages. The quoted section is there exactly if the first message has a parent that can be
-- fetched and has a text, and then it holds that text, the parent's id and its type. The input holds the
-- text of the batch, which is the trimmed text of a single message, or of several those that are not
-- blank with their senders, and the paths of all attachments, in their order.
pub build_prompt-Sections :
    (bot : String) (fetch : String → Option (String × Content)) (first : Message)
    (rest : List Message) (attachments : List Attachment)
    → Sections fetch first rest attachments (build_prompt bot fetch first rest attachments)
unfolding build_prompt
build_prompt-Sections bot fetch first rest attachments =
    let context = prompt_context bot first rest in
    let input = user_input (batch_text first rest) attachments in
    (
      context,
      input,
      prompt_section "bridge_context" context,
      (if first.parent_id == ""
          then ""
          else quoted_section first.parent_id (fetch first.parent_id)),
      prompt_section "user_input" input,
      refl,
      prompt_section-IsSection "bridge_context" context,
      prompt_context-IsContext bot first rest,
      quoted_section-IsQuoted first.parent_id fetch,
      prompt_section-IsSection "user_input" input,
      user_input-IsInput first rest attachments,
    )
