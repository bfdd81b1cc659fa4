-- ===== src/Bridge/Prompt/Values.antt =====
-- The context and the input of a prompt, `buildPrompt` of internal/bridge/prompt.go.
use lark_coding_agent_bridge.Prelude.{
  String, ◌≡◌, ◌≢◌, refl, ap, ◌∙◌, true, false, inl, inr, none, some, List, [], ◌∷◌, map, arith,
  ◌==◌, eq_iff, Bool-cases, concat, join, trim_space, ◌⊎◌,
}
use lark_coding_agent_bridge.Agent.Json.{
  Json, null, str, Items, stop, item, Fields, empty, entry, get, any_slice, as_map, to_list,
}
use lark_coding_agent_bridge.Bridge.Message.{Message}
use lark_coding_agent_bridge.Bridge.Prompt.{
  Attachment, attachments_of, user_input, batch_text, annotated, indent, sender_annotation,
  optional, some_items, message_ids, prompt_context, mentions_of, all_mentions, sender_type_of,
}

-- The paragraphs of several messages: every one that is not blank, with its sender.
abbrev pub IsTold : List Message → List String → Type 0
IsTold [] [] = Unit {0}
IsTold [] (p ∷ ps) = ⊥
IsTold (m ∷ ms) [] = (trim_space m.content ≡ "") × IsTold ms []
IsTold (m ∷ ms) (p ∷ ps) =
    ((trim_space m.content ≡ "") × IsTold ms (p ∷ ps))
    ⊎ ((trim_space m.content ≢ "")
        × (p ≡ concat (sender_annotation m) (concat ":\n    " (indent (trim_space m.content))))
        × IsTold ms ps)

-- The text of a batch.
abbrev pub IsTextOf : Message → List Message → String → Type 0
IsTextOf first [] text = text ≡ trim_space first.content
IsTextOf first (m ∷ ms) text =
    (paragraphs : List String) × IsTold (first ∷ m ∷ ms) paragraphs × (text ≡ join "\n" paragraphs)

-- The path of an attachment in the JSON.
abbrev pub path_of : Json → Json
path_of v = elim (as_map v) [ some m ↦ get m "path" | none ↦ null ]

-- The context names the chat, the sender of the first message, and all messages.
abbrev pub IsContext : Message → List Message → Fields → Type 0
IsContext first rest context =
    (get context "chatId" ≡ str first.chat_id)
    × (get context "chatType" ≡ str first.chat_type)
    × (get context "senderId" ≡ str first.sender_id)
    × (any_slice (get context "messageIds")
        ≡ map (λ (m : Message). str m.message_id) (first ∷ rest))

-- The input is the text of the batch and the paths of its attachments.
abbrev pub IsInput : Message → List Message → List Attachment → Fields → Type 0
IsInput first rest attachments input =
    ((text : String) × IsTextOf first rest text × (get input "text" ≡ str text))
    × (map path_of (any_slice (get input "attachments"))
        ≡ map (λ (a : Attachment). str a.path) attachments)

annotated-IsTold : (ms : List Message) → IsTold ms (annotated ms)
unfolding annotated
annotated-IsTold [] = tt
annotated-IsTold (m ∷ ms) = elim (Bool-cases (trim_space m.content == "")) [
  | inl e ↦ rw e (
      blank-IsTold m ms (annotated ms) ((eq_iff (trim_space m.content) "").0 e)
        (annotated-IsTold ms))
  | inr e ↦
      rw e (inr (ground (arith, e, eq_iff (trim_space m.content) ""), refl, annotated-IsTold ms))
]
  where
    blank-IsTold :
        (m : Message) (ms : List Message) (ps : List String)
        → trim_space m.content ≡ ""
        → IsTold ms ps
        → IsTold (m ∷ ms) ps
    blank-IsTold m ms [] e h = (e, h)
    blank-IsTold m ms (p ∷ ps) e h = inl (e, h)

batch_text-IsTextOf :
    (first : Message) (rest : List Message) → IsTextOf first rest (batch_text first rest)
unfolding batch_text
batch_text-IsTextOf first [] = refl
batch_text-IsTextOf first (m ∷ ms) =
    (annotated (first ∷ m ∷ ms), annotated-IsTold (first ∷ m ∷ ms), refl)

get-optional :
    (k v key : String) (m : Fields) → (k == key) ≡ false → get (optional k v m) key ≡ get m key
unfolding get
get-optional k v key m h = ground (arith, h)

get-some_items :
    (k : String) (vs : Items) (key : String) (m : Fields)
    → (k == key) ≡ false
    → get (some_items k vs m) key ≡ get m key
unfolding get
get-some_items k stop key m h = refl
get-some_items k (item v vs) key m h = rw h refl

some_items_all :
    (k : String) (vs : Items) (m : Fields)
    → get m k ≡ null
    → (k == k) ≡ true
    → any_slice (get (some_items k vs m) k) ≡ to_list vs
unfolding get any_slice
some_items_all k stop m h q = rw h refl
some_items_all k (item v vs) m h q = rw q refl

message_ids-map :
    (ms : List Message) → to_list (message_ids ms) ≡ map (λ (m : Message). str m.message_id) ms
unfolding message_ids
message_ids-map [] = refl
message_ids-map (m ∷ ms) = ap (◌∷◌ (str m.message_id)) (message_ids-map ms)

paths-map :
    (as' : List Attachment)
    → map path_of (to_list (attachments_of as')) ≡ map (λ (a : Attachment). str a.path) as'
unfolding attachments_of get as_map
paths-map [] = refl
paths-map (a ∷ as') = ap (◌∷◌ (str a.path)) (paths-map as')

pub prompt_context-IsContext :
    (bot : String) (first : Message) (rest : List Message)
    → IsContext first rest (prompt_context bot first rest)
unfolding prompt_context get
prompt_context-IsContext bot first rest =
    let batch = first ∷ rest in
    let m₀ : Fields =
      some_items "messageIds" (message_ids batch) (entry "source" (str "im") empty) in
    let m₁ : Fields = optional "threadId" first.thread_id m₀ in
    let mentions = mentions_of [] (all_mentions batch) in
    let m₂ : Fields = some_items "mentions" mentions m₁ in
    let m₃ : Fields = optional "botOpenId" bot m₂ in
    let skip =
      get-optional "senderType" (sender_type_of first) "messageIds" m₃ refl
      ∙ get-optional "botOpenId" bot "messageIds" m₂ refl
      ∙ get-some_items "mentions" mentions "messageIds" m₁ refl
      ∙ get-optional "threadId" first.thread_id "messageIds" m₀ refl in
    (
      refl,
      refl,
      refl,
      ap any_slice skip
          ∙ some_items_all "messageIds" (message_ids batch) (entry "source" (str "im") empty) refl
              refl
          ∙ message_ids-map batch,
    )

pub user_input-IsInput :
    (first : Message) (rest : List Message) (attachments : List Attachment)
    → IsInput first rest attachments (user_input (batch_text first rest) attachments)
unfolding get
user_input-IsInput first rest attachments = (
  (batch_text first rest, batch_text-IsTextOf first rest, refl),
  ap (map path_of) (some_items_all "attachments" (attachments_of attachments) empty refl refl)
      ∙ paths-map attachments,
)
