-- ===== src/Tests/Asks.antt =====
-- Asks that are registered, clicked, called off and answered.
use lark_coding_agent_bridge.Ask.Click.{
  keys_exist, select, submit, submit_input, submit_comment, answers_exist,
}
use lark_coding_agent_bridge.Prelude.{
  String, ◌≡◌, refl, ◌≢◌, Bool, true, false, none, some, List, [], ◌∷◌, arith, has, lookup, insert,
  pos, trim_space, Option, inl,
}
use lark_coding_agent_bridge.Ask.Broker.{
  find_open, toggle_ask, materialize_selections, set_dispatcher, register, InternalAsk, Broker,
  new_broker, new_ask, toggle, question_at, index_of, selected, flip_key,
}
use lark_coding_agent_bridge.Ask.Types.{
  Opt, Question, CreateInput, Result, answered, invalidated, accepted, toggled,
}
use lark_coding_agent_bridge.Ask.Validate.{
  validate_questions, validate_question, validate_options, option_exists, validate_input,
}
use lark_coding_agent_bridge.Ask.Trace.{
  Event, wires, registers, toggles, settles, retires, run, step, phase, Later, Advance, AllFresh,
  IsFresh, done,
}
use lark_coding_agent_bridge.Ask.Change.{Consistent}
use lark_coding_agent_bridge.Ask.Life.{step-Advance, settled_once, retention_ends}
use lark_coding_agent_bridge.Ask.Outcome.{selects, click, Effect, click-Effect}
use lark_coding_agent_bridge.Ask.Open.{open_accepts, HasOption, Submits, AnySelected, Fits}
use lark_coding_agent_bridge.Ask.Select.{IsShown, selections_legal}

abbrev opt : String → Opt
opt k = record { key = k; label = k }

abbrev question : Bool → Question
question multi = record {
  prompt = "Which one?";
  options = opt "a" ∷ opt "b" ∷ [];
  multi_select = multi;
}

abbrev input : Bool → Bool → CreateInput
input multi freeform = record {
  route = record { chat_id = "oc_1"; reply_to = "om_1"; in_thread = false; scope = "oc_1:t" };
  questions = question multi ∷ [];
  timeout = pos 0;
  source = "agent";
  freeform = freeform;
}

abbrev history : List Event
history =
    wires
    ∷ registers (input true true) "ask1" "n1" 5
    ∷ toggles "ask1" "n1" (pos 0) "a"
    ∷ toggles "ask1" "n1" (pos 0) "b"
    ∷ []

abbrev verdict : Result
verdict = record {
  kind = answered;
  answers = ("a" ∷ []) ∷ [];
  by = "ou_1";
  comment = "";
  reason = "";
}

abbrev races : List Event
races =
    settles "ask1" verdict true
    ∷ settles "ask1" (record verdict { kind = invalidated }) true
    ∷ retires "ask1"
    ∷ []

-- A broker that holds one open ask.
abbrev asking : Bool → Bool → Broker
asking multi freeform = record {
  pending = ("ask1", new_ask (input multi freeform) "ask1" "n1" 5) ∷ [];
  wired = true;
  retiring = [];
  notified = [];
}

accepts_input : validate_input (input false false) ≡ none
unfolding validate_input validate_questions validate_question validate_options has
accepts_input = refl

new_broker-IsFresh : IsFresh new_broker (registers (input false false) "ask1" "n1" 5)
unfolding new_broker phase has lookup
new_broker-IsFresh = refl

new-Consistent : Consistent new_broker
unfolding new_broker lookup
new-Consistent j = tt

step-Advance_example :
    ((j : String)
      → Advance
          (phase j new_broker)
          (phase j (step new_broker (registers (input false false) "ask1" "n1" 5))))
    × Consistent (step new_broker (registers (input false false) "ask1" "n1" 5))
step-Advance_example =
    step-Advance new_broker (registers (input false false) "ask1" "n1" 5) new_broker-IsFresh
      new-Consistent

fresh_history : AllFresh new_broker history
unfolding new_broker phase has lookup step set_dispatcher
fresh_history = (tt, (refl, (tt, (tt, tt))))

fresh_races : AllFresh (run new_broker history) races
fresh_races = (tt, (tt, (tt, tt)))

settled_once_example :
    let before = phase "ask1" (run new_broker history) in
    let after = phase "ask1" (run (run new_broker history) races) in
    Later before after
    × ((r : Result) (s : Option Result)
        → before ≡ done r s
        → retention_ends races "ask1" ≡ false
        → after ≡ done r s)
settled_once_example = settled_once history races "ask1" fresh_history fresh_races

click-Effect_example :
    Effect
      (selects "ask1" "n1" "a" "ou_1")
      (asking false false)
      (click (selects "ask1" "n1" "a" "ou_1") (asking false false))
click-Effect_example = click-Effect (selects "ask1" "n1" "a" "ou_1") (asking false false)

found_ask :
    lookup "ask1" (asking true true).pending ≡ some (new_ask (input true true) "ask1" "n1" 5)
unfolding lookup
found_ask = ground arith

open_accepts_example :
    let ia = new_ask (input true true) "ask1" "n1" 5 in
    ((q : Question)
      → ia.info.questions ≡ q ∷ []
      → q.multi_select ≡ false
      → HasOption "a" q.options
      → (select "ask1" "n1" "a" "ou_1" (asking true true)).1 ≡ accepted)
    × ((answers : List (List String))
        → Submits (some (("a" ∷ []) ∷ [])) ia answers
        → AnySelected answers
        → Fits ia.info.questions answers
        → (submit "ask1" "n1" "ou_1" (some (("a" ∷ []) ∷ [])) (asking true true)).1 ≡ accepted)
    × (ia.info.freeform ≡ true
        → trim_space "hi" ≢ ""
        → ((submit_input "ask1" "n1" "ou_1" "hi" (asking true true)).1 ≡ accepted)
          × ((submit_comment "ask1" "ou_1" "hi" (asking true true)).1 ≡ accepted))
unfolding new_ask
open_accepts_example =
    open_accepts "ask1" "n1" "ou_1" "a" "hi" (some (("a" ∷ []) ∷ [])) (asking true true)
      (new_ask (input true true) "ask1" "n1" 5) found_ask refl refl

-- The hypotheses on a submit hold here.
submit_accepted :
    (submit "ask1" "n1" "ou_1" (some (("a" ∷ []) ∷ [])) (asking true true)).1 ≡ accepted
unfolding new_ask
submit_accepted =
    (open_accepts "ask1" "n1" "ou_1" "a" "hi" (some (("a" ∷ []) ∷ [])) (asking true true)
        (new_ask (input true true) "ask1" "n1" 5) found_ask refl refl).1
      (("a" ∷ []) ∷ []) (inl refl) (inl (λ e. absurd (ground (arith, e)))) ((inl refl, tt), tt)

-- The ask after both toggles.
abbrev shown : InternalAsk
shown =
    let ia = new_ask (input true true) "ask1" "n1" 5 in
    record ia {
      info = record (ia.info) { selections = ("b" ∷ "a" ∷ []) ∷ [] };
      sets = ("b" ∷ "a" ∷ []) ∷ [];
    }

found_shown : lookup "ask1" (run new_broker history).pending ≡ some shown
unfolding run step new_broker set_dispatcher register validate_input validate_questions
    validate_question validate_options has insert lookup toggle find_open question_at option_exists
    toggle_ask flip_key selected index_of materialize_selections new_ask
found_shown = refl

selections_legal_example : IsShown shown
selections_legal_example = selections_legal history "ask1" shown found_shown

taken : (toggle "ask1" "n1" (pos 0) "a" (asking true true)).1 ≡ toggled
unfolding toggle find_open lookup question_at option_exists toggle_ask flip_key selected index_of
    materialize_selections new_ask has
taken = refl

chosen_exist : answers_exist (question false ∷ []) verdict.answers ≡ true
unfolding answers_exist keys_exist option_exists
chosen_exist = refl
