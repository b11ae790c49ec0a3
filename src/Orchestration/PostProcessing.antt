-- ===== src/Orchestration/PostProcessing.antt =====
-- apps/api/src/orchestration/post-processing.ts: the title of a conversation, which a request of its own
-- to the provider makes, and the closing of a conversation. The tables are an argument, and so is the
-- matching of the patterns, which the JavaScript engine does.
use psychic_octo_invention.Prelude.{
  ℕ, String, Bool, false, not, ◌&&◌, ◌||◌, Option, none, some, List, [], ◌∷◌, ◌++◌, Text, codes,
  trim, take, any, ltb, eqb, ◌==◌, if◌then◌else◌,
}
use psychic_octo_invention.Routing.Types.{Message, Role, system, user}
use psychic_octo_invention.Security.Types.{Regex}
use psychic_octo_invention.Orchestration.Types.{LlmRequest, LlmResponse}
use psychic_octo_invention.Orchestration.Tools.Executor.{Outcome, returned, thrown}

-- The columns of a conversation that are read here, and the number of its messages.
pub record ConversationView : Type 0 where
  pub title : Option String
  pub is_closed : Bool
  pub messages : ℕ

-- `none` and `false` stand for an exception.
pub record PostServices (S : Type 0) : Type 0 where
  pub find_conversation : ℕ → S → Option (Option ConversationView) × S
  pub set_title : ℕ → Text → S → Bool × S
  pub set_closed : ℕ → S → Bool × S
  pub test : Regex → Text → Bool

abbrev pub title_model : String
title_model = "google/gemini-2.5-flash"

abbrev pub title_instruction : String
title_instruction =
    "Generate a very short title (max 6 words) summarizing this conversation. Return ONLY the title text, no quotes, no punctuation at the end."

abbrev pub close_intent_patterns : List Regex
close_intent_patterns =
    record { source = "\\bclose\\s+this\\s+conversation\\b"; flags = "i" }
    ∷ record { source = "\\bclosing\\s+this\\s+conversation\\b"; flags = "i" }
    ∷ record { source = "\\bi'?ll\\s+close\\s+this\\b"; flags = "i" }
    ∷ record { source = "\\bconversation\\s+(is\\s+)?(now\\s+)?closed\\b"; flags = "i" }
    ∷ record { source = "\\bmarking\\s+(this\\s+)?(as\\s+)?closed\\b"; flags = "i" }
    ∷ record { source = "\\bclose\\s+this\\s+ticket\\b"; flags = "i" }
    ∷ []

abbrev has_title : Option String → Bool
has_title none = false
has_title (some t) = not (t == "")

-- Whether a title is asked for: of a conversation without one that has two messages.
abbrev pub wants_title : Option (Option ConversationView) → Bool
wants_title none = false
wants_title (some none) = false
wants_title (some (some v)) = not (has_title v.title) && not (ltb v.messages 2)

abbrev plain_message : Role → Text → Message
plain_message role content = record {
  role = role;
  content = content;
  images = 0;
  tool_calls = [];
  tool_call_id = none;
}

-- The request for a title of the message of the user and the reply.
abbrev pub title_request : Text → Text → LlmRequest
title_request user_message assistant_reply = record {
  model = title_model;
  messages =
      plain_message system (codes title_instruction)
      ∷ plain_message user (
          codes "User: "
          ++ (take 500 user_message ++ (codes "\n\nAssistant: " ++ take 500 assistant_reply)))
      ∷ [];
  tools = [];
  max_tokens = some 30;
}

abbrev is_quote : ℕ → Bool
is_quote c = eqb c 34 || eqb c 39

-- `.replace(/^["']|["']$/g, '')`
abbrev without_last_quote : Text → Text
without_last_quote [] = []
without_last_quote (c ∷ []) = if is_quote c then [] else c ∷ []
without_last_quote (c ∷ d ∷ s) = let rest = without_last_quote (d ∷ s) in c ∷ rest

abbrev without_quotes : Text → Text
without_quotes [] = []
without_quotes (c ∷ s) =
    let whole = without_last_quote (c ∷ s) in
    let rest = without_last_quote s in if is_quote c then rest else whole

abbrev pub title_of : Text → Text
title_of content = take 100 (without_quotes (trim content))

module _ {S : Type 0} (complete : List LlmRequest → LlmRequest → Outcome LlmResponse)
    (services : PostServices S) where
  -- An empty title is not stored.
  abbrev pub store_title : ℕ → Text → S → S
  store_title id [] state = state
  store_title id (c ∷ s) state = (services.set_title id (c ∷ s) state).1

  abbrev pub save_title : ℕ → Outcome LlmResponse → S → S
  save_title id (returned response) state = store_title id (title_of response.content) state
  save_title id (thrown message) state = state

  -- The requests that are sent, which is at most one, and the tables.
  unfoldable pub maybe_generate_title : List LlmRequest → ℕ → Text → Text → S → List LlmRequest × S
  maybe_generate_title earlier id user_message assistant_reply state =
      let (found, after) = services.find_conversation id state in
      let request = title_request user_message assistant_reply in
      if wants_title found
      then (request ∷ [], save_title id (complete earlier request) after)
      else ([], after)

  abbrev pub close_found : ℕ → Option (Option ConversationView) → S → Bool × S
  close_found id none state = (false, state)
  close_found id (some none) state = (false, state)
  close_found id (some (some v)) state =
      if v.is_closed then (false, state) else services.set_closed id state

  -- Whether the conversation was closed, and the tables.
  unfoldable pub maybe_close_conversation : ℕ → Text → S → Bool × S
  maybe_close_conversation id assistant_reply state =
      let (found, after) = services.find_conversation id state in
      if any (λ p. services.test p assistant_reply) close_intent_patterns
      then close_found id found after
      else (false, state)

  -- The title first, and then the closing; the code starts both and waits for neither.
  unfoldable pub post_process : List LlmRequest → ℕ → Text → Text → S → List LlmRequest × S
  post_process earlier id user_message assistant_reply state =
      let (requests, titled) = maybe_generate_title earlier id user_message assistant_reply state in
      (requests, (maybe_close_conversation id assistant_reply titled).1)
