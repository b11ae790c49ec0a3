-- ===== src/Routing/Signals.antt =====
-- `analyzeSignals` of apps/api/src/services/routing/model-router.ts and the heuristics it calls.
pub mod Laws
use psychic_octo_invention.Prelude.{
  ℕ, String, Bool, true, false, not, ◌&&◌, ◌||◌, Option, none, some, List, [], ◌∷◌, Text, codes,
  text_length, text_includes, to_lower_case, starts_with, ltb, any, length, if◌then◌else◌, ◌==◌,
}
use psychic_octo_invention.Routing.Types.{
  Complexity, low, medium, high, AttachmentType, image, document, audio, video, unknown, Attachment,
  InboundEvent, RoutingSignals, ToolDefinition,
}
use psychic_octo_invention.Routing.Phrases.{
  Phrase, lit, one_of, maybe_of, words, test_words, test_words_then,
}

abbrev pub short_message_chars : ℕ
short_message_chars = 200

abbrev pub long_message_chars : ℕ
long_message_chars = 1500

abbrev pub ghl_crm_tool_name : String
ghl_crm_tool_name = "ghl_crm"

abbrev pub bookkeeping_tool_name : String
bookkeeping_tool_name = "bookkeeping_receipt"

abbrev pub followup_tool_name : String
followup_tool_name = "lead_followup"

-- `BOOKKEEPING_CATEGORY_PATTERN`: the categories in lower case, as literal phrases.
abbrev bookkeeping_category_phrases : List Phrase
bookkeeping_category_phrases = words (
    "office supplies" ∷ "travel" ∷ "client meals" ∷ "team meals" ∷ "software & subscriptions"
    ∷ "marketing" ∷ "utilities" ∷ "professional services" ∷ "equipment" ∷ "shipping"
    ∷ "miscellaneous" ∷ [])

-- `highComplexityPatterns`: a message that matches one of the four matches their union.
unfoldable pub is_high_keyword : Text → Bool
is_high_keyword lower =
    test_words
      ((lit "step" ∷ one_of "- " ∷ lit "by" ∷ one_of "- " ∷ lit "step" ∷ [])
        ∷ words
            ("analyze" ∷ "compare" ∷ "explain why" ∷ "reasoning" ∷ "calculate" ∷ "evaluate" ∷ []))
      lower
    || test_words
        ((lit "trade" ∷ maybe_of "- " ∷ lit "offs" ∷ [])
          ∷ words ("pros and cons" ∷ "implications" ∷ "consequences" ∷ []))
        lower
    || test_words (words ("write a" ∷ "draft a" ∷ "create a" ∷ "design a" ∷ "plan for" ∷ [])) lower
    || test_words (words ("code" ∷ "function" ∷ "algorithm" ∷ "debug" ∷ "refactor" ∷ [])) lower

unfoldable pub estimate_complexity : String → Bool → Complexity
estimate_complexity text has_attachments =
    let is_high = is_high_keyword (to_lower_case (codes text)) in
    if ltb long_message_chars (text_length text)
      || (is_high && ltb short_message_chars (text_length text))
    then high
    else if has_attachments || ltb short_message_chars (text_length text) || is_high
    then medium
    else low

-- Detect if the message likely needs iterative follow-up.
unfoldable pub detect_follow_up_need : String → Bool
detect_follow_up_need text =
    test_words (words ("help me" ∷ "walk me through" ∷ "can you" ∷ "how do i" ∷ "what should" ∷ []))
      (to_lower_case (codes text))

abbrev pub has_tool : List ToolDefinition → String → Bool
has_tool tools name = any (λ tool. tool.name == name) tools

-- The wording for which a CRM, bookkeeping or follow-up tool is wanted.
unfoldable pub ghl_crm_wording : Text → Bool
ghl_crm_wording lower =
    test_words
      (words (
        "crm" ∷ "contact" ∷ "lead" ∷ "pipeline" ∷ "opportunity" ∷ "update contact"
        ∷ "search contact" ∷ []))
      lower
    || test_words_then (words ("update" ∷ "change" ∷ "set" ∷ []))
        (words (
          "phone" ∷ "phone number" ∷ "email" ∷ "address" ∷ "city" ∷ "state" ∷ "postal code" ∷ "zip"
          ∷ "website" ∷ "tag" ∷ []))
        lower

unfoldable pub bookkeeping_wording : Text → Bool
bookkeeping_wording lower =
    test_words
      (words ("receipt" ∷ "bookkeeping" ∷ "expense" ∷ "categorize" ∷ "category" ∷ "invoice" ∷ []))
      lower
    || test_words bookkeeping_category_phrases lower

unfoldable pub followup_wording : Text → Bool
followup_wording lower =
    test_words
      ((lit "follow" ∷ maybe_of "- " ∷ lit "up" ∷ [])
        ∷ (lit "check" ∷ maybe_of "- " ∷ lit "in" ∷ [])
        ∷ words ("stale lead" ∷ "remind" ∷ "reschedule" ∷ []))
      lower

unfoldable pub explicit_wording : Text → Bool
explicit_wording lower = test_words (words ("use tool" ∷ "run tool" ∷ "call tool" ∷ [])) lower

unfoldable pub detect_tool_use_need : String → List ToolDefinition → Bool → Bool
detect_tool_use_need text [] has_attachments = false
detect_tool_use_need text (t ∷ ts) has_attachments =
    let tools : List ToolDefinition = t ∷ ts in
    let lower = to_lower_case (codes text) in
    if has_attachments && has_tool tools bookkeeping_tool_name
    then true
    else if has_tool tools ghl_crm_tool_name && ghl_crm_wording lower
    then true
    else if has_tool tools bookkeeping_tool_name && bookkeeping_wording lower
    then true
    else if has_tool tools followup_tool_name && followup_wording lower
    then true
    else if explicit_wording lower
    then true
    else any (λ tool. text_includes lower (to_lower_case (codes tool.name))) tools

abbrev is_image : AttachmentType → Bool
is_image image = true
is_image document = false
is_image audio = false
is_image video = false
is_image unknown = false

abbrev image_mime : Option String → Bool
image_mime none = false
image_mime (some m) = starts_with (codes m) (codes "image/")

abbrev pub shows_image : Attachment → Bool
shows_image a = is_image a.kind || image_mime a.mime_type

abbrev non_empty {ℓ} : {A : Type ℓ} → List A → Bool
non_empty [] = false
non_empty (x ∷ xs) = true

unfoldable pub analyze_signals : InboundEvent → List ToolDefinition → RoutingSignals
analyze_signals event tools =
    let has_attachments = non_empty event.attachments in
    record {
      message_length = text_length event.text;
      has_attachments = has_attachments;
      requires_vision = any shows_image event.attachments;
      requires_tool_use = detect_tool_use_need event.text tools has_attachments;
      estimated_complexity = estimate_complexity event.text has_attachments;
      has_follow_up_need = detect_follow_up_need event.text;
    }
