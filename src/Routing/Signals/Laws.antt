-- ===== src/Routing/Signals/Laws.antt =====
-- How the signals of an event follow from its text, its attachments and the tools at hand.
use psychic_octo_invention.Prelude.{
  ◌≤◌, ◌<◌, ◌≡◌, Bool, false, List, [], arith, String, text_length, to_lower_case, codes,
}
use psychic_octo_invention.Routing.Types.{low, high, InboundEvent, ToolDefinition}
use psychic_octo_invention.Routing.Signals.{
  is_high_keyword, estimate_complexity, detect_tool_use_need, analyze_signals, non_empty,
}

-- A text of more than 1500 code units is complex, whatever it says.
estimate_complexity-long :
    (text : String) (has_attachments : Bool)
    → 1500 < text_length text
    → estimate_complexity text has_attachments ≡ high
unfolding estimate_complexity
estimate_complexity-long text a h = ground arith

-- A text of low complexity is short, comes without attachments and has none of the keywords.
estimate_complexity-low :
    (text : String) (has_attachments : Bool)
    → estimate_complexity text has_attachments ≡ low
    → (text_length text ≤ 200)
      × (has_attachments ≡ false)
      × (is_high_keyword (to_lower_case (codes text)) ≡ false)
unfolding estimate_complexity
estimate_complexity-low text a h = ground arith

module _ (event : InboundEvent) where
  pub analyze_signals-long :
      (tools : List ToolDefinition)
      → 1500 < text_length event.text
      → (analyze_signals event tools).estimated_complexity ≡ high
  unfolding analyze_signals
  analyze_signals-long tools h = estimate_complexity-long event.text _ h

  pub analyze_signals-low :
      (tools : List ToolDefinition)
      → (analyze_signals event tools).estimated_complexity ≡ low
      → (text_length event.text ≤ 200)
        × (event.attachments ≡ [])
        × (is_high_keyword (to_lower_case (codes event.text)) ≡ false)
  unfolding analyze_signals
  analyze_signals-low tools h =
      ground (arith, estimate_complexity-low event.text (non_empty event.attachments))

  -- Without tools no message is taken to need one.
  analyze_signals-no_tools : (analyze_signals event []).requires_tool_use ≡ false
  unfolding analyze_signals detect_tool_use_need
  analyze_signals-no_tools = ground arith
