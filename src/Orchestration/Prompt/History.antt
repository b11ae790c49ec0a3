-- ===== src/Orchestration/Prompt/History.antt =====
-- Which of the recent messages a prompt holds.
use mathlib.Core.List.{append_assoc, reverse-cons, reverse-append, reverse-reverse}
use psychic_octo_invention.Prelude.{
  ℕ, ◌+◌, ◌-◌, ◌≤◌, ◌<◌, ◌≡◌, refl, sym, ap, ◌∙◌, ◌⊎◌, inl, inr, List, [], ◌∷◌, ◌++◌, map, reverse,
  length, length-append, length-drop, take-drop, take, ltb, arith, Bool-cases,
}
use psychic_octo_invention.Routing.Types.{InboundEvent, ToolDefinition, Message, system}
use psychic_octo_invention.Orchestration.Prompt.{
  MemorySnippet, RecentMessage, within_budget, last_messages, recent_window, compose_prompt,
  to_message, build_user_message, context_to_messages, max_recent_messages,
  max_recent_messages_chars,
}

-- The code units of the contents.
pub total_chars : List RecentMessage → ℕ
total_chars [] = 0
total_chars (m ∷ ms) = length m.content + total_chars ms

total_chars-append :
    (xs ys : List RecentMessage) → total_chars (xs ++ ys) ≡ total_chars xs + total_chars ys
unfolding total_chars
total_chars-append [] ys = omega arith
total_chars-append (x ∷ xs) ys = omega (arith, total_chars-append xs ys)

total_chars-reverse : (xs : List RecentMessage) → total_chars (reverse xs) ≡ total_chars xs
unfolding total_chars
total_chars-reverse [] = refl
total_chars-reverse (x ∷ xs) =
    rw (reverse-cons x xs)
      (omega (arith, total_chars-append (reverse xs) (x ∷ []), total_chars-reverse xs))

-- How the messages, the newest first, are cut.
record IsCut (total : ℕ) (messages kept : List RecentMessage) : Type 0 where
  rest : List RecentMessage
  split : messages ≡ kept ++ rest
  fits : total ≤ max_recent_messages_chars → total + total_chars kept ≤ max_recent_messages_chars
  full :
      (rest ≡ [])
      ⊎ ((m : RecentMessage) × (older : List RecentMessage) × (rest ≡ m ∷ older)
          × (max_recent_messages_chars < total + total_chars kept + length m.content))

within_budget-IsCut :
    (total : ℕ) (messages : List RecentMessage)
    → IsCut total messages (within_budget total messages)
unfolding within_budget total_chars
within_budget-IsCut total [] = record {
  rest = [];
  split = refl;
  fits = λ h. omega arith;
  full = inl refl;
}
within_budget-IsCut total (m ∷ ms) =
    elim (Bool-cases (ltb max_recent_messages_chars (total + length m.content))) [
      | inl long ↦ rw long (record {
        rest = m ∷ ms;
        split = refl;
        fits = λ h. omega arith;
        full = inr (m, ms, refl, ground arith);
      })
      | inr short ↦
          let c = within_budget-IsCut (total + length m.content) ms in
          rw short (record {
            rest = c.rest;
            split = ap (λ xs. m ∷ xs) c.split;
            fits = λ h. (let le = c.fits (ground arith) in omega arith);
            full = elim c.full [
              | inl e ↦ inl e
              | inr (x, older, e, lt) ↦ inr (x, older, e, omega arith)
            ];
          })
    ]

module _ (recent : List RecentMessage) where
  abbrev last : List RecentMessage
  last = last_messages max_recent_messages recent

  abbrev kept : List RecentMessage
  kept = recent_window recent

  -- The messages that are left out, as the older part of the list.
  record IsWindow : Type 0 where
    earlier : List RecentMessage
    split : recent ≡ earlier ++ kept
    few : length kept ≤ max_recent_messages
    short : total_chars kept ≤ max_recent_messages_chars
    full :
        (kept ≡ last)
        ⊎ ((older : List RecentMessage) × (m : RecentMessage) × (earlier ≡ older ++ (m ∷ []))
            × (max_recent_messages_chars < total_chars kept + length m.content))

  recent_window-IsWindow : IsWindow
  unfolding recent_window
  recent_window-IsWindow =
      let n = length recent - max_recent_messages in
      let c = within_budget-IsCut 0 (reverse last) in
      let newest = within_budget 0 (reverse last) in
      let turned : last ≡ reverse c.rest ++ kept =
        sym (reverse-reverse last) ∙ ap reverse c.split ∙ reverse-append newest c.rest in
      let le : total_chars newest ≤ max_recent_messages_chars =
        (let f = c.fits (omega arith) in omega arith) in
      record {
        earlier = take n recent ++ reverse c.rest;
        split =
            sym (take-drop n recent)
            ∙ ap (λ xs. take n recent ++ xs) turned
            ∙ sym (append_assoc (take n recent) (reverse c.rest) kept);
        few =
            omega
              (arith, length-drop n recent, ap length turned, length-append (reverse c.rest) kept);
        short = rw (total_chars-reverse newest) le;
        full = elim c.full [
          | inl e ↦ inl (sym (turned ∙ ap (λ xs. reverse xs ++ kept) e))
          | inr (m, older, e, lt) ↦ inr (
            take n recent ++ reverse older,
            m,
            ap (λ xs. take n recent ++ xs) (ap reverse e ∙ reverse-cons m older)
                ∙ sym (append_assoc (take n recent) (reverse older) (m ∷ [])),
            rw (total_chars-reverse newest) (omega (arith, lt)),
          )
        ];
      }

  -- A prompt is the system message, a window of the recent messages, and the message of the user. The
  -- window is the newest part of the history: at most 20 messages with at most 12000 code units
  -- together. It holds the whole of the last 20 messages, unless the next older one does not fit.
  pub compose_prompt-history :
      (event : InboundEvent) (memories : List MemorySnippet) (tools : List ToolDefinition)
      → let context = compose_prompt event memories recent tools in
        (first : Message) × (first.role ≡ system)
        × (first.content ≡ context.system_prompt)
        × (earlier kept : List RecentMessage) × (context_to_messages context
            ≡ first ∷ (map to_message kept ++ (build_user_message event ∷ [])))
        × (recent ≡ earlier ++ kept)
        × (length kept ≤ max_recent_messages)
        × (total_chars kept ≤ max_recent_messages_chars)
        × ((kept ≡ last_messages max_recent_messages recent)
            ⊎ ((older : List RecentMessage) × (m : RecentMessage) × (earlier ≡ older ++ (m ∷ []))
                × (max_recent_messages_chars < total_chars kept + length m.content)))
  unfolding compose_prompt context_to_messages
  compose_prompt-history event memories tools =
      let w = recent_window-IsWindow in
      (_, refl, refl, w.earlier, kept, refl, w.split, w.few, w.short, w.full)
