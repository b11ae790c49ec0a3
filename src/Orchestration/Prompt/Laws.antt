-- ===== src/Orchestration/Prompt/Laws.antt =====
-- The size of a prompt and what is never cut from it.
use mathlib.Core.List.{append_assoc}
use psychic_octo_invention.Prelude.{
  ℕ, ◌+◌, ◌≤◌, ◌≡◌, refl, sym, ap, ◌∙◌, subst, ◌⊎◌, inl, inr, Bool, true, false, List, [], ◌∷◌,
  ◌++◌, Text, codes, length, length-append, length-take_le, take, ltb, arith, Bool-cases,
}
use psychic_octo_invention.Routing.Types.{InboundEvent, ToolDefinition}
use psychic_octo_invention.Orchestration.Prompt.Texts.{
  base_system_prompt, compliance_instructions, channel_context,
}
use psychic_octo_invention.Orchestration.Prompt.{
  MemorySnippet, RecentMessage, join_texts, line_feed, blank_line, memory_lines, format_memories,
  sort_memories, part_unless, prompt_parts, is_empty, memory_heading, build_system_prompt,
  compose_prompt, max_memory_chars, max_channel_context_chars, max_system_prompt_chars,
}

-- What the parts after the first add to the length of a joined text.
more : Text → List Text → ℕ
more separator [] = 0
more separator (p ∷ ps) = length separator + (length p + more separator ps)

length-join_texts :
    (separator x : Text) (ps : List Text)
    → length (join_texts separator (x ∷ ps)) ≡ length x + more separator ps
unfolding more
length-join_texts separator x [] = omega arith
length-join_texts separator x (p ∷ ps) = omega (
  arith,
  length-append x (separator ++ join_texts separator (p ∷ ps)),
  length-append separator (join_texts separator (p ∷ ps)),
  length-join_texts separator p ps,
)

more-append :
    (separator : Text) (ps qs : List Text)
    → more separator (ps ++ qs) ≡ more separator ps + more separator qs
unfolding more
more-append separator [] qs = omega arith
more-append separator (p ∷ ps) qs = omega (arith, more-append separator ps qs)

more-part_unless :
    (separator : Text) (b : Bool) (part : Text)
    → more separator (part_unless b part) ≤ length separator + length part
unfolding more
more-part_unless separator true part = omega arith
more-part_unless separator false part = omega arith

join_texts-length_le :
    (separator x : Text) (ys : List Text)
    → length (join_texts separator (x ∷ ys))
      ≤ length x + length separator + length (join_texts separator ys)
join_texts-length_le separator x [] = omega arith
join_texts-length_le separator x (y ∷ ys) = omega (
  arith,
  length-append x (separator ++ join_texts separator (y ∷ ys)),
  length-append separator (join_texts separator (y ∷ ys)),
)

step_le :
    (total : ℕ) (line : Text) (rest : List Text)
    → total + length line + 1 + length (join_texts line_feed rest) ≤ max_memory_chars
    → total + length (join_texts line_feed (line ∷ rest)) ≤ max_memory_chars
step_le total line rest h = omega (arith, join_texts-length_le line_feed line rest)

-- Lines are taken while they fit, with their line feeds.
memory_lines-length :
    (total : ℕ) (memories : List MemorySnippet)
    → (memory_lines total memories ≡ [])
      ⊎ (total + length (join_texts line_feed (memory_lines total memories)) ≤ max_memory_chars)
unfolding memory_lines
memory_lines-length total [] = inl refl
memory_lines-length total (m ∷ ms) =
    let line = codes "- " ++ codes m.summary in
    elim (Bool-cases (ltb max_memory_chars (total + length line))) [
      | inl long ↦ rw long (inl refl)
      | inr fits ↦ rw fits (
          inr (elim (memory_lines-length (total + length line + 1) ms) [
            | inl nothing ↦ rw nothing (ground arith)
            | inr le ↦ step_le total line (memory_lines (total + length line + 1) ms) le
          ]))
    ]

format_memories-length :
    (memories : List MemorySnippet) → length (format_memories memories) ≤ max_memory_chars
unfolding format_memories
format_memories-length memories = elim (memory_lines-length 0 (sort_memories memories)) [
  | inl nothing ↦ rw nothing (omega arith)
  | inr le ↦ omega (arith, le)
]

base-length : length (codes base_system_prompt) ≡ 1933
unfolding base_system_prompt
base-length = refl

compliance-length : length (codes compliance_instructions) ≡ 314
unfolding compliance_instructions
compliance-length = refl

-- The parts between the base and the compliance instructions.
abbrev middle_parts : Text → Text → List Text
middle_parts channel block =
    part_unless (is_empty channel) (take max_channel_context_chars channel)
    ++ part_unless (is_empty block) (memory_heading ++ block)

middle-length :
    (channel block : Text)
    → length block ≤ max_memory_chars
    → more blank_line (middle_parts channel block) ≤ 2551
middle-length channel block h = omega (
  arith,
  more-append blank_line (part_unless (is_empty channel) (take max_channel_context_chars channel))
      (part_unless (is_empty block) (memory_heading ++ block)),
  more-part_unless blank_line (is_empty channel) (take max_channel_context_chars channel),
  more-part_unless blank_line (is_empty block) (memory_heading ++ block),
  length-take_le max_channel_context_chars channel,
  length-append memory_heading block,
)

-- The last part of a joined text is kept whole, after the first.
join_texts-last :
    (separator x : Text) (ps : List Text) (last : Text)
    → (between : Text) × (join_texts separator (x ∷ (ps ++ (last ∷ []))) ≡ x ++ (between ++ last))
join_texts-last separator x [] last = (separator, refl)
join_texts-last separator x (p ∷ ps) last =
    let (between, e) = join_texts-last separator p ps last in
    (
      separator ++ (p ++ between),
      ap (λ t. x ++ t)
          (ap (λ t. separator ++ t) (e ∙ sym (append_assoc p between last))
            ∙ sym (append_assoc separator (p ++ between) last)),
    )

abbrev full : Text → Text → Text
full channel block = join_texts blank_line (
    codes base_system_prompt ∷ (middle_parts channel block ++ (codes compliance_instructions ∷ [])))

full-eq :
    (channel block : Text) → join_texts blank_line (prompt_parts channel block) ≡ full channel block
full-eq channel block =
    ap (λ ps. join_texts blank_line (codes base_system_prompt ∷ ps))
      (sym (
        append_assoc (part_unless (is_empty channel) (take max_channel_context_chars channel))
          (part_unless (is_empty block) (memory_heading ++ block))
          (codes compliance_instructions ∷ [])))

full-length :
    (channel block : Text) → length block ≤ max_memory_chars → length (full channel block) ≤ 4800
unfolding more
full-length channel block h = omega (
  arith,
  length-join_texts blank_line (codes base_system_prompt)
      (middle_parts channel block ++ (codes compliance_instructions ∷ [])),
  more-append blank_line (middle_parts channel block) (codes compliance_instructions ∷ []),
  middle-length channel block h,
  base-length,
  compliance-length,
)

build_system_prompt-full :
    (channel block : Text)
    → length block ≤ max_memory_chars
    → build_system_prompt channel block ≡ full channel block
unfolding build_system_prompt
build_system_prompt-full channel block h =
    let fits : ltb (max_system_prompt_chars + max_memory_chars)
          (length (join_texts blank_line (prompt_parts channel block)))
        ≡ false =
      not_longer _ (
        subst (λ t. length t ≤ 4800) (sym (full-eq channel block)) (full-length channel block h)) in
    rw fits (full-eq channel block)
  where
    not_longer : (n : ℕ) → n ≤ 4800 → ltb (max_system_prompt_chars + max_memory_chars) n ≡ false
    not_longer n le = ground arith

-- Whatever is remembered, the system prompt stays below its limit of 6000 code units: it begins with
-- the whole base prompt and ends with the whole compliance instructions, and is at most 4800 long.
pub compose_prompt-system_prompt :
    (event : InboundEvent) (memories : List MemorySnippet) (recent_messages : List RecentMessage)
    (tools : List ToolDefinition)
    → let prompt = (compose_prompt event memories recent_messages tools).system_prompt in
      ((between : Text) × (prompt
          ≡ codes base_system_prompt ++ (between ++ codes compliance_instructions)))
      × (length prompt ≤ 4800)
unfolding compose_prompt
compose_prompt-system_prompt event memories recent_messages tools =
    let channel = codes (channel_context event.channel) in
    let block = format_memories memories in
    let le = format_memories-length memories in
    let e = build_system_prompt-full channel block le in
    let (between, split) =
      join_texts-last blank_line (codes base_system_prompt) (middle_parts channel block)
        (codes compliance_instructions) in
    ((between, e ∙ split), subst (λ t. length t ≤ 4800) (sym e) (full-length channel block le))
