-- ===== src/Orchestration/Prompt.antt =====
-- apps/api/src/orchestration/prompt-composer.ts: the messages that the provider is sent. The score of a
-- memory is a natural number; of a recent message its role and content are read.
pub mod Texts
pub mod Laws
pub mod History
use psychic_octo_invention.Prelude.{
  ℕ, ◌+◌, ◌-◌, suc, zero, String, Bool, true, false, not, ◌||◌, ◌&&◌, Option, none, some, List, [],
  ◌∷◌, ◌++◌, map, reverse, Text, codes, length, take, drop, filter, ltb, leb, if◌then◌else◌, ◌==◌,
}
use psychic_octo_invention.Routing.Types.{
  InboundEvent, Attachment, AttachmentType, image, document, audio, video, unknown, ToolDefinition,
  Message, Role, system, user, assistant,
}
use psychic_octo_invention.Orchestration.Prompt.Texts.{
  base_system_prompt, compliance_instructions, channel_context,
}

pub record MemorySnippet : Type 0 where
  pub summary : String
  pub score : ℕ

pub record RecentMessage : Type 0 where
  pub role : Role
  pub content : Text

pub record PromptContext : Type 0 where
  pub system_prompt : Text
  pub memories : List MemorySnippet
  pub recent_messages : List Message
  pub tools : List ToolDefinition

abbrev pub max_system_prompt_chars : ℕ
max_system_prompt_chars = 4000

abbrev pub max_memory_chars : ℕ
max_memory_chars = 2000

abbrev pub max_recent_messages : ℕ
max_recent_messages = 20

abbrev pub max_recent_messages_chars : ℕ
max_recent_messages_chars = 12000

abbrev pub max_channel_context_chars : ℕ
max_channel_context_chars = 500

-- `parts.join(separator)`
abbrev pub join_texts : Text → List Text → Text
join_texts separator [] = []
join_texts separator (x ∷ []) = x
join_texts separator (x ∷ y ∷ xs) = x ++ (separator ++ join_texts separator (y ∷ xs))

abbrev pub line_feed : Text
line_feed = codes "\n"

abbrev pub blank_line : Text
blank_line = codes "\n\n"

-- `sort((a, b) => b.score - a.score)`, which is stable.
abbrev insert_memory : MemorySnippet → List MemorySnippet → List MemorySnippet
insert_memory m [] = m ∷ []
insert_memory m (x ∷ xs) = if leb x.score m.score then m ∷ x ∷ xs else x ∷ insert_memory m xs

abbrev sort_memories : List MemorySnippet → List MemorySnippet
sort_memories [] = []
sort_memories (m ∷ ms) = insert_memory m (sort_memories ms)

-- The loop over the memories, up to the first line that does not fit.
unfoldable pub memory_lines : ℕ → List MemorySnippet → List Text
memory_lines total [] = []
memory_lines total (m ∷ ms) =
    let line = codes "- " ++ codes m.summary in
    let rest = memory_lines (total + length line + 1) ms in
    if ltb max_memory_chars (total + length line) then [] else line ∷ rest

unfoldable pub format_memories : List MemorySnippet → Text
format_memories memories = join_texts line_feed (memory_lines 0 (sort_memories memories))

abbrev is_empty : Text → Bool
is_empty [] = true
is_empty (c ∷ s) = false

abbrev pub memory_heading : Text
memory_heading = codes "Relevant context about this user/conversation:\n"

abbrev pub part_unless : Bool → Text → List Text
part_unless true part = []
part_unless false part = part ∷ []

abbrev pub prompt_parts : Text → Text → List Text
prompt_parts channel memory_block =
    codes base_system_prompt
    ∷ (part_unless (is_empty channel) (take max_channel_context_chars channel)
        ++ (part_unless (is_empty memory_block) (memory_heading ++ memory_block)
            ++ (codes compliance_instructions ∷ [])))

unfoldable pub build_system_prompt : Text → Text → Text
build_system_prompt channel memory_block =
    let full = join_texts blank_line (prompt_parts channel memory_block) in
    if ltb (max_system_prompt_chars + max_memory_chars) (length full)
    then take (max_system_prompt_chars + max_memory_chars) full
    else full

abbrev pub to_message : RecentMessage → Message
to_message m = record {
  role = m.role;
  content = m.content;
  images = 0;
  tool_calls = [];
  tool_call_id = none;
}

-- The messages from the newest to the oldest, up to the first that does not fit.
unfoldable pub within_budget : ℕ → List RecentMessage → List RecentMessage
within_budget total [] = []
within_budget total (m ∷ ms) =
    let rest = within_budget (total + length m.content) ms in
    if ltb max_recent_messages_chars (total + length m.content) then [] else m ∷ rest

-- `messages.slice(-n)`
abbrev pub last_messages : ℕ → List RecentMessage → List RecentMessage
last_messages n messages = drop (length messages - n) messages

-- The window of the history, the oldest message first.
unfoldable pub recent_window : List RecentMessage → List RecentMessage
recent_window messages =
    reverse (within_budget 0 (reverse (last_messages max_recent_messages messages)))

abbrev is_given : Option String → Bool
is_given none = false
is_given (some s) = not (s == "")

abbrev is_image : AttachmentType → Bool
is_image image = true
is_image document = false
is_image audio = false
is_image video = false
is_image unknown = false

-- The images that have a URL or data.
abbrev image_attachments : List Attachment → List Attachment
image_attachments attachments =
    filter (λ a. is_image a.kind && (is_given a.url || is_given a.base64)) attachments

unfoldable pub build_user_message : InboundEvent → Message
build_user_message event = record {
  role = user;
  content = codes event.text;
  images = length (image_attachments event.attachments);
  tool_calls = [];
  tool_call_id = none;
}

unfoldable pub compose_prompt :
    InboundEvent → List MemorySnippet → List RecentMessage → List ToolDefinition → PromptContext
compose_prompt event memories recent_messages tools = record {
  system_prompt =
      build_system_prompt (codes (channel_context event.channel)) (format_memories memories);
  memories = memories;
  recent_messages =
      map to_message (recent_window recent_messages) ++ (build_user_message event ∷ []);
  tools = tools;
}

unfoldable pub context_to_messages : PromptContext → List Message
context_to_messages context =
    record {
      role = system;
      content = context.system_prompt;
      images = 0;
      tool_calls = [];
      tool_call_id = none;
    }
    ∷ context.recent_messages
