-- ===== src/Orchestration/Conversations.antt =====
-- The tables of conversations, participants and messages (prisma/schema.prisma), and what
-- apps/api/src/orchestration/conversation-manager.ts does with them. Each table has the newest row
-- first; the server-sent events are kept in the order in which they are emitted.
pub mod Mailbox
pub mod Rows
pub mod Joins
pub mod Posts
pub mod Refine
pub mod Known
pub mod Stable
mod Tests
use psychic_octo_invention.Prelude.{
  ℕ, ◌+◌, String, Bool, true, false, ◌&&◌, not, Option, none, some, List, [], ◌∷◌, ◌++◌, map,
  reverse, find, filter, take, ltb, eqb, ◌==◌, if◌then◌else◌, Text, codes,
}
use psychic_octo_invention.Json.{Json, Fields, end, field}
use psychic_octo_invention.Routing.Types.{
  Channel, telegram, email, admin_portal, InboundEvent, Attachment, Role, user, assistant,
}
use psychic_octo_invention.Orchestration.Prompt.{RecentMessage}

pub data ConversationStatus : Type 0 where
  active archived closed : ConversationStatus

pub data MessageDirection : Type 0 where
  inbound outbound : MessageDirection

pub data MessageStatus : Type 0 where
  pending sent delivered failed received : MessageStatus

pub record Conversation : Type 0 where
  pub id : ℕ
  pub channel : Channel
  pub external_id : Option String
  pub status : ConversationStatus
  pub metadata : Option Fields
  pub created_at : ℕ

pub record Participant : Type 0 where
  pub id : ℕ
  pub conversation_id : ℕ
  pub external_id : Option String
  pub channel : Channel
  pub display_name : Option String
  pub created_at : ℕ

pub record StoredMessage : Type 0 where
  pub id : ℕ
  pub conversation_id : ℕ
  pub participant_id : Option ℕ
  pub direction : MessageDirection
  pub status : MessageStatus
  pub raw_content : Option Text
  pub content : Text
  pub attachments : Option (List Attachment)
  pub metadata : Option Fields
  pub token_usage : Option ℕ
  pub created_at : ℕ

pub data SseEvent : Type 0 where
  conversation_new : ℕ → Channel → ℕ → SseEvent
  conversation_message : ℕ → ℕ → MessageDirection → Text → Channel → ℕ → SseEvent

-- The tables, the next id that the database makes, its clock and the emitted events.
pub record Tables : Type 0 where
  pub conversations : List Conversation
  pub participants : List Participant
  pub messages : List StoredMessage
  pub next_id : ℕ
  pub now : ℕ
  pub emitted : List SseEvent

abbrev pub same_channel : Channel → Channel → Bool
same_channel telegram telegram = true
same_channel email email = true
same_channel admin_portal admin_portal = true
same_channel _ _ = false

-- A nullable column against a text.
abbrev pub is_text : String → Option String → Bool
is_text s none = false
is_text s (some t) = t == s

-- `where: { channel_externalId }`
abbrev pub is_thread : Channel → String → Conversation → Bool
is_thread channel external_id c =
    same_channel channel c.channel && is_text external_id c.external_id

-- `where: { conversationId_channel_externalId }`
abbrev pub is_member : ℕ → Channel → String → Participant → Bool
is_member conversation_id channel external_id p =
    eqb p.conversation_id conversation_id
    && (same_channel channel p.channel && is_text external_id p.external_id)

abbrev pub new_conversation : InboundEvent → ℕ → ℕ → Conversation
new_conversation event id now = record {
  id = id;
  channel = event.channel;
  external_id = some event.external_thread_id;
  status = active;
  metadata = some event.metadata;
  created_at = now;
}

abbrev pub new_participant : ℕ → InboundEvent → ℕ → ℕ → Participant
new_participant conversation_id event id now = record {
  id = id;
  conversation_id = conversation_id;
  external_id = some event.external_user_id;
  channel = event.channel;
  display_name = event.external_user_name;
  created_at = now;
}

-- The id of the participant, and the tables.
abbrev pub participant_of : Option Participant → ℕ → InboundEvent → Tables → ℕ × Tables
participant_of (some existing) conversation_id event db = (existing.id, db)
participant_of none conversation_id event db = (
  db.next_id,
  record db {
    participants = new_participant conversation_id event db.next_id db.now ∷ db.participants;
    next_id = db.next_id + 1;
  },
)

unfoldable pub ensure_participant : ℕ → InboundEvent → Tables → ℕ × Tables
ensure_participant conversation_id event db =
    participant_of
      (find (is_member conversation_id event.channel event.external_user_id) db.participants)
      conversation_id event db

-- The id of the conversation of an event that names none, and the tables.
abbrev pub conversation_of : Option Conversation → InboundEvent → Tables → ℕ × Tables
conversation_of (some existing) event db = (existing.id, db)
conversation_of none event db = (
  db.next_id,
  record db {
    conversations = new_conversation event db.next_id db.now ∷ db.conversations;
    next_id = db.next_id + 1;
    emitted = db.emitted ++ (conversation_new db.next_id event.channel db.now ∷ []);
  },
)

unfoldable pub find_conversation : Option ℕ → InboundEvent → Tables → ℕ × Tables
find_conversation (some id) event db = (id, db)
find_conversation none event db =
    conversation_of (find (is_thread event.channel event.external_thread_id) db.conversations) event
      db

-- The ids of the conversation and the participant, and the tables.
unfoldable pub resolve_conversation : InboundEvent → Tables → (ℕ × ℕ) × Tables
resolve_conversation event db =
    let (conversation_id, found) = find_conversation event.conversation_id event db in
    let (participant_id, after) = ensure_participant conversation_id event found in
    ((conversation_id, participant_id), after)

abbrev unless_empty : List Attachment → Option (List Attachment)
unless_empty [] = none
unless_empty (a ∷ attachments) = some (a ∷ attachments)

-- `message.create({ data })`
abbrev pub create_message : StoredMessage → Tables → Tables
create_message message db = record db { messages = message ∷ db.messages; next_id = db.next_id + 1 }

abbrev pub inbound_message : InboundEvent → ℕ → ℕ → Tables → StoredMessage
inbound_message event conversation_id participant_id db = record {
  id = db.next_id;
  conversation_id = conversation_id;
  participant_id = some participant_id;
  direction = inbound;
  status = received;
  raw_content = some (codes event.text);
  content = codes event.text;
  attachments = unless_empty event.attachments;
  metadata = some event.metadata;
  token_usage = none;
  created_at = db.now;
}

-- The id of the stored message, and the tables.
unfoldable pub persist_inbound : InboundEvent → ℕ → ℕ → Tables → ℕ × Tables
persist_inbound event conversation_id participant_id db = (
  db.next_id,
  record (create_message (inbound_message event conversation_id participant_id db) db) {
    emitted =
        db.emitted
        ++ (conversation_message conversation_id db.next_id inbound (take 200 (codes event.text))
              event.channel db.now
            ∷ []);
  },
)

abbrev pub outbound_message : Text → ℕ → Option Fields → Option ℕ → Tables → StoredMessage
outbound_message content conversation_id metadata token_usage db = record {
  id = db.next_id;
  conversation_id = conversation_id;
  participant_id = none;
  direction = outbound;
  status = pending;
  raw_content = none;
  content = content;
  attachments = none;
  metadata = metadata;
  token_usage = token_usage;
  created_at = db.now;
}

unfoldable pub persist_outbound : Text → ℕ → Option Fields → Option ℕ → Tables → ℕ × Tables
persist_outbound content conversation_id metadata token_usage db = (
  db.next_id,
  create_message (outbound_message content conversation_id metadata token_usage db) db,
)

-- `record[key] = value`; the JSON column keeps no order of keys.
abbrev pub set_field : String → Json → Fields → Fields
set_field key value end = field key value end
set_field key value (field k v fs) =
    if k == key then field k value fs else field k v (set_field key value fs)

-- `{ ...existing, ...patch }`
abbrev pub spread : Fields → Fields → Fields
spread existing end = existing
spread existing (field k v patch) = set_field k v (spread existing patch)

-- `existing?.metadata ?? {}`
abbrev pub metadata_of : Option StoredMessage → Fields
metadata_of none = end
metadata_of (some m) = elim m.metadata [ none ↦ end | some fs ↦ fs ]

abbrev pub has_message_id : ℕ → StoredMessage → Bool
has_message_id id m = eqb m.id id

-- A token usage that is undefined is left alone.
abbrev pub with_metadata : Fields → Option (Option ℕ) → StoredMessage → StoredMessage
with_metadata merged none m = record m { metadata = some merged }
with_metadata merged (some token_usage) m = record m {
  metadata = some merged;
  token_usage = token_usage;
}

-- `message.update({ where: { id }, data })`, which throws without a row of the id.
abbrev pub update_message :
    ℕ → (StoredMessage → StoredMessage) → List StoredMessage → Option (List StoredMessage)
update_message id f [] = none
update_message id f (m ∷ ms) =
    let rest = update_message id f ms in
    if eqb m.id id then some (f m ∷ ms) else elim rest [ none ↦ none | some ns ↦ some (m ∷ ns) ]

abbrev pub with_messages : Option (List StoredMessage) → Tables → Option Tables
with_messages none db = none
with_messages (some messages) db = some (record db { messages = messages })

unfoldable pub merge_metadata : ℕ → Fields → Option (Option ℕ) → Tables → Option Tables
merge_metadata message_id patch token_usage db =
    let merged = spread (metadata_of (find (has_message_id message_id) db.messages)) patch in
    with_messages (update_message message_id (with_metadata merged token_usage) db.messages) db

-- `orderBy: { createdAt: 'desc' }`; of two rows of one time, the one that the table has first.
abbrev pub insert_newest : StoredMessage → List StoredMessage → List StoredMessage
insert_newest m [] = m ∷ []
insert_newest m (x ∷ xs) =
    if ltb m.created_at x.created_at then x ∷ insert_newest m xs else m ∷ x ∷ xs

abbrev pub newest_first : List StoredMessage → List StoredMessage
newest_first [] = []
newest_first (m ∷ ms) = insert_newest m (newest_first ms)

-- `where: { conversationId, id: { not: excludeMessageId } }`
abbrev pub is_recent : ℕ → Option ℕ → StoredMessage → Bool
is_recent conversation_id none m = eqb m.conversation_id conversation_id
is_recent conversation_id (some excluded) m =
    eqb m.conversation_id conversation_id && not (eqb m.id excluded)

abbrev pub role_of : MessageDirection → Role
role_of inbound = user
role_of outbound = assistant

abbrev pub to_recent : StoredMessage → RecentMessage
to_recent m = record { role = role_of m.direction; content = m.content }

unfoldable pub load_recent_messages : ℕ → ℕ → Option ℕ → Tables → List RecentMessage
load_recent_messages conversation_id limit exclude_message_id db = map to_recent (
    reverse (
      take limit
        (newest_first (filter (is_recent conversation_id exclude_message_id) db.messages))))
