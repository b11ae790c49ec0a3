-- ===== src/Orchestration/Conversations/Mailbox.antt =====
-- What apps/api/src/orchestration/conversation-manager.ts promises: a mailbox that forgets the rows.
-- It knows the conversation of a thread, the participant of a sender, the messages of a conversation
-- from the oldest on, and the metadata of a message by key.
use mathlib.Core.Option
use psychic_octo_invention.Prelude.{
  ℕ, ◌+◌, String, Bool, true, ◌&&◌, not, Option, none, some, List, [], ◌∷◌, ◌++◌, map, reverse,
  find, filter, eqb, ◌==◌, if◌then◌else◌, Text, codes,
}
use psychic_octo_invention.Json.{Json, Fields, get_field}
use psychic_octo_invention.Routing.Types.{Channel, InboundEvent, user, assistant}
use psychic_octo_invention.Orchestration.Prompt.{RecentMessage, last_messages}
use psychic_octo_invention.Orchestration.Conversations.{
  Tables, StoredMessage, same_channel, is_thread, is_member, has_message_id, to_recent,
  resolve_conversation, persist_inbound, persist_outbound, merge_metadata, load_recent_messages,
}

pub record Entry : Type 0 where
  pub id : ℕ
  pub message : RecentMessage

pub record Mailbox : Type 0 where
  pub threads : Channel → String → Option ℕ
  pub members : ℕ → Channel → String → Option ℕ
  pub log : ℕ → List Entry
  pub notes : ℕ → Option (String → Option Json)
  pub next_id : ℕ

-- The uses of the conversation manager, and the passing of time.
pub data Command : Type 0 where
  resolve : InboundEvent → Command
  receive : InboundEvent → ℕ → ℕ → Command
  send : Text → ℕ → Option Fields → Option ℕ → Command
  annotate : ℕ → Fields → Option (Option ℕ) → Command
  recall : ℕ → ℕ → Option ℕ → Command
  wait : ℕ → Command

pub data Answer : Type 0 where
  resolved : ℕ → ℕ → Answer
  stored : ℕ → Answer
  done refused : Answer
  recalled : List RecentMessage → Answer

abbrev pub first_of : {A : Type 0} → Option A → Option A → Option A
first_of none y = y
first_of (some x) y = some x

abbrev pub read : Option Fields → String → Option Json
read none key = none
read (some fs) key = get_field key fs

-- The mailbox's own operations.
abbrev pub thread_of : Option ℕ → InboundEvent → Mailbox → ℕ × Mailbox
thread_of (some id) event box = (id, box)
thread_of none event box = (
  box.next_id,
  record box {
    threads = λ channel thread.
        if same_channel channel event.channel && (event.external_thread_id == thread)
        then some box.next_id
        else box.threads channel thread;
    next_id = box.next_id + 1;
  },
)

abbrev pub open_thread : Option ℕ → InboundEvent → Mailbox → ℕ × Mailbox
open_thread (some id) event box = (id, box)
open_thread none event box =
    thread_of (box.threads event.channel event.external_thread_id) event box

abbrev pub member_of : Option ℕ → ℕ → InboundEvent → Mailbox → ℕ × Mailbox
member_of (some id) conversation_id event box = (id, box)
member_of none conversation_id event box = (
  box.next_id,
  record box {
    members = λ conversation channel sender.
        if eqb conversation_id conversation
          && (same_channel channel event.channel && (event.external_user_id == sender))
        then some box.next_id
        else box.members conversation channel sender;
    next_id = box.next_id + 1;
  },
)

abbrev pub join : InboundEvent → Mailbox → Answer × Mailbox
join event box =
    let (conversation_id, opened) = open_thread event.conversation_id event box in
    let (member_id, after) =
      member_of (opened.members conversation_id event.channel event.external_user_id)
        conversation_id event opened in
    (resolved conversation_id member_id, after)

-- A message at the end of a conversation.
abbrev pub post : ℕ → RecentMessage → Option Fields → Mailbox → Answer × Mailbox
post conversation_id message metadata box = (
  stored box.next_id,
  record box {
    log = λ conversation.
        if eqb conversation_id conversation
        then box.log conversation ++ (record { id = box.next_id; message = message } ∷ [])
        else box.log conversation;
    notes = λ id. if eqb box.next_id id then some (read metadata) else box.notes id;
    next_id = box.next_id + 1;
  },
)

-- The keys of the patch override those of the message.
abbrev pub note : Option (String → Option Json) → ℕ → Fields → Mailbox → Answer × Mailbox
note none message_id patch box = (refused, box)
note (some old) message_id patch box = (
  done,
  record box {
    notes = λ id.
        if eqb message_id id
        then some (λ key. first_of (get_field key patch) (old key))
        else box.notes id;
  },
)

abbrev pub is_kept : Option ℕ → Entry → Bool
is_kept none entry = true
is_kept (some excluded) entry = not (eqb entry.id excluded)

-- The last messages of a conversation, but for the excluded one.
abbrev pub recent : ℕ → ℕ → Option ℕ → Mailbox → List RecentMessage
recent conversation_id limit excluded box =
    last_messages limit (map (λ e. e.message) (filter (is_kept excluded) (box.log conversation_id)))

abbrev pub serve : Command → Mailbox → Answer × Mailbox
serve (resolve event) box = join event box
serve (receive event conversation_id participant_id) box =
    post conversation_id (record { role = user; content = codes event.text }) (some event.metadata)
      box
serve (send content conversation_id metadata token_usage) box =
    post conversation_id (record { role = assistant; content = content }) metadata box
serve (annotate message_id patch token_usage) box = note (box.notes message_id) message_id patch box
serve (recall conversation_id limit excluded) box =
    (recalled (recent conversation_id limit excluded box), box)
serve (wait time) box = (done, box)

-- The answers to a sequence of commands, and the mailbox after it.
abbrev pub serve_all : List Command → Mailbox → List Answer × Mailbox
serve_all [] box = ([], box)
serve_all (c ∷ cs) box =
    let (answer, next) = serve c box in
    let (answers, after) = serve_all cs next in (answer ∷ answers, after)

-- The mailbox that the tables stand for.
abbrev pub to_entry : StoredMessage → Entry
to_entry m = record { id = m.id; message = to_recent m }

abbrev pub is_in : ℕ → StoredMessage → Bool
is_in conversation_id m = eqb m.conversation_id conversation_id

abbrev pub contents : Tables → Mailbox
contents db = record {
  threads =
      λ channel thread. Option.map (λ c. c.id) (find (is_thread channel thread) db.conversations);
  members = λ conversation channel sender.
      Option.map (λ p. p.id) (find (is_member conversation channel sender) db.participants);
  log = λ conversation. reverse (map to_entry (filter (is_in conversation) db.messages));
  notes = λ id. Option.map (λ m. read m.metadata) (find (has_message_id id) db.messages);
  next_id = db.next_id;
}

-- The same commands on the tables, through the code.
abbrev pub noted : Option Tables → Tables → Answer × Tables
noted none db = (refused, db)
noted (some after) db = (done, after)

unfoldable pub perform : Command → Tables → Answer × Tables
perform (resolve event) db =
    let (ids, after) = resolve_conversation event db in (resolved ids.0 ids.1, after)
perform (receive event conversation_id participant_id) db =
    let (id, after) = persist_inbound event conversation_id participant_id db in (stored id, after)
perform (send content conversation_id metadata token_usage) db =
    let (id, after) = persist_outbound content conversation_id metadata token_usage db in
    (stored id, after)
perform (annotate message_id patch token_usage) db =
    noted (merge_metadata message_id patch token_usage db) db
perform (recall conversation_id limit excluded) db =
    (recalled (load_recent_messages conversation_id limit excluded db), db)
perform (wait time) db = (done, record db { now = db.now + time })

unfoldable pub perform_all : List Command → Tables → List Answer × Tables
perform_all [] db = ([], db)
perform_all (c ∷ cs) db =
    let (answer, next) = perform c db in
    let (answers, after) = perform_all cs next in (answer ∷ answers, after)
