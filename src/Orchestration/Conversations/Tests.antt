-- ===== src/Orchestration/Conversations/Tests.antt =====
-- Runs of the operations of apps/api/src/orchestration/conversation-manager.ts on one conversation.
use psychic_octo_invention.Prelude.{◌≡◌, refl, none, some, List, [], ◌∷◌, codes, arith}
use psychic_octo_invention.Json.{num, str, field, end}
use psychic_octo_invention.Routing.Types.{InboundEvent, telegram, user, assistant}
use psychic_octo_invention.Orchestration.Conversations.{
  Tables, StoredMessage, inbound, received, active, resolve_conversation, find_conversation,
  ensure_participant, persist_inbound, persist_outbound, merge_metadata, load_recent_messages,
}
use psychic_octo_invention.Orchestration.Conversations.Mailbox.{
  Command, resolve, receive, send, annotate, recall, wait, resolved, stored, done, refused,
  recalled, serve_all, contents, perform, perform_all,
}
use psychic_octo_invention.Orchestration.Conversations.Refine.{IsTimely, perform_all-refines}
use psychic_octo_invention.Orchestration.Conversations.Stable.{resolve_conversation-stable}

abbrev earlier : StoredMessage
earlier = record {
  id = 2;
  conversation_id = 1;
  participant_id = none;
  direction = inbound;
  status = received;
  raw_content = none;
  content = codes "Hello";
  attachments = none;
  metadata = some (field "a" (num 1) end);
  token_usage = none;
  created_at = 5;
}

abbrev tables : Tables
tables = record {
  conversations =
      (record {
        id = 1;
        channel = telegram;
        external_id = some "7";
        status = active;
        metadata = none;
        created_at = 4;
      })
      ∷ [];
  participants = [];
  messages = earlier ∷ [];
  next_id = 3;
  now = 9;
  emitted = [];
}

abbrev event : InboundEvent
event = record {
  channel = telegram;
  external_user_id = "5";
  external_user_name = some "Ann";
  external_thread_id = "7";
  conversation_id = none;
  text = "Hi";
  attachments = [];
  metadata = end;
}

tables-IsTimely : IsTimely tables
tables-IsTimely = record { passed = ((omega arith), tt); ordered = (tt, tt) }

abbrev commands : List Command
commands =
    resolve event
    ∷ receive event 1 3
    ∷ wait 2
    ∷ send (codes "Welcome") 1 none (some 12)
    ∷ annotate 2 (field "b" (str "x") end) none
    ∷ annotate 9 end none
    ∷ recall 1 2 (some 4)
    ∷ []

-- What the code answers.
commands_test :
    (perform_all commands tables).0
    ≡ resolved 1 3
      ∷ stored 4
      ∷ done
      ∷ stored 5
      ∷ done
      ∷ refused
      ∷ recalled (
          (record { role = user; content = codes "Hello" })
          ∷ (record { role = assistant; content = codes "Welcome" })
          ∷ [])
      ∷ []
unfolding perform_all perform resolve_conversation find_conversation ensure_participant
    persist_inbound persist_outbound merge_metadata load_recent_messages
commands_test = refl

perform_all-refines_example :
    ((perform_all commands tables).0, contents (perform_all commands tables).1)
    ≡ serve_all commands (contents tables)
perform_all-refines_example = perform_all-refines commands tables tables-IsTimely

resolve_conversation-stable_example :
    let later = (perform_all commands (resolve_conversation event tables).1).1 in
    ((resolve_conversation event later).0 ≡ (resolve_conversation event tables).0)
    × (contents (resolve_conversation event later).1 ≡ contents later)
resolve_conversation-stable_example =
    resolve_conversation-stable event commands tables tables-IsTimely
