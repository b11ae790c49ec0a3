-- ===== src/Orchestration/Conversations/Joins.antt =====
-- `resolveConversation` of apps/api/src/orchestration/conversation-manager.ts as an operation of the
-- mailbox.
use mathlib.Core.Option
use psychic_octo_invention.Prelude.{
  ℕ, String, ◌≡◌, refl, ap, ◌∙◌, ◌&&◌, Option, none, some, find, eqb, ◌==◌,
}
use psychic_octo_invention.Routing.Types.{Channel, InboundEvent}
use psychic_octo_invention.Orchestration.Conversations.{
  Tables, Conversation, Participant, same_channel, is_thread, is_member, find_conversation,
  ensure_participant, resolve_conversation, conversation_of, participant_of,
}
use psychic_octo_invention.Orchestration.Conversations.Mailbox.{
  Mailbox, resolved, open_thread, thread_of, member_of, join, contents,
}
use psychic_octo_invention.Orchestration.Conversations.Rows.{map-if}

-- Mailboxes that answer all questions alike are equal.
pub mailbox_ext :
    (a b : Mailbox)
    → ((c : Channel) (t : String) → a.threads c t ≡ b.threads c t)
    → ((v : ℕ) (c : Channel) (t : String) → a.members v c t ≡ b.members v c t)
    → ((v : ℕ) → a.log v ≡ b.log v)
    → ((j : ℕ) → a.notes j ≡ b.notes j)
    → a.next_id ≡ b.next_id
    → a ≡ b
mailbox_ext a b ts ms ls ns e i = record {
  threads = λ c t. ts c t i;
  members = λ v c t. ms v c t i;
  log = λ v. ls v i;
  notes = λ j. ns j i;
  next_id = e i;
}

-- Finding or opening the conversation.
conversation_of_lem :
    (o : Option Conversation) (event : InboundEvent) (db : Tables)
    → let (id, after) = conversation_of o event db in
      (id, contents after) ≡ thread_of (Option.map (λ c. c.id) o) event (contents db)
conversation_of_lem (some c) event db = refl
conversation_of_lem none event db =
    ap (λ box. (db.next_id, box))
      (mailbox_ext _ _
        (λ c t.
          map-if (λ x. x.id) (same_channel c event.channel && (event.external_thread_id == t)) _
            (find (is_thread c t) db.conversations))
        (λ v c t. refl) (λ v. refl) (λ j. refl) refl)

find_conversation_lem :
    (o : Option ℕ) (event : InboundEvent) (db : Tables)
    → let (id, after) = find_conversation o event db in
      (id, contents after) ≡ open_thread o event (contents db)
unfolding find_conversation
find_conversation_lem (some id) event db = refl
find_conversation_lem none event db =
    conversation_of_lem (find (is_thread event.channel event.external_thread_id) db.conversations)
      event db

participant_of_lem :
    (o : Option Participant) (v : ℕ) (event : InboundEvent) (db : Tables)
    → let (id, after) = participant_of o v event db in
      (id, contents after) ≡ member_of (Option.map (λ p. p.id) o) v event (contents db)
participant_of_lem (some p) v event db = refl
participant_of_lem none v event db =
    ap (λ box. (db.next_id, box))
      (mailbox_ext _ _ (λ c t. refl)
        (λ w c t.
          map-if (λ x. x.id)
            (eqb v w && (same_channel c event.channel && (event.external_user_id == t))) _
            (find (is_member w c t) db.participants))
        (λ v. refl) (λ j. refl) refl)

-- Resolving an event joins its conversation.
pub resolve_conversation_lem :
    (event : InboundEvent) (db : Tables)
    → let (ids, after) = resolve_conversation event db in
      (resolved ids.0 ids.1, contents after) ≡ join event (contents db)
unfolding resolve_conversation ensure_participant
resolve_conversation_lem event db =
    let first = find_conversation event.conversation_id event db in
    let opened : (first.0, contents first.1)
        ≡ open_thread event.conversation_id event (contents db) =
      find_conversation_lem event.conversation_id event db in
    let entered =
      participant_of_lem
        (find (is_member first.0 event.channel event.external_user_id) first.1.participants) first.0
        event first.1 in
    ap (λ x. (resolved first.0 x.0, x.1)) entered
    ∙ ap
        (λ x.
          let y = member_of (x.1.members x.0 event.channel event.external_user_id) x.0 event x.1 in
          (resolved x.0 y.0, y.1))
        opened
