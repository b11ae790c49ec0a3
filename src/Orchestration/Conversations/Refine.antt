-- ===== src/Orchestration/Conversations/Refine.antt =====
-- The tables behave as the mailbox of their contents: each operation of
-- apps/api/src/orchestration/conversation-manager.ts in turn, and any sequence of them.
use psychic_octo_invention.Prelude.{
  ℕ, ◌+◌, ◌≡◌, refl, sym, ap, ◌∙◌, subst, inl, inr, Option, none, some, List, [], ◌∷◌, find, All,
  arith, Option-cases,
}
use psychic_octo_invention.Json.{Fields}
use psychic_octo_invention.Routing.Types.{InboundEvent}
use psychic_octo_invention.Orchestration.Conversations.{
  Tables, Conversation, Participant, StoredMessage, is_thread, is_member, has_message_id,
  metadata_of, find_conversation, ensure_participant, resolve_conversation, persist_inbound,
  persist_outbound, merge_metadata, create_message, conversation_of, participant_of, spread,
  with_metadata, with_messages, inbound_message, outbound_message,
}
use psychic_octo_invention.Orchestration.Conversations.Mailbox.{
  Command, resolve, receive, send, annotate, recall, wait, recalled, serve, serve_all, contents,
  noted, perform, perform_all,
}
use psychic_octo_invention.Orchestration.Conversations.Rows.{
  IsBefore, IsDescending, All-IsBefore_later, update_message-none,
}
use psychic_octo_invention.Orchestration.Conversations.Joins.{resolve_conversation_lem}
use psychic_octo_invention.Orchestration.Conversations.Posts.{
  create_message_lem, load_recent_messages_lem, merge_metadata_lem, merged_rows,
}

-- The messages stand in the order of their times, which have passed.
pub record IsTimely (db : Tables) : Type 0 where
  pub passed : All (IsBefore db.now) db.messages
  pub ordered : IsDescending db.messages

-- A step on the tables is the step on their contents.
perform_lem :
    (c : Command) (db : Tables)
    → IsTimely db
    → let (answer, after) = perform c db in (answer, contents after) ≡ serve c (contents db)
unfolding perform persist_inbound persist_outbound
perform_lem (resolve event) db h = resolve_conversation_lem event db
perform_lem (receive event v p) db h = create_message_lem (inbound_message event v p db) db refl
perform_lem (send content v metadata u) db h =
    create_message_lem (outbound_message content v metadata u db) db refl
perform_lem (annotate id patch u) db h = merge_metadata_lem id patch u db
perform_lem (recall v limit excluded) db h =
    ap (λ ms. (recalled ms, contents db)) (load_recent_messages_lem v limit excluded db h.ordered)
perform_lem (wait time) db h = refl

abbrev HasMessagesOf : Tables → Tables → Type 0
HasMessagesOf db after = (after.messages ≡ db.messages) × (after.now ≡ db.now)

HasMessagesOf-IsTimely : (db after : Tables) → HasMessagesOf db after → IsTimely db → IsTimely after
HasMessagesOf-IsTimely db after e h = record {
  passed = rw (e.0, e.1) h.passed;
  ordered = rw e.0 h.ordered;
}

conversation_of-messages :
    (o : Option Conversation) (event : InboundEvent) (db : Tables)
    → HasMessagesOf db (conversation_of o event db).1
conversation_of-messages none event db = (refl, refl)
conversation_of-messages (some c) event db = (refl, refl)

find_conversation-messages :
    (o : Option ℕ) (event : InboundEvent) (db : Tables)
    → HasMessagesOf db (find_conversation o event db).1
unfolding find_conversation
find_conversation-messages none event db =
    conversation_of-messages
      (find (is_thread event.channel event.external_thread_id) db.conversations) event db
find_conversation-messages (some id) event db = (refl, refl)

participant_of-messages :
    (o : Option Participant) (v : ℕ) (event : InboundEvent) (db : Tables)
    → HasMessagesOf db (participant_of o v event db).1
participant_of-messages none v event db = (refl, refl)
participant_of-messages (some p) v event db = (refl, refl)

create_message-IsTimely :
    (m : StoredMessage) (db : Tables)
    → m.created_at ≡ db.now
    → IsTimely db
    → IsTimely (create_message m db)
create_message-IsTimely m db e h = record {
  passed = (omega (arith, e), h.passed);
  ordered = (rw e h.passed, h.ordered);
}

merge_metadata-IsTimely :
    (id : ℕ) (patch : Fields) (u : Option (Option ℕ)) (db : Tables)
    → IsTimely db
    → IsTimely (noted (merge_metadata id patch u db) db).1
unfolding merge_metadata
merge_metadata-IsTimely id patch u db h =
    let found = find (has_message_id id) db.messages in
    let merged = spread (metadata_of found) patch in
    let f = with_metadata merged u in
    let P = λ (o : Option (List StoredMessage)). IsTimely (noted (with_messages o db) db).1 in
    elim (Option-cases found) [
      | inl e ↦ subst P (sym (update_message-none id f db.messages e)) h
      | inr (m, e) ↦
          let (ns, eq, up) = merged_rows merged u id db.messages m e in
          subst P (sym eq)
            (record { passed = up.before db.now h.passed; ordered = up.descending h.ordered })
    ]

pub resolve_conversation-IsTimely :
    (event : InboundEvent) (db : Tables) → IsTimely db → IsTimely (resolve_conversation event db).1
unfolding resolve_conversation ensure_participant
resolve_conversation-IsTimely event db h =
    let first = find_conversation event.conversation_id event db in
    let a = find_conversation-messages event.conversation_id event db in
    let b =
      participant_of-messages
        (find (is_member first.0 event.channel event.external_user_id) first.1.participants) first.0
        event first.1 in
    HasMessagesOf-IsTimely first.1 _ b (HasMessagesOf-IsTimely db first.1 a h)

perform-IsTimely : (c : Command) (db : Tables) → IsTimely db → IsTimely (perform c db).1
unfolding perform persist_inbound persist_outbound
perform-IsTimely (resolve event) db h = resolve_conversation-IsTimely event db h
perform-IsTimely (receive event v p) db h =
    (let t = create_message-IsTimely (inbound_message event v p db) db refl h in
      record { passed = t.passed; ordered = t.ordered })
perform-IsTimely (send content v metadata u) db h =
    create_message-IsTimely (outbound_message content v metadata u db) db refl h
perform-IsTimely (annotate id patch u) db h = merge_metadata-IsTimely id patch u db h
perform-IsTimely (recall v limit excluded) db h = h
perform-IsTimely (wait time) db h = record {
  passed = All-IsBefore_later db.now (db.now + time) db.messages (omega arith) h.passed;
  ordered = h.ordered;
}

-- The code gives to any sequence of commands the answers that the mailbox of its tables gives, and it
-- leaves the tables that stand for the mailbox which is left: an event joins the conversation of its
-- thread or opens one, messages go to the end of their conversation, a patch overrides the metadata
-- of its message or is refused without one, and the recent messages are the last ones of the
-- conversation in the order of time, without the excluded one. The condition is that the messages of
-- the tables stand in the order of their times, which have passed.
pub perform_all-refines :
    (cs : List Command) (db : Tables)
    → IsTimely db
    → let (answers, after) = perform_all cs db in
      (answers, contents after) ≡ serve_all cs (contents db)
unfolding perform_all
perform_all-refines [] db h = refl
perform_all-refines (c ∷ cs) db h =
    let rest = perform_all-refines cs (perform c db).1 (perform-IsTimely c db h) in
    ap (λ x. ((perform c db).0 ∷ x.0, x.1)) rest
    ∙ ap (λ x. let (answers, after) = serve_all cs x.1 in (x.0 ∷ answers, after))
        (perform_lem c db h)
