-- ===== src/Orchestration/Conversations/Stable.antt =====
-- Once an event is resolved, `resolveConversation` of apps/api/src/orchestration/conversation-manager.ts
-- gives the same conversation and participant whenever it is asked again.
use psychic_octo_invention.Prelude.{
  ℕ, ◌≡◌, refl, sym, ap, ◌∙◌, subst, inl, inr, true, Option, none, some, List, eqb, arith,
  Option-cases,
}
use psychic_octo_invention.Routing.Types.{InboundEvent}
use psychic_octo_invention.Orchestration.Conversations.{Tables, resolve_conversation}
use psychic_octo_invention.Orchestration.Conversations.Mailbox.{
  Mailbox, Command, Answer, resolved, open_thread, thread_of, member_of, join, serve_all, contents,
  perform_all,
}
use psychic_octo_invention.Orchestration.Conversations.Joins.{resolve_conversation_lem}
use psychic_octo_invention.Orchestration.Conversations.Refine.{
  IsTimely, resolve_conversation-IsTimely, perform_all-refines,
}
use psychic_octo_invention.Orchestration.Conversations.Known.{
  IsExtension, own_key, member_of-IsExtension, serve_all-IsExtension,
}

-- The conversation of an event is known.
abbrev IsThread : Option ℕ → InboundEvent → ℕ → Mailbox → Type 0
IsThread (some id) event v box = id ≡ v
IsThread none event v box = box.threads event.channel event.external_thread_id ≡ some v

abbrev HasJoined : InboundEvent → ℕ → ℕ → Mailbox → Type 0
HasJoined event v p box =
    IsThread event.conversation_id event v box
    × (box.members v event.channel event.external_user_id ≡ some p)

IsThread-IsExtension :
    (o : Option ℕ) (event : InboundEvent) (v : ℕ) (box after : Mailbox)
    → IsExtension box after
    → IsThread o event v box
    → IsThread o event v after
IsThread-IsExtension (some id) event v box after x h = h
IsThread-IsExtension none event v box after x h =
    x.threads event.channel event.external_thread_id v h

open_thread-IsThread :
    (o : Option ℕ) (event : InboundEvent) (box : Mailbox)
    → IsThread o event (open_thread o event box).0 (open_thread o event box).1
open_thread-IsThread (some id) event box = refl
open_thread-IsThread none event box =
    elim (Option-cases (box.threads event.channel event.external_thread_id)) [
      | inl e ↦ rw e (rw (own_key event.channel event.external_thread_id) refl)
      | inr (id, e) ↦ rw e e
    ]

member_of_lem :
    (o : Option ℕ) (v : ℕ) (event : InboundEvent) (box : Mailbox)
    → box.members v event.channel event.external_user_id ≡ o
    → (member_of o v event box).1.members v event.channel event.external_user_id
      ≡ some (member_of o v event box).0
member_of_lem (some id) v event box e = e
member_of_lem none v event box e =
    let same : eqb v v ≡ true = ground arith in
    rw (same, own_key event.channel event.external_user_id) refl

join-HasJoined :
    (event : InboundEvent) (box : Mailbox)
    → let first = open_thread event.conversation_id event box in
      let second =
        member_of
          (first.1.members first.0 event.channel event.external_user_id)
          first.0
          event
          first.1 in
      HasJoined event first.0 second.0 second.1
join-HasJoined event box =
    let first = open_thread event.conversation_id event box in
    (
      IsThread-IsExtension event.conversation_id event first.0 first.1 _
          (member_of-IsExtension _ first.0 event first.1 refl)
          (open_thread-IsThread event.conversation_id event box),
      member_of_lem _ first.0 event first.1 refl,
    )

known_thread :
    (o : Option ℕ) (event : InboundEvent) (v : ℕ) (box : Mailbox)
    → IsThread o event v box
    → open_thread o event box ≡ (v, box)
known_thread (some id) event v box h = ap (λ x. (x, box)) h
known_thread none event v box h = ap (λ o. thread_of o event box) h

-- Joining again changes nothing.
HasJoined-join :
    (event : InboundEvent) (v p : ℕ) (box : Mailbox)
    → HasJoined event v p box
    → join event box ≡ (resolved v p, box)
HasJoined-join event v p box h =
    ap
      (λ x.
        let y = member_of (x.1.members x.0 event.channel event.external_user_id) x.0 event x.1 in
        (resolved x.0 y.0, y.1))
      (known_thread event.conversation_id event v box h.0)
    ∙ ap (λ o. let y = member_of o v event box in (resolved v y.0, y.1)) h.1

HasJoined-IsExtension :
    (event : InboundEvent) (v p : ℕ) (box after : Mailbox)
    → IsExtension box after
    → HasJoined event v p box
    → HasJoined event v p after
HasJoined-IsExtension event v p box after x h = (
  IsThread-IsExtension event.conversation_id event v box after x h.0,
  x.members v event.channel event.external_user_id p h.1,
)

abbrev IsJoined : InboundEvent → Answer × Mailbox → Type 0
IsJoined event (resolved v p, box) = HasJoined event v p box
IsJoined event (_, box) = ⊥

abbrev ids_of : Answer → ℕ × ℕ
ids_of (resolved v p) = (v, p)
ids_of _ = (0, 0)

resolve_conversation-HasJoined :
    (event : InboundEvent) (db : Tables)
    → let (ids, after) = resolve_conversation event db in
      HasJoined event ids.0 ids.1 (contents after)
resolve_conversation-HasJoined event db =
    subst (IsJoined event) (sym (resolve_conversation_lem event db))
      (join-HasJoined event (contents db))

-- Resolve an event, let any sequence of commands follow, and resolve the event again: the second
-- answer is the first, and the conversations, participants, messages and metadata of the mailbox and
-- its next id are the same before and after the second call. The condition is that the messages of
-- the tables stand in the order of their times, which have passed.
pub resolve_conversation-stable :
    (event : InboundEvent) (cs : List Command) (db : Tables)
    → IsTimely db
    → let (ids, joined) = resolve_conversation event db in
      let (answers, later) = perform_all cs joined in
      let (again, after) = resolve_conversation event later in
      (again ≡ ids) × (contents after ≡ contents later)
resolve_conversation-stable event cs db h =
    let (ids, joined) = resolve_conversation event db in
    let later = (perform_all cs joined).1 in
    let timely : IsTimely joined = resolve_conversation-IsTimely event db h in
    let run : contents later ≡ (serve_all cs (contents joined)).1 =
      ap (λ x. x.1) (perform_all-refines cs joined timely) in
    let known : HasJoined event ids.0 ids.1 (contents later) =
      subst (HasJoined event ids.0 ids.1) (sym run) (
        HasJoined-IsExtension event ids.0 ids.1 (contents joined) _
          (serve_all-IsExtension cs (contents joined)) (resolve_conversation-HasJoined event db)) in
    let twice =
      resolve_conversation_lem event later
      ∙ HasJoined-join event ids.0 ids.1 (contents later) known in
    (ap (λ x. ids_of x.0) twice, ap (λ x. x.1) twice)
