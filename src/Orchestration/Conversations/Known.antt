-- ===== src/Orchestration/Conversations/Known.antt =====
-- What a mailbox knows, it never forgets: no operation of
-- apps/api/src/orchestration/conversation-manager.ts changes the conversation of a thread or the
-- participant of a sender.
use psychic_octo_invention.Prelude.{
  ℕ, String, ◌≡◌, refl, sym, ap, ◌∙◌, inl, inr, true, false, ◌&&◌, Option, none, some, List, [],
  ◌∷◌, eqb, eqb→eq, Bool-cases, ◌==◌, eq_iff, eq_refl,
}
use psychic_octo_invention.Json.{Json, Fields}
use psychic_octo_invention.Routing.Types.{Channel, telegram, email, admin_portal, InboundEvent}
use psychic_octo_invention.Orchestration.Conversations.{same_channel}
use psychic_octo_invention.Orchestration.Conversations.Mailbox.{
  Mailbox, Command, resolve, receive, send, annotate, recall, wait, open_thread, thread_of,
  member_of, join, note, serve, serve_all,
}

same_channel-eq : (a b : Channel) → same_channel a b ≡ true → a ≡ b
same_channel-eq telegram telegram h = refl
same_channel-eq email email h = refl
same_channel-eq admin_portal admin_portal h = refl
same_channel-eq telegram email h = absurd (let e = h in cc)
same_channel-eq telegram admin_portal h = absurd (let e = h in cc)
same_channel-eq email telegram h = absurd (let e = h in cc)
same_channel-eq email admin_portal h = absurd (let e = h in cc)
same_channel-eq admin_portal telegram h = absurd (let e = h in cc)
same_channel-eq admin_portal email h = absurd (let e = h in cc)

same_channel_refl : (a : Channel) → same_channel a a ≡ true
same_channel_refl telegram = refl
same_channel_refl email = refl
same_channel_refl admin_portal = refl

-- The test of a thread or a sender accepts its own key, and no other.
same_key :
    (a c : Channel) (s t : String) → (same_channel c a && (s == t)) ≡ true → (c ≡ a) × (s ≡ t)
same_key a c s t h = elim (Bool-cases (same_channel c a)) [
  | inl e ↦ (let f : (s == t) ≡ true = rw e at h in (same_channel-eq c a e, (eq_iff s t).0 f))
  | inr e ↦ absurd (let f : false ≡ true = rw e at h in cc)
]

pub own_key : (a : Channel) (s : String) → (same_channel a a && (s == s)) ≡ true
own_key a s = rw (same_channel_refl a, eq_refl s) refl

-- Nothing that the mailbox knows is forgotten.
pub record IsExtension (box after : Mailbox) : Type 0 where
  pub threads :
      (c : Channel) (t : String) (id : ℕ) → box.threads c t ≡ some id → after.threads c t ≡ some id
  pub members :
      (v : ℕ) (c : Channel) (t : String) (id : ℕ)
      → box.members v c t ≡ some id
      → after.members v c t ≡ some id

pub same_box : (box : Mailbox) → IsExtension box box
same_box box = record { threads = λ c t id h. h; members = λ v c t id h. h }

pub then_after : (a b c : Mailbox) → IsExtension a b → IsExtension b c → IsExtension a c
then_after a b c f g = record {
  threads = λ ch t id h. g.threads ch t id (f.threads ch t id h);
  members = λ v ch t id h. g.members v ch t id (f.members v ch t id h);
}

thread_of-IsExtension :
    (o : Option ℕ) (event : InboundEvent) (box : Mailbox)
    → box.threads event.channel event.external_thread_id ≡ o
    → IsExtension box (thread_of o event box).1
thread_of-IsExtension (some id) event box e = same_box box
thread_of-IsExtension none event box e = record {
  threads = λ c t id known.
      elim (Bool-cases (same_channel c event.channel && (event.external_thread_id == t))) [
        | inr k ↦ rw k known
        | inl k ↦
            let q = same_key event.channel c event.external_thread_id t k in
            absurd (
              let f : box.threads c t ≡ none =
                ap (λ x. box.threads x t) q.0
                ∙ ap (λ x. box.threads event.channel x) (sym q.1)
                ∙ e in
              cc)
      ];
  members = λ v c t id known. known;
}

pub member_of-IsExtension :
    (o : Option ℕ) (v : ℕ) (event : InboundEvent) (box : Mailbox)
    → box.members v event.channel event.external_user_id ≡ o
    → IsExtension box (member_of o v event box).1
member_of-IsExtension (some id) v event box e = same_box box
member_of-IsExtension none v event box e = record {
  threads = λ c t id known. known;
  members = λ w c t id known.
      elim (Bool-cases (same_channel c event.channel && (event.external_user_id == t))) [
        | inr k ↦ elim (Bool-cases (eqb v w)) [ inl n ↦ rw (n, k) known | inr n ↦ rw n known ]
        | inl k ↦ elim (Bool-cases (eqb v w)) [
          | inr n ↦ rw n known
          | inl n ↦
              let q = same_key event.channel c event.external_user_id t k in
              absurd (
                let f : box.members w c t ≡ none =
                  ap (λ x. box.members x c t) (sym (eqb→eq v w n))
                  ∙ ap (λ x. box.members v x t) q.0
                  ∙ ap (λ x. box.members v event.channel x) (sym q.1)
                  ∙ e in
                cc)
        ]
      ];
}

open_thread-IsExtension :
    (o : Option ℕ) (event : InboundEvent) (box : Mailbox)
    → IsExtension box (open_thread o event box).1
open_thread-IsExtension (some id) event box = same_box box
open_thread-IsExtension none event box = thread_of-IsExtension _ event box refl

join-IsExtension : (event : InboundEvent) (box : Mailbox) → IsExtension box (join event box).1
join-IsExtension event box =
    let first = open_thread event.conversation_id event box in
    then_after box first.1 _ (open_thread-IsExtension event.conversation_id event box)
      (member_of-IsExtension _ first.0 event first.1 refl)

note-IsExtension :
    (o : Option (String → Option Json)) (id : ℕ) (patch : Fields) (box : Mailbox)
    → IsExtension box (note o id patch box).1
note-IsExtension none id patch box = same_box box
note-IsExtension (some old) id patch box = record {
  threads = λ c t i h. h;
  members = λ v c t i h. h;
}

serve-IsExtension : (c : Command) (box : Mailbox) → IsExtension box (serve c box).1
serve-IsExtension (resolve event) box = join-IsExtension event box
serve-IsExtension (receive event v p) box = record {
  threads = λ c t i h. h;
  members = λ w c t i h. h;
}
serve-IsExtension (send content v metadata u) box = record {
  threads = λ c t i h. h;
  members = λ w c t i h. h;
}
serve-IsExtension (annotate id patch u) box = note-IsExtension (box.notes id) id patch box
serve-IsExtension (recall v limit excluded) box = same_box box
serve-IsExtension (wait time) box = same_box box

pub serve_all-IsExtension :
    (cs : List Command) (box : Mailbox) → IsExtension box (serve_all cs box).1
serve_all-IsExtension [] box = same_box box
serve_all-IsExtension (c ∷ cs) box =
    then_after box (serve c box).1 _ (serve-IsExtension c box)
      (serve_all-IsExtension cs (serve c box).1)
