-- ===== src/Orchestration/Conversations/Posts.antt =====
-- `persistMessages` and `loadRecentMessages` of apps/api/src/orchestration/conversation-manager.ts as
-- operations of the mailbox.
use mathlib.Core.List.{reverse-cons}
use mathlib.Core.Option
use psychic_octo_invention.Prelude.{
  ℕ, zero, suc, ◌-◌, String, ◌≡◌, refl, sym, ap, ◌∙◌, inl, inr, Option, none, some, List, [], ◌∷◌,
  ◌++◌, map, reverse, filter, find, take, drop, eqb, Bool-cases, Option-cases, if◌then◌else◌,
  map-reverse, filter-map, filter-reverse, drop-reverse, length-reverse,
}
use psychic_octo_invention.Json.{Fields, get_field}
use psychic_octo_invention.Orchestration.Prompt.{last_messages}
use psychic_octo_invention.Orchestration.Conversations.{
  Tables, StoredMessage, has_message_id, is_recent, metadata_of, to_recent, merge_metadata,
  load_recent_messages, create_message, newest_first, spread, update_message, with_metadata,
  with_messages,
}
use psychic_octo_invention.Orchestration.Conversations.Mailbox.{
  stored, done, first_of, read, post, note, is_kept, recent, to_entry, is_in, contents, noted,
}
use psychic_octo_invention.Orchestration.Conversations.Rows.{
  map-if, IsDescending, newest_first-IsDescending, filter-IsDescending, get_field-spread,
  read-metadata_of, update_message-none, IsUpdate, update_message-IsUpdate,
}
use psychic_octo_invention.Orchestration.Conversations.Joins.{mailbox_ext}

-- A created message is posted.
pub create_message_lem :
    (m : StoredMessage) (db : Tables)
    → m.id ≡ db.next_id
    → (stored db.next_id, contents (create_message m db))
      ≡ post m.conversation_id (to_recent m) m.metadata (contents db)
create_message_lem m db e =
    ap (λ box. (stored db.next_id, box))
      (mailbox_ext _ _ (λ c t. refl) (λ v c t. refl)
        (λ v. elim (Bool-cases (eqb m.conversation_id v)) [
          | inl k ↦ rw k (
              reverse-cons (to_entry m) (map to_entry (filter (is_in v) db.messages))
              ∙ ap (λ id. (contents db).log v ++ (record { id = id; message = to_recent m } ∷ []))
                  e)
          | inr k ↦ rw k refl
        ])
        (λ j.
          map-if (λ x. read x.metadata) (eqb m.id j) m (find (has_message_id j) db.messages)
          ∙ ap (λ id. if eqb id j then some (read m.metadata) else (contents db).notes j) e)
        refl)

-- The condition of the query in two steps.
filter-is_recent :
    (v : ℕ) (excluded : Option ℕ) (ms : List StoredMessage)
    → filter (is_recent v excluded) ms
      ≡ filter (λ m. is_kept excluded (to_entry m)) (filter (is_in v) ms)
filter-is_recent v excluded [] = refl
filter-is_recent v none (m ∷ ms) = elim (Bool-cases (is_in v m)) [
  | inl e ↦ rw e (ap (λ xs. m ∷ xs) (filter-is_recent v none ms))
  | inr e ↦ rw e (filter-is_recent v none ms)
]
filter-is_recent v (some x) (m ∷ ms) = elim (Bool-cases (is_in v m)) [
  | inl e ↦ rw (e, filter-is_recent v (some x) ms) refl
  | inr e ↦ rw e (filter-is_recent v (some x) ms)
]

map-to_entry : (ms : List StoredMessage) → map (λ e. e.message) (map to_entry ms) ≡ map to_recent ms
map-to_entry [] = refl
map-to_entry (m ∷ ms) = ap (λ xs. to_recent m ∷ xs) (map-to_entry ms)

take-map : (n : ℕ) (ms : List StoredMessage) → take n (map to_recent ms) ≡ map to_recent (take n ms)
take-map zero ms = refl
take-map (suc n) [] = refl
take-map (suc n) (m ∷ ms) = ap (λ xs. to_recent m ∷ xs) (take-map n ms)

-- The recent messages are the last of the log.
pub load_recent_messages_lem :
    (v limit : ℕ) (excluded : Option ℕ) (db : Tables)
    → IsDescending db.messages
    → load_recent_messages v limit excluded db ≡ recent v limit excluded (contents db)
unfolding load_recent_messages
load_recent_messages_lem v limit excluded db h =
    let chosen = filter (is_in v) db.messages in
    let kept = filter (λ m. is_kept excluded (to_entry m)) chosen in
    let rows : newest_first (filter (is_recent v excluded) db.messages) ≡ kept =
      newest_first-IsDescending _ (filter-IsDescending (is_recent v excluded) db.messages h)
      ∙ filter-is_recent v excluded db.messages in
    let log : map (λ e. e.message) (filter (is_kept excluded) (reverse (map to_entry chosen)))
        ≡ reverse (map to_recent kept) =
      ap (map (λ e. e.message)) (
        filter-reverse (is_kept excluded) (map to_entry chosen)
        ∙ ap reverse (filter-map (is_kept excluded) to_entry chosen))
      ∙ map-reverse (λ e. e.message) (map to_entry kept)
      ∙ ap reverse (map-to_entry kept) in
    ap (λ xs. map to_recent (reverse (take limit xs))) rows
    ∙ map-reverse to_recent (take limit kept)
    ∙ ap reverse (sym (take-map limit kept))
    ∙ sym (drop-reverse limit (map to_recent kept))
    ∙ ap (λ n. drop (n - limit) (reverse (map to_recent kept)))
        (sym (length-reverse (map to_recent kept)))
    ∙ ap (last_messages limit) (sym log)

module _ (merged : Fields) where
  with_metadata-entry :
      (u : Option (Option ℕ)) (m : StoredMessage) → to_entry (with_metadata merged u m) ≡ to_entry m
  with_metadata-entry none m = refl
  with_metadata-entry (some u) m = refl

  with_metadata-place :
      (u : Option (Option ℕ)) (m : StoredMessage)
      → (with_metadata merged u m).conversation_id ≡ m.conversation_id
  with_metadata-place none m = refl
  with_metadata-place (some u) m = refl

  with_metadata-time :
      (u : Option (Option ℕ)) (m : StoredMessage)
      → (with_metadata merged u m).created_at ≡ m.created_at
  with_metadata-time none m = refl
  with_metadata-time (some u) m = refl

  with_metadata-metadata :
      (u : Option (Option ℕ)) (m : StoredMessage)
      → (with_metadata merged u m).metadata ≡ some merged
  with_metadata-metadata none m = refl
  with_metadata-metadata (some u) m = refl

  pub merged_rows :
      (u : Option (Option ℕ)) (id : ℕ) (ms : List StoredMessage) (m : StoredMessage)
      → find (has_message_id id) ms ≡ some m
      → (ns : List StoredMessage) × (update_message id (with_metadata merged u) ms ≡ some ns)
        × IsUpdate id (with_metadata merged u) m ms ns
  merged_rows u id ms m e =
      update_message-IsUpdate id (with_metadata merged u) (with_metadata-entry u)
        (with_metadata-place u) (with_metadata-time u) ms m e

-- Merging metadata notes the patch, and throws if there is no message of the id.
pub merge_metadata_lem :
    (id : ℕ) (patch : Fields) (token_usage : Option (Option ℕ)) (db : Tables)
    → let (answer, after) = noted (merge_metadata id patch token_usage db) db in
      (answer, contents after) ≡ note ((contents db).notes id) id patch (contents db)
unfolding merge_metadata
merge_metadata_lem id patch token_usage db =
    let found = find (has_message_id id) db.messages in
    let merged = spread (metadata_of found) patch in
    let f = with_metadata merged token_usage in
    elim (Option-cases found) [
      | inl e ↦
          ap (λ o. let (a, after) = noted (with_messages o db) db in (a, contents after))
            (update_message-none id f db.messages e)
          ∙ ap (λ o. note (Option.map (λ m. read m.metadata) o) id patch (contents db)) (sym e)
      | inr (m, e) ↦
          let (ns, eq, u) = merged_rows merged token_usage id db.messages m e in
          let field_of : (key : String)
              → read (f m).metadata key ≡ first_of (get_field key patch) (read m.metadata key) =
            λ key.
              ap (λ o. read o key) (with_metadata-metadata merged token_usage m)
              ∙ get_field-spread key (metadata_of found) patch
              ∙ ap (first_of (get_field key patch))
                  (ap (λ o. get_field key (metadata_of o)) e ∙ read-metadata_of m key) in
          ap (λ o. let (a, after) = noted (with_messages o db) db in (a, contents after)) eq
          ∙ ap (λ box. (done, box))
              (mailbox_ext _ _ (λ c t. refl) (λ v c t. refl) (λ v. ap reverse (u.entries v))
                (λ j.
                  ap (Option.map (λ x. read x.metadata)) (u.found j)
                  ∙ map-if (λ x. read x.metadata) (eqb id j) (f m)
                      (find (has_message_id j) db.messages)
                  ∙ ap (λ g. if eqb id j then some g else (contents db).notes j)
                      (λ i key. field_of key i))
                refl)
          ∙ ap (λ o. note (Option.map (λ x. read x.metadata) o) id patch (contents db)) (sym e)
    ]
