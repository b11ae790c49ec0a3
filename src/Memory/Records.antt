-- ===== src/Memory/Records.antt =====
-- The memory table (prisma/schema.prisma), `upsert` and `exists` of
-- apps/api/src/repositories/memory.repository.ts, and the loop of `extractAndStoreMemories` of
-- apps/api/src/services/memory/memory.service.ts on the facts of an exchange.
pub mod Laws
use psychic_octo_invention.Prelude.{
  ℕ, ◌+◌, String, Bool, true, false, ◌&&◌, Option, none, some, List, [], ◌∷◌, any, find, leb, ltb,
  eqb, ◌==◌, if◌then◌else◌,
}
use psychic_octo_invention.Json.{Json}
use psychic_octo_invention.Memory.Facts.{MemoryFact}

-- The newest record stands first.
pub record MemoryRecord : Type 0 where
  pub id : ℕ
  pub namespace : String
  pub subject_key : String
  pub value : Json
  pub summary : Option String
  pub score : Option ℕ
  pub source_conversation_id : Option String
  pub source_message_id : Option String
  pub expires_at : Option ℕ

pub record MemoryStore : Type 0 where
  pub records : List MemoryRecord
  pub next_id : ℕ

-- `where: { namespace, subjectKey }`
abbrev pub is_at : String → String → MemoryRecord → Bool
is_at namespace subject_key r = (r.namespace == namespace) && (r.subject_key == subject_key)

unfoldable pub exists : String → String → MemoryStore → Bool
exists namespace subject_key store = any (is_at namespace subject_key) store.records

-- `score ?? 0`
abbrev pub score_of : MemoryRecord → ℕ
score_of r = elim r.score [ none ↦ 0 | some n ↦ n ]

-- A field that the fact leaves undefined is left alone by the update.
abbrev or_kept {ℓ} : {A : Type ℓ} → Option A → Option A → Option A
or_kept none old = old
or_kept (some new) old = some new

-- The data of the update.
abbrev pub overwrite : MemoryFact → MemoryRecord → MemoryRecord
overwrite fact r = record r {
  value = fact.value;
  summary = some fact.summary;
  score = some fact.importance;
  source_conversation_id = or_kept fact.source_conversation_id r.source_conversation_id;
  source_message_id = or_kept fact.source_message_id r.source_message_id;
  expires_at = or_kept fact.expires_at r.expires_at;
}

abbrev pub new_record : ℕ → MemoryFact → MemoryRecord
new_record id fact = record {
  id = id;
  namespace = fact.namespace;
  subject_key = fact.subject_key;
  value = fact.value;
  summary = some fact.summary;
  score = some fact.importance;
  source_conversation_id = fact.source_conversation_id;
  source_message_id = fact.source_message_id;
  expires_at = fact.expires_at;
}

-- `memoryRecord.update({ where: { id }, data })`
unfoldable pub update_record :
    ℕ → (MemoryRecord → MemoryRecord) → List MemoryRecord → List MemoryRecord
update_record id f [] = []
update_record id f (r ∷ rs) = (if eqb r.id id then f r else r) ∷ update_record id f rs

pub upsert : MemoryFact → MemoryStore → MemoryStore
upsert fact store = elim (find (is_at fact.namespace fact.subject_key) store.records) [
  | some existing ↦
      if leb (score_of existing) fact.importance
      then record store { records = update_record existing.id (overwrite fact) store.records }
      else store
  | none ↦ record {
    records = new_record store.next_id fact ∷ store.records;
    next_id = store.next_id + 1;
  }
]

-- A fact that is known and of an importance below 0.7 is skipped.
abbrev pub is_skipped : MemoryFact → MemoryStore → Bool
is_skipped fact store = exists fact.namespace fact.subject_key store && ltb fact.importance 7

-- The stored facts, and the table.
pub store_facts : List MemoryFact → MemoryStore → List MemoryFact × MemoryStore
store_facts [] store = ([], store)
store_facts (fact ∷ facts) store =
    if is_skipped fact store
    then store_facts facts store
    else (let (stored, after) = store_facts facts (upsert fact store) in (fact ∷ stored, after))
