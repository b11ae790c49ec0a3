-- ===== src/Memory/Tests.antt =====
-- The facts of an exchange that names the user twice, and a record that they update.
use psychic_octo_invention.Prelude.{ℕ, ◌≡◌, refl, String, none, some, List, [], ◌∷◌, arith, All, In}
use psychic_octo_invention.Json.{str}
use psychic_octo_invention.Memory.Facts.{
  MemoryFact, fact_key, dedupe_facts, set_fact, dedupe_from, HaveDistinctKeys, Covers,
  dedupe_facts-best,
}
use psychic_octo_invention.Memory.Records.{MemoryRecord, MemoryStore, new_record, store_facts}
use psychic_octo_invention.Memory.Records.Laws.{IsWellFormed, Survives, store_facts-keeps}

abbrev fact : String → String → ℕ → MemoryFact
fact key summary importance = record {
  namespace = "user:1";
  subject_key = key;
  value = str summary;
  summary = summary;
  importance = importance;
  source_conversation_id = some "c";
  source_message_id = some "m";
  expires_at = none;
}

abbrev facts : List MemoryFact
facts = fact "name" "Ann" 9 ∷ fact "location" "Rome" 7 ∷ fact "name" "Anna" 9 ∷ []

kept : dedupe_facts facts ≡ fact "name" "Anna" 9 ∷ fact "location" "Rome" 7 ∷ []
unfolding dedupe_facts dedupe_from set_fact fact_key
kept = refl

dedupe_facts-best_example :
    HaveDistinctKeys (dedupe_facts facts)
    × All (λ g. In g facts) (dedupe_facts facts)
    × All (Covers (dedupe_facts facts)) facts
dedupe_facts-best_example = dedupe_facts-best facts

abbrev known : MemoryRecord
known = new_record 0 (fact "name" "Ann" 8)

abbrev store : MemoryStore
store = record { records = known ∷ []; next_id = 1 }

store_facts-keeps_example :
    IsWellFormed (store_facts facts store).1
    × ((r : MemoryRecord) → In r (known ∷ []) → Survives (store_facts facts store).1 r)
store_facts-keeps_example =
    store_facts-keeps facts store (record { unique = (tt, tt); ids = (omega arith, tt) })
