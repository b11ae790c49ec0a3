-- ===== src/Skills/Runs.antt =====
-- The skill services as a state machine: the requests that change the skill tables, in any order.
pub mod Laws
pub mod Slugs
use psychic_octo_invention.Prelude.{ℕ, ◌≡◌, String, Bool, List, Text}
use psychic_octo_invention.Security.Types.{Regex}
use psychic_octo_invention.Skills.Types.{Store, IngestInput, empty_store}
use psychic_octo_invention.Skills.Ingestion.{ingest_skill}
use psychic_octo_invention.Skills.Management.{toggle_skill, manual_override, OverrideResult}
use psychic_octo_invention.Skills.Guard.{can_execute, GuardOptions}

-- A request, with the actor or the options that come with it.
pub data Operation : Type 0 where
  ingest : IngestInput → String → Operation
  toggle : ℕ → Bool → String → Operation
  override : ℕ → OverrideResult → String → String → Operation
  check : String → GuardOptions → Operation

module _ (compute_code_hash : String → String) (exec_all : Regex → Text → List ℕ) where
  unfoldable pub apply : Operation → Store → Store
  apply (ingest input actor) store = (ingest_skill compute_code_hash exec_all input actor store).1
  apply (toggle id enabled actor) store = (toggle_skill id enabled actor store).1
  apply (override id result reason actor) store = (manual_override id result reason actor store).1
  apply (check slug options) store = (can_execute compute_code_hash slug options store).1

  pub data Reachable : Store → Type 0 where
    start : (store : Store) → store ≡ empty_store → Reachable store
    step :
        (op : Operation) (before after : Store)
        → Reachable before
        → after ≡ apply op before
        → Reachable after
