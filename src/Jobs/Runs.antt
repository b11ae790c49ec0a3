-- ===== src/Jobs/Runs.antt =====
-- The life of one job row under `runPersistedEmailJob` (apps/api/src/workers/email-processing.worker.ts):
-- attempts start when a claim of the row succeeds and settle it when the processing is over, and a
-- crash of the process ends the running attempts without a trace in the row.
pub mod Laws
pub mod Retries
use psychic_octo_invention.Prelude.{
  ℕ, zero, suc, ◌+◌, ◌≡◌, ◌≢◌, String, Bool, true, false, Option, some, if◌then◌else◌,
}
use psychic_octo_invention.Jobs.Rows.{Job, JobStatus, is_stale, is_claimable, mark_running, new_job}
use psychic_octo_invention.Jobs.Emails.{settle}

-- A row, and the number of attempts that run on it.
pub record World : Type 0 where
  pub job : Job
  pub runners : ℕ

pub data Event : Type 0 where
  begin : ℕ → Event
  finish : ℕ → Option String → Event
  crash : Event

unfoldable pub apply : Event → World → World
apply (begin now) w =
    if is_claimable now w.job
    then record { job = mark_running now w.job; runners = w.runners + 1 }
    else w
apply (finish now outcome) w = elim w.runners [
  | zero ↦ w
  | suc n ↦ record { job = settle now outcome w.job; runners = n }
]
apply crash w = record w { runners = 0 }

abbrev pub crashes : Event → ℕ
crashes (begin now) = 0
crashes (finish now outcome) = 0
crashes crash = 1

-- A claim comes while no attempt has been running for a quarter of an hour.
unfoldable pub IsPrompt : Event → World → Type 0
IsPrompt (begin now) w = w.runners ≢ 0 → is_stale now w.job ≡ false
IsPrompt (finish now outcome) w = Unit
IsPrompt crash w = Unit

-- The worlds that a new row can come to in prompt steps, with the number of crashes on the way.
pub data Reachable (fresh : Job) : ℕ → World → Type 0 where
  start : (w : World) → w ≡ record { job = fresh; runners = 0 } → Reachable fresh 0 w
  step :
      (e : Event) (n m : ℕ) (before after : World)
      → Reachable fresh n before
      → IsPrompt e before
      → after ≡ apply e before
      → m ≡ n + crashes e
      → Reachable fresh m after

-- The attempts of a job whose processing fails each time, one after the other.
pub fail_times : ℕ → ℕ → String → World → World
fail_times zero now message w = w
fail_times (suc k) now message w =
    fail_times k now message (apply (finish now (some message)) (apply (begin now) w))
