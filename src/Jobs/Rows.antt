-- ===== src/Jobs/Rows.antt =====
-- The job table (prisma/schema.prisma) and its changes in apps/api/src/repositories/job.repository.ts.
-- A time is a number of milliseconds, and the newest row stands first.
pub mod Claims
use psychic_octo_invention.Prelude.{
  ℕ, ◌+◌, ◌-◌, ◌*◌, String, Bool, true, false, ◌&&◌, ◌||◌, Option, none, some, List, [], ◌∷◌, find,
  filter, take, any, eqb, ltb, ◌==◌, if◌then◌else◌, reverse,
}
use psychic_octo_invention.Json.{Json, null, bool, num, str, arr, obj, Fields, end, field}

pub data JobStatus : Type 0 where
  pending running completed failed retrying cancelled : JobStatus

pub record Job : Type 0 where
  pub id : ℕ
  pub queue_name : String
  pub job_type : String
  pub payload : Json
  pub status : JobStatus
  pub attempts : ℕ
  pub max_attempts : ℕ
  pub error_message : Option String
  pub started_at : Option ℕ
  pub completed_at : Option ℕ

pub record JobStore : Type 0 where
  pub jobs : List Job
  pub next_id : ℕ

-- The default of `staleRunningAfterMinutes`, in milliseconds.
abbrev pub stale_after : ℕ
stale_after = 15 * 60 * 1000

-- `startedAt < now - 15 min`; a row without a start is not stale.
abbrev pub is_stale : ℕ → Job → Bool
is_stale now job = elim job.started_at [
  | none ↦ false
  | some started ↦ ltb (started + stale_after) now
]

-- The condition of `claimForRun` and of `listRecoverable`.
unfoldable pub is_claimable : ℕ → Job → Bool
is_claimable now job = elim job.status [
  | pending ↦ true
  | retrying ↦ true
  | running ↦ is_stale now job
  | completed ↦ false
  | failed ↦ false
  | cancelled ↦ false
]

abbrev pub new_job : ℕ → String → String → Json → Option ℕ → Job
new_job id queue_name job_type payload max_attempts = record {
  id = id;
  queue_name = queue_name;
  job_type = job_type;
  payload = payload;
  status = pending;
  attempts = 0;
  max_attempts = elim max_attempts [ none ↦ 3 | some n ↦ n ];
  error_message = none;
  started_at = none;
  completed_at = none;
}

abbrev pub mark_running : ℕ → Job → Job
mark_running now job = record job {
  status = running;
  started_at = some now;
  attempts = job.attempts + 1;
}

abbrev pub mark_completed : ℕ → Job → Job
mark_completed now job = record job { status = completed; completed_at = some now }

abbrev pub mark_failed : ℕ → String → Job → Job
mark_failed now message job = record job {
  status = failed;
  completed_at = some now;
  error_message = some message;
}

abbrev pub mark_retrying : String → Job → Job
mark_retrying message job = record job {
  status = retrying;
  error_message = some message;
  started_at = none;
  completed_at = none;
}

-- `job.update({ where: { id }, data })`
unfoldable pub update_job : ℕ → (Job → Job) → List Job → List Job
update_job id f [] = []
update_job id f (j ∷ js) = (if eqb j.id id then f j else j) ∷ update_job id f js

-- `updateMany`: whether a row was claimed, and the rows.
unfoldable pub claim_for_run : ℕ → ℕ → List Job → Bool × List Job
claim_for_run id now [] = (false, [])
claim_for_run id now (j ∷ js) =
    let (claimed, rest) = claim_for_run id now js in
    if eqb j.id id && is_claimable now j
    then (true, mark_running now j ∷ rest)
    else (claimed, j ∷ rest)

-- The oldest recoverable rows of a queue.
pub list_recoverable : String → ℕ → ℕ → List Job → List Job
list_recoverable queue_name limit now jobs =
    take limit (filter (λ j. (j.queue_name == queue_name) && is_claimable now j) (reverse jobs))

-- The value at a key of an object: the last field of the name counts.
unfoldable pub value_at : String → Fields → Option Json
value_at key end = none
value_at key (field name value rest) = elim (value_at key rest) [
  | some v ↦ some v
  | none ↦ if name == key then some value else none
]

abbrev pub as_string : Json → Option String
as_string (str s) = some s
as_string null = none
as_string (bool b) = none
as_string (num n) = none
as_string (arr items) = none
as_string (obj fields) = none

abbrev pub string_at : String → Fields → Option String
string_at key fields = elim (value_at key fields) [ none ↦ none | some v ↦ as_string v ]

unfoldable pub idempotency_key_of : Json → Option String
idempotency_key_of (obj fields) = string_at "idempotencyKey" fields
idempotency_key_of null = none
idempotency_key_of (bool b) = none
idempotency_key_of (num n) = none
idempotency_key_of (str s) = none
idempotency_key_of (arr items) = none

abbrev pub counts_as_done : JobStatus → Bool
counts_as_done pending = true
counts_as_done running = true
counts_as_done retrying = true
counts_as_done completed = true
counts_as_done failed = false
counts_as_done cancelled = false

abbrev has_key : String → Json → Bool
has_key key payload = elim (idempotency_key_of payload) [ none ↦ false | some k ↦ k == key ]

unfoldable pub find_by_queue_and_idempotency : String → String → List Job → Option Job
find_by_queue_and_idempotency queue_name key jobs =
    find (λ j. (j.queue_name == queue_name) && has_key key j.payload && counts_as_done j.status)
      jobs
