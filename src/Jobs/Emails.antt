-- ===== src/Jobs/Emails.antt =====
-- apps/api/src/workers/email-processing.worker.ts: how an email job is stored, run, retried and
-- recovered. What `processEmailJob` does is an argument: nothing if it succeeds, or its error message.
pub mod Laws
use psychic_octo_invention.Prelude.{
  ℕ, ◌+◌, ◌-◌, ◌*◌, ◌^◌, min, String, Bool, true, false, ◌&&◌, ◌||◌, not, Option, none, some, List,
  [], ◌∷◌, find, eqb, ltb, ◌==◌, if◌then◌else◌,
}
use psychic_octo_invention.Json.{Json, null, bool, num, str, arr, obj, Fields, end, field}
use psychic_octo_invention.Jobs.Rows.{
  Job, JobStore, new_job, mark_completed, mark_failed, mark_retrying, update_job, list_recoverable,
  value_at, string_at, find_by_queue_and_idempotency,
}

-- `EmailProcessingJobPayload`; the message is the JSON value of the mail.
pub record EmailPayload : Type 0 where
  pub payload : Json
  pub idempotency_key : String
  pub received_at : String

abbrev pub email_queue : String
email_queue = "email-processing"

abbrev pub to_json : EmailPayload → Json
to_json p = obj (
    field "payload" p.payload
      (field "idempotencyKey" (str p.idempotency_key) (field "receivedAt" (str p.received_at) end)))

abbrev is_object : Json → Bool
is_object (obj fields) = true
is_object (arr items) = true
is_object null = false
is_object (bool b) = false
is_object (num n) = false
is_object (str s) = false

-- A string that is not empty.
abbrev pub filled : Option String → Option String
filled none = none
filled (some s) = if s == "" then none else some s

parse_fields : Fields → Option EmailPayload
parse_fields fields = elim (value_at "payload" fields) [
  | none ↦ none
  | some message ↦
      if not (is_object message) then none else elim (filled (string_at "idempotencyKey" fields)) [
        | none ↦ none
        | some key ↦ elim (filled (string_at "receivedAt" fields)) [
          | none ↦ none
          | some received_at ↦
              some (record { payload = message; idempotency_key = key; received_at = received_at })
        ]
      ]
]

pub parse_persisted_payload : Json → Option EmailPayload
parse_persisted_payload (obj fields) = parse_fields fields
parse_persisted_payload null = none
parse_persisted_payload (bool b) = none
parse_persisted_payload (num n) = none
parse_persisted_payload (str s) = none
parse_persisted_payload (arr items) = none

-- The job of an email, unless there is one already; and whether it is new.
pub enqueue_email_processing : EmailPayload → JobStore → Bool × JobStore
enqueue_email_processing p store =
    elim (find_by_queue_and_idempotency email_queue p.idempotency_key store.jobs) [
      | some existing ↦ (false, store)
      | none ↦ (
        true,
        record {
          jobs =
              new_job store.next_id email_queue "process_inbound_email" (to_json p) none
              ∷ store.jobs;
          next_id = store.next_id + 1;
        },
      )
    ]

abbrev pub retry_base_delay : ℕ
retry_base_delay = 60 * 1000

abbrev pub retry_max_delay : ℕ
retry_max_delay = 10 * 60 * 1000

unfoldable pub compute_retry_delay : ℕ → ℕ
compute_retry_delay attempts = min (retry_base_delay * 2 ^ (attempts - 1)) retry_max_delay

-- What `runPersistedEmailJob` does to its row once the processing is over.
unfoldable pub settle : ℕ → Option String → Job → Job
settle now none job = mark_completed now job
settle now (some message) job =
    if ltb job.attempts job.max_attempts
    then mark_retrying message job
    else mark_failed now message job

-- The sweep at the start: the rows whose payload does not parse fail, the others are to be run.
resume_rows : ℕ → List Job → List Job → List ℕ × List Job
resume_rows now [] jobs = ([], jobs)
resume_rows now (j ∷ js) jobs = elim (parse_persisted_payload j.payload) [
  | none ↦
      resume_rows now js
        (update_job j.id (mark_failed now "Invalid persisted email job payload") jobs)
  | some p ↦ let (ids, after) = resume_rows now js jobs in (j.id ∷ ids, after)
]

pub resume_pending_email_jobs : ℕ → ℕ → List Job → List ℕ × List Job
resume_pending_email_jobs limit now jobs =
    resume_rows now (list_recoverable email_queue limit now jobs) jobs
