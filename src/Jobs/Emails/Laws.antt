-- ===== src/Jobs/Emails/Laws.antt =====
-- Laws of the stored email jobs.
use psychic_octo_invention.Prelude.{
  ◌≡◌, refl, ap, ◌∙◌, inl, inr, true, false, none, some, ◌∷◌, arith, ◌==◌, eq_refl, Option-cases,
}
use psychic_octo_invention.Jobs.Rows.{
  Job, JobStore, new_job, value_at, idempotency_key_of, find_by_queue_and_idempotency,
}
use psychic_octo_invention.Jobs.Emails.{
  EmailPayload, email_queue, to_json, is_object, parse_fields, parse_persisted_payload,
  enqueue_email_processing,
}

-- A stored payload is read back as it was, provided that its message is an object and its key and time
-- are not empty.
parse_persisted_payload-to_json :
    (p : EmailPayload)
    → is_object p.payload ≡ true
    → (p.idempotency_key == "") ≡ false
    → (p.received_at == "") ≡ false
    → parse_persisted_payload (to_json p) ≡ some p
unfolding parse_persisted_payload parse_fields value_at
parse_persisted_payload-to_json p o k t = rw (o, k, t) refl

known-kept :
    (p : EmailPayload) (store : JobStore) (existing : Job)
    → find_by_queue_and_idempotency email_queue p.idempotency_key store.jobs ≡ some existing
    → (enqueue_email_processing p store).1 ≡ store
unfolding enqueue_email_processing
known-kept p store existing found = ground arith

abbrev stored : EmailPayload → JobStore → Job
stored p store = new_job store.next_id email_queue "process_inbound_email" (to_json p) none

stored-jobs :
    (p : EmailPayload) (store : JobStore)
    → find_by_queue_and_idempotency email_queue p.idempotency_key store.jobs ≡ none
    → (enqueue_email_processing p store).1.jobs ≡ stored p store ∷ store.jobs
unfolding enqueue_email_processing
stored-jobs p store absent = ground arith

stored-found :
    (p : EmailPayload) (store : JobStore)
    → find_by_queue_and_idempotency email_queue p.idempotency_key (stored p store ∷ store.jobs)
      ≡ some (stored p store)
unfolding find_by_queue_and_idempotency idempotency_key_of value_at
stored-found p store = rw (eq_refl p.idempotency_key) refl

-- An email that is enqueued twice is stored once: the second call changes nothing.
pub enqueue_email_processing-idempotent :
    (p : EmailPayload) (store : JobStore)
    → (enqueue_email_processing p (enqueue_email_processing p store).1).1
      ≡ (enqueue_email_processing p store).1
enqueue_email_processing-idempotent p store =
    elim (Option-cases (find_by_queue_and_idempotency email_queue p.idempotency_key store.jobs)) [
      | inr (existing, found) ↦
          ap (λ s. (enqueue_email_processing p s).1) (known-kept p store existing found)
      | inl absent ↦ known-kept p (enqueue_email_processing p store).1 (stored p store) (
          ap (find_by_queue_and_idempotency email_queue p.idempotency_key)
            (stored-jobs p store absent)
          ∙ stored-found p store)
    ]
