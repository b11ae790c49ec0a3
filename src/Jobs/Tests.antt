-- ===== src/Jobs/Tests.antt =====
-- A stored email job, its claims and its retries; and what a claim of an attempt that is still running
-- leads to.
use psychic_octo_invention.Prelude.{
  ◌+◌, ◌<◌, ◌≡◌, refl, inl, false, none, some, List, [], ◌∷◌, arith,
}
use psychic_octo_invention.Json.{obj, field, end, str}
use psychic_octo_invention.Jobs.Rows.{
  Job, completed, failed, retrying, new_job, mark_running, is_claimable, claim_for_run,
}
use psychic_octo_invention.Jobs.Rows.Claims.{Change, claim, complete, changes, claim_for_run-once}
use psychic_octo_invention.Jobs.Emails.{EmailPayload, to_json, settle, compute_retry_delay}
use psychic_octo_invention.Jobs.Runs.{
  World, begin, finish, apply, IsPrompt, Reachable, start, step, fail_times,
}
use psychic_octo_invention.Jobs.Runs.Laws.{IsSound, Reachable-IsSound, apply-final}
use psychic_octo_invention.Jobs.Runs.Retries.{IsWaiting, fail_times-ends}

abbrev mail : EmailPayload
mail = record {
  payload = obj (field "subject" (str "Hello") end);
  idempotency_key = "m1";
  received_at = "2026-01-01T00:00:00Z";
}

abbrev job : Job
job = new_job 1 "email-processing" "process_inbound_email" (to_json mail) none

abbrev fresh : World
fresh = record { job = job; runners = 0 }

abbrev taken : World
taken = record { job = mark_running 1000 job; runners = 1 }

abbrev done : World
done = record {
  job = record job {
    status = completed;
    attempts = 1;
    started_at = some 1000;
    completed_at = some 2000;
  };
  runners = 0;
}

taken-Reachable : Reachable job 0 taken
unfolding apply IsPrompt is_claimable
taken-Reachable =
    step (begin 1000) 0 0 fresh taken (start fresh refl) (λ ne. absurd (ne refl)) refl refl

done-Reachable : Reachable job 0 done
unfolding apply IsPrompt settle
done-Reachable = step (finish 2000 none) 0 0 taken done taken-Reachable tt refl refl

delays :
    (compute_retry_delay 1 ≡ 60000)
    × (compute_retry_delay 3 ≡ 240000)
    × (compute_retry_delay 9 ≡ 600000)
unfolding compute_retry_delay
delays = (refl, refl, refl)

-- A second attempt starts while the first one runs for more than a quarter of an hour, and completes
-- the row; when the first one fails at last, the completed row waits for another attempt.
overlap :
    (apply
      (finish 1000000 (some "late"))
      (apply (finish 950000 none) (apply (begin 902000) taken))).job.status
    ≡ retrying
unfolding apply is_claimable settle
overlap = refl

-- The job is claimed; another worker tries to claim it, and another job is completed.
abbrev between : List Change
between = claim 1 20000 ∷ complete 2 30000 ∷ []

claim_for_run-once_example :
    (claim_for_run 1 50000 (changes between (claim_for_run 1 1000 (job ∷ [])).1)).0 ≡ false
unfolding claim_for_run is_claimable
claim_for_run-once_example =
    claim_for_run-once 1 1000 50000 (job ∷ []) between (tt, tt) refl
      ((omega arith), ((λ q. omega arith), tt)) (omega arith)

Reachable-IsSound_example : IsSound 0 taken
Reachable-IsSound_example = Reachable-IsSound job 0 taken (omega arith) taken-Reachable

apply-final_example : apply (begin 5000000) done ≡ done
apply-final_example = apply-final job 0 done (omega arith) done-Reachable refl (begin 5000000)

fail_times-ends_example :
    (fresh.job.attempts + 3 ≡ fresh.job.max_attempts
      → ((fail_times 3 1000 "down" fresh).job.status ≡ failed)
        × ((fail_times 3 1000 "down" fresh).job.attempts ≡ 3))
    × (fresh.job.attempts + 3 < fresh.job.max_attempts
        → IsWaiting (fail_times 3 1000 "down" fresh)
          × ((fail_times 3 1000 "down" fresh).job.attempts ≡ 3))
fail_times-ends_example = fail_times-ends 2 1000 "down" fresh (inl refl, refl)
