-- ===== src/Jobs/Runs/Retries.antt =====
-- The retries of a job that never succeeds.
use psychic_octo_invention.Prelude.{
  ℕ, zero, suc, ◌+◌, ◌<◌, ◌≡◌, refl, ap, ◌∙◌, ◌⊎◌, inl, inr, String, true, false, some, arith, ltb,
}
use psychic_octo_invention.Jobs.Rows.{
  pending, failed, retrying, is_claimable, mark_running, mark_failed, mark_retrying,
}
use psychic_octo_invention.Jobs.Emails.{settle}
use psychic_octo_invention.Jobs.Runs.{World, begin, finish, apply, fail_times}

-- A row that waits for an attempt, and no attempt runs.
abbrev pub IsWaiting : World → Type 0
IsWaiting w = ((w.job.status ≡ pending) ⊎ (w.job.status ≡ retrying)) × (w.runners ≡ 0)

abbrev attempt : ℕ → String → World → World
attempt now message w = apply (finish now (some message)) (apply (begin now) w)

waiting-claimable : (now : ℕ) (w : World) → IsWaiting w → is_claimable now w.job ≡ true
unfolding is_claimable
waiting-claimable now w (inl p, z) = rw p refl
waiting-claimable now w (inr p, z) = rw p refl

attempt-settles :
    (now : ℕ) (message : String) (w : World)
    → IsWaiting w
    → attempt now message w
      ≡ record { job = settle now (some message) (mark_running now w.job); runners = 0 }
unfolding apply
attempt-settles now message w h =
    let claimed = waiting-claimable now w h in
    let none_left : w.runners ≡ 0 = h.1 in rw (claimed, none_left) refl

attempt-fails :
    (now : ℕ) (message : String) (w : World)
    → IsWaiting w
    → w.job.attempts + 1 ≡ w.job.max_attempts
    → attempt now message w
      ≡ record { job = mark_failed now message (mark_running now w.job); runners = 0 }
unfolding settle
attempt-fails now message w h last =
    let over : ltb (w.job.attempts + 1) w.job.max_attempts ≡ false = ground arith in
    attempt-settles now message w h ∙ simp over refl

attempt-retries :
    (now : ℕ) (message : String) (w : World)
    → IsWaiting w
    → w.job.attempts + 1 < w.job.max_attempts
    → IsWaiting (attempt now message w)
      × ((attempt now message w).job.attempts ≡ w.job.attempts + 1)
      × ((attempt now message w).job.max_attempts ≡ w.job.max_attempts)
unfolding settle
attempt-retries now message w h more =
    let left : ltb (w.job.attempts + 1) w.job.max_attempts ≡ true = ground arith in
    let waiting : World = record {
      job = mark_retrying message (mark_running now w.job);
      runners = 0;
    } in
    let e : attempt now message w ≡ waiting = attempt-settles now message w h ∙ simp left refl in
    (
      (inr (ap (λ v. v.job.status) e), ap (λ v. v.runners) e),
      ap (λ v. v.job.attempts) e,
      ap (λ v. v.job.max_attempts) e,
    )

-- A waiting job whose every attempt fails is marked as failed when its last allowed attempt is over,
-- and not before: while attempts are left it waits for the next one.
pub fail_times-ends :
    (k now : ℕ) (message : String) (w : World)
    → IsWaiting w
    → (w.job.attempts + suc k ≡ w.job.max_attempts
        → ((fail_times (suc k) now message w).job.status ≡ failed)
          × ((fail_times (suc k) now message w).job.attempts ≡ w.job.max_attempts))
      × (w.job.attempts + suc k < w.job.max_attempts
          → IsWaiting (fail_times (suc k) now message w)
            × ((fail_times (suc k) now message w).job.attempts ≡ w.job.attempts + suc k))
unfolding fail_times
fail_times-ends zero now message w h = (
  (λ last.
      let e = attempt-fails now message w h last in
      (ap (λ v. v.job.status) e, ap (λ v. v.job.attempts) e ∙ last)),
  (λ more. let (waits, count, limit) = attempt-retries now message w h more in (waits, count)),
)
fail_times-ends (suc k) now message w h = (
  (λ last.
      let (waits, count, limit) = attempt-retries now message w h (omega arith) in
      let (ends, status) =
        (fail_times-ends k now message (attempt now message w) waits).0 (omega arith) in
      (ends, status ∙ limit)),
  (λ more.
      let (waits, count, limit) = attempt-retries now message w h (omega arith) in
      let (again, counted) =
        (fail_times-ends k now message (attempt now message w) waits).1 (omega arith) in
      (again, omega arith)),
)
