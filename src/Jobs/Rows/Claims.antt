-- ===== src/Jobs/Rows/Claims.antt =====
-- The atomic claim of a job, among the changes that workers make to the rows of
-- apps/api/src/repositories/job.repository.ts.
use psychic_octo_invention.Prelude.{
  ℕ, ◌+◌, ◌≤◌, ◌≡◌, ◌≢◌, refl, sym, subst, ◌∙◌, ◌⊎◌, inl, inr, true, false, ◌&&◌, some, String,
  List, [], ◌∷◌, arith, All, eqb, eqb→eq, Bool-cases,
}
use psychic_octo_invention.Jobs.Rows.{
  Job, running, stale_after, is_claimable, mark_completed, mark_failed, mark_retrying, update_job,
  claim_for_run,
}

abbrev pub AreDistinct : List Job → Type 0
AreDistinct [] = Unit
AreDistinct (j ∷ js) = All (λ k. k.id ≢ j.id) js × AreDistinct js

-- What the workers do to the rows: each change of `JobRepository` to one row.
pub data Change : Type 0 where
  claim : ℕ → ℕ → Change
  complete : ℕ → ℕ → Change
  give_up : ℕ → ℕ → String → Change
  retry : ℕ → String → Change

unfoldable pub change : Change → List Job → List Job
change (claim id now) jobs = (claim_for_run id now jobs).1
change (complete id now) jobs = update_job id (mark_completed now) jobs
change (give_up id now message) jobs = update_job id (mark_failed now message) jobs
change (retry id message) jobs = update_job id (mark_retrying message) jobs

abbrev pub changes : List Change → List Job → List Job
changes [] jobs = jobs
changes (c ∷ cs) jobs = changes cs (change c jobs)

-- A change that is a claim up to a time, or settles another job.
abbrev pub LeavesClaim : ℕ → ℕ → Change → Type 0
LeavesClaim id limit (claim other now) = now ≤ limit
LeavesClaim id limit (complete other now) = other ≢ id
LeavesClaim id limit (give_up other now message) = other ≢ id
LeavesClaim id limit (retry other message) = other ≢ id

-- The rows of the id are running since a time.
abbrev IsHeld : ℕ → ℕ → Job → Type 0
IsHeld id now j = (j.id ≢ id) ⊎ ((j.status ≡ running) × (j.started_at ≡ some now))

held-kept :
    (id now later : ℕ) (j : Job)
    → j.status ≡ running
    → j.started_at ≡ some now
    → later ≤ now + stale_after
    → is_claimable later j ≡ false
unfolding is_claimable
held-kept id now later j runs since le = rw (runs, since) (ground arith)

claim-IsHeld :
    (id now other later : ℕ) (jobs : List Job)
    → later ≤ now + stale_after
    → All (IsHeld id now) jobs
    → All (IsHeld id now) (claim_for_run other later jobs).1
unfolding claim_for_run
claim-IsHeld id now other later [] le h = tt
claim-IsHeld id now other later (j ∷ js) le h =
    let rest = claim-IsHeld id now other later js le h.1 in
    elim (Bool-cases (eqb j.id other && is_claimable later j)) [
      | inr e ↦ rw e (h.0, rest)
      | inl e ↦ elim h.0 [
        | inl ne ↦ rw e (inl ne, rest)
        | inr (runs, since) ↦ absurd (
            let kept = held-kept id now later j runs since le in
            let claimable : is_claimable later j ≡ true = ground arith in cc)
      ]
    ]

update-IsHeld :
    (id now other : ℕ) (f : Job → Job) (jobs : List Job)
    → other ≢ id
    → ((j : Job) → (f j).id ≡ j.id)
    → All (IsHeld id now) jobs
    → All (IsHeld id now) (update_job other f jobs)
unfolding update_job
update-IsHeld id now other f [] ne same h = tt
update-IsHeld id now other f (j ∷ js) ne same h =
    let rest = update-IsHeld id now other f js ne same h.1 in
    elim (Bool-cases (eqb j.id other)) [
      | inr e ↦ rw e (h.0, rest)
      | inl e ↦ rw e (inl (λ q. ne (sym (eqb→eq j.id other e) ∙ sym (same j) ∙ q)), rest)
    ]

change-IsHeld :
    (id now : ℕ) (c : Change) (jobs : List Job)
    → LeavesClaim id (now + stale_after) c
    → All (IsHeld id now) jobs
    → All (IsHeld id now) (change c jobs)
unfolding change
change-IsHeld id now (claim other later) jobs le h = claim-IsHeld id now other later jobs le h
change-IsHeld id now (complete other t) jobs ne h =
    update-IsHeld id now other (mark_completed t) jobs ne (λ j. refl) h
change-IsHeld id now (give_up other t message) jobs ne h =
    update-IsHeld id now other (mark_failed t message) jobs ne (λ j. refl) h
change-IsHeld id now (retry other message) jobs ne h =
    update-IsHeld id now other (mark_retrying message) jobs ne (λ j. refl) h

changes-IsHeld :
    (id now : ℕ) (cs : List Change) (jobs : List Job)
    → All (LeavesClaim id (now + stale_after)) cs
    → All (IsHeld id now) jobs
    → All (IsHeld id now) (changes cs jobs)
changes-IsHeld id now [] jobs allowed h = h
changes-IsHeld id now (c ∷ cs) jobs allowed h =
    changes-IsHeld id now cs (change c jobs) allowed.1 (change-IsHeld id now c jobs allowed.0 h)

-- Without a row of the id nothing is claimed.
others-IsHeld :
    (id now : ℕ) (jobs : List Job)
    → All (λ j. j.id ≢ id) jobs
    → ((claim_for_run id now jobs).0 ≡ false) × All (IsHeld id now) (claim_for_run id now jobs).1
unfolding claim_for_run
others-IsHeld id now [] h = (refl, tt)
others-IsHeld id now (j ∷ js) h =
    let other : eqb j.id id ≡ false = (let ne = h.0 in ground arith) in
    let (none_left, rest) = others-IsHeld id now js h.1 in rw other (none_left, (inl h.0, rest))

claimed-IsHeld :
    (id now : ℕ) (jobs : List Job)
    → AreDistinct jobs
    → (claim_for_run id now jobs).0 ≡ true
    → All (IsHeld id now) (claim_for_run id now jobs).1
unfolding claim_for_run
claimed-IsHeld id now [] d h = tt
claimed-IsHeld id now (j ∷ js) d h = elim (Bool-cases (eqb j.id id)) [
  | inr other ↦ rw other (
    inl (λ q. (let ne : eqb j.id id ≡ true = ground arith in cc)),
    claimed-IsHeld id now js d.1 (rw other at h),
  )
  | inl mine ↦
      let others : All (λ k. k.id ≢ id) js =
        subst (λ i. All (λ k. k.id ≢ i) js) (eqb→eq j.id id mine) d.0 in
      let (none_left, rest) = others-IsHeld id now js others in
      elim (Bool-cases (is_claimable now j)) [
        | inl e ↦ rw (mine, e) (inr (refl, refl), rest)
        | inr e ↦ absurd (let found : (claim_for_run id now js).0 ≡ true = rw (mine, e) at h in cc)
      ]
]

held-unclaimed :
    (id now later : ℕ) (jobs : List Job)
    → later ≤ now + stale_after
    → All (IsHeld id now) jobs
    → (claim_for_run id later jobs).0 ≡ false
unfolding claim_for_run
held-unclaimed id now later [] le h = refl
held-unclaimed id now later (j ∷ js) le h =
    let rest = held-unclaimed id now later js le h.1 in
    elim h.0 [
      | inl ne ↦ (let other : eqb j.id id ≡ false = ground arith in rw other rest)
      | inr (runs, since) ↦
          let kept = held-kept id now later j runs since le in
          elim (Bool-cases (eqb j.id id)) [ inl e ↦ rw (e, kept) rest | inr e ↦ rw e rest ]
    ]

-- A caller claims a job; then any claims of any jobs follow, by anyone, and any other jobs are marked as
-- completed, failed or retrying. A further claim of the job fails, if it and the claims between are no
-- later than a quarter of an hour after the first one. That the job itself is not marked in between is
-- a condition, as is that ids are distinct.
pub claim_for_run-once :
    (id now later : ℕ) (jobs : List Job) (between : List Change)
    → AreDistinct jobs
    → (claim_for_run id now jobs).0 ≡ true
    → All (LeavesClaim id (now + stale_after)) between
    → later ≤ now + stale_after
    → (claim_for_run id later (changes between (claim_for_run id now jobs).1)).0 ≡ false
claim_for_run-once id now later jobs between d h allowed le =
    held-unclaimed id now later (changes between (claim_for_run id now jobs).1) le (
      changes-IsHeld id now between (claim_for_run id now jobs).1 allowed
        (claimed-IsHeld id now jobs d h))
