-- ===== src/Jobs/Runs/Laws.antt =====
-- Attempts on a row do not overlap, are bounded, and end.
use psychic_octo_invention.Prelude.{
  ℕ, suc, ◌+◌, ◌≤◌, ◌<◌, ◌≡◌, ◌≢◌, refl, sym, ap, subst, inl, inr, String, Bool, true, false,
  Option, none, some, arith, eqb, ltb, Bool-cases,
}
use psychic_octo_invention.Jobs.Rows.{
  Job, JobStatus, pending, running, completed, failed, retrying, cancelled, is_stale, is_claimable,
}
use psychic_octo_invention.Jobs.Emails.{settle}
use psychic_octo_invention.Jobs.Runs.{
  World, Event, begin, finish, crash, apply, crashes, IsPrompt, Reachable, start, step,
}

-- A status from which a row may be claimed, now or later.
abbrev pub is_open : JobStatus → Bool
is_open pending = true
is_open retrying = true
is_open running = true
is_open completed = false
is_open failed = false
is_open cancelled = false

-- No two attempts overlap, one that runs has its row running, and each attempt but those that crashed
-- counts against the maximum.
pub record IsSound (n : ℕ) (w : World) : Type 0 where
  pub one : w.runners ≤ 1
  pub row : w.runners ≢ 0 → w.job.status ≡ running
  pub bound : w.job.attempts ≤ w.job.max_attempts + n
  pub spare : w.runners ≡ 0 → is_open w.job.status ≡ true → w.job.attempts < w.job.max_attempts + n

claimable-open : (now : ℕ) (j : Job) → is_claimable now j ≡ true → is_open j.status ≡ true
unfolding is_claimable
claimable-open now j h =
    elim j.status as (λ s. is_claimable now (record j { status = s }) ≡ true → is_open s ≡ true) [
      | pending ↦ λ h. refl
      | retrying ↦ λ h. refl
      | running ↦ λ h. refl
      | completed ↦ λ h. cc
      | failed ↦ λ h. cc
      | cancelled ↦ λ h. cc
    ]
      h

fresh-unclaimable :
    (now : ℕ) (j : Job) → j.status ≡ running → is_stale now j ≡ false → is_claimable now j ≡ false
unfolding is_claimable
fresh-unclaimable now j r f = rw (r, f) refl

-- A prompt claim that succeeds finds no attempt running.
idle :
    (n now : ℕ) (w : World)
    → IsSound n w
    → IsPrompt (begin now) w
    → is_claimable now w.job ≡ true
    → w.runners ≡ 0
unfolding IsPrompt
idle n now w h prompt claimed = elim (Bool-cases (eqb w.runners 0)) [
  | inl none_left ↦ ground arith
  | inr busy ↦
      let ne : w.runners ≢ 0 = ground arith in
      let out = fresh-unclaimable now w.job (h.row ne) (prompt ne) in absurd (ground arith)
]

settle-IsSound :
    (n now : ℕ) (outcome : Option String) (j : Job)
    → j.attempts ≤ j.max_attempts + n
    → IsSound n (record { job = settle now outcome j; runners = 0 })
unfolding settle
settle-IsSound n now none j bound = record {
  one = omega arith;
  row = λ ne. absurd (ne refl);
  bound = bound;
  spare = λ e o. cc;
}
settle-IsSound n now (some message) j bound = elim (Bool-cases (ltb j.attempts j.max_attempts)) [
  | inl more ↦ rw more (record {
    one = omega arith;
    row = λ ne. absurd (ne refl);
    bound = bound;
    spare = λ e o. ground arith;
  })
  | inr over ↦
      rw over (record {
        one = omega arith;
        row = λ ne. absurd (ne refl);
        bound = bound;
        spare = λ e o. cc;
      })
]

finish-zero :
    (now : ℕ) (outcome : Option String) (w : World)
    → w.runners ≡ 0
    → apply (finish now outcome) w ≡ w
unfolding apply
finish-zero now outcome w e = ground arith

finish-suc :
    (now m : ℕ) (outcome : Option String) (w : World)
    → w.runners ≡ suc m
    → apply (finish now outcome) w ≡ record { job = settle now outcome w.job; runners = m }
unfolding apply
finish-suc now m outcome w e = ground arith

module _ (n : ℕ) (w : World) (h : IsSound n w) where
  begin-IsSound : (now : ℕ) → IsPrompt (begin now) w → IsSound n (apply (begin now) w)
  unfolding apply IsPrompt
  begin-IsSound now prompt = elim (Bool-cases (is_claimable now w.job)) [
    | inr refused ↦ rw refused h
    | inl claimed ↦
        let none_left = idle n now w h prompt claimed in
        let spare = h.spare none_left (claimable-open now w.job claimed) in
        rw claimed (record {
          one = omega arith;
          row = λ ne. refl;
          bound = omega arith;
          spare = λ e. absurd (omega arith);
        })
  ]

  finish-IsSound : (now : ℕ) (outcome : Option String) → IsSound n (apply (finish now outcome) w)
  finish-IsSound now outcome = elim (Bool-cases (eqb w.runners 0)) [
    | inl none_left ↦ subst (IsSound n) (sym (finish-zero now outcome w (ground arith))) h
    | inr busy ↦
        let one = h.one in
        let e : w.runners ≡ suc 0 = ground arith in
        subst (IsSound n) (sym (finish-suc now 0 outcome w e))
          (settle-IsSound n now outcome w.job h.bound)
  ]

  crash-IsSound : IsSound (n + 1) (apply crash w)
  unfolding apply
  crash-IsSound =
      let bound = h.bound in
      record {
        one = omega arith;
        row = λ ne. absurd (ne refl);
        bound = omega arith;
        spare = λ e open_. omega arith;
      }

-- As long as no attempt is claimed again after running for a quarter of an hour, attempts on a row never
-- overlap, a row that is worked on is marked as running, and there are at most as many attempts as
-- the row allows and one more for each crash.
pub Reachable-IsSound :
    (fresh : Job) (n : ℕ) (w : World)
    → fresh.attempts < fresh.max_attempts
    → Reachable fresh n w
    → IsSound n w
Reachable-IsSound fresh n w lt (start _ e) = subst (IsSound 0) (sym e) (record {
  one = omega arith;
  row = λ ne. absurd (ne refl);
  bound = omega arith;
  spare = λ e2 o. omega arith;
})
Reachable-IsSound fresh n w lt (step e k _ before _ r prompt same count) =
    let h = Reachable-IsSound fresh k before lt r in
    subst (λ v. IsSound n v) (sym same)
      (subst (λ m. IsSound m (apply e before)) (sym count)
        (elim e as (λ x. IsPrompt x before → IsSound (k + crashes x) (apply x before)) [
          | begin now ↦ λ p.
              subst (λ m. IsSound m (apply (begin now) before))
                (let z : k ≡ k + 0 = omega arith in z) (begin-IsSound k before h now p)
          | finish now outcome ↦ λ p.
              subst (λ m. IsSound m (apply (finish now outcome) before))
                (let z : k ≡ k + 0 = omega arith in z) (finish-IsSound k before h now outcome)
          | crash ↦ λ p. crash-IsSound k before h
        ]
          prompt))

closed-unclaimable : (now : ℕ) (j : Job) → is_open j.status ≡ false → is_claimable now j ≡ false
closed-unclaimable now j closed = elim (Bool-cases (is_claimable now j)) [
  | inl claimable ↦ absurd (let open_too = claimable-open now j claimable in cc)
  | inr refused ↦ refused
]

begin-refused : (now : ℕ) (w : World) → is_claimable now w.job ≡ false → apply (begin now) w ≡ w
unfolding apply
begin-refused now w refused = rw refused refl

-- Under the same condition a completed, failed or cancelled row is final: whatever happens next leaves
-- it as it is.
pub apply-final :
    (fresh : Job) (n : ℕ) (w : World)
    → fresh.attempts < fresh.max_attempts
    → Reachable fresh n w
    → is_open w.job.status ≡ false
    → (e : Event) → apply e w ≡ w
unfolding apply
apply-final fresh n w lt r closed e =
    let h = Reachable-IsSound fresh n w lt r in
    let none_left : w.runners ≡ 0 = elim (Bool-cases (eqb w.runners 0)) [
      | inl z ↦ (ground arith)
      | inr busy ↦
          let ne : w.runners ≢ 0 = ground arith in let on = ap is_open (h.row ne) in absurd (cc)
    ] in
    elim e as (λ x. apply x w ≡ w) [
      | begin now ↦ begin-refused now w (closed-unclaimable now w.job closed)
      | finish now outcome ↦ finish-zero now outcome w none_left
      | crash ↦ ap (λ k. record { job = w.job; runners = k }) (sym none_left)
    ]
