-- ===== src/Memory/Records/Laws.antt =====
-- The table holds one record for each key and never forgets importance.
use psychic_octo_invention.Prelude.{
  ℕ, ◌+◌, ◌≤◌, ◌<◌, ◌≡◌, ◌≢◌, refl, sym, ap, subst, ◌∙◌, ◌⊎◌, inl, inr, false, List, [], ◌∷◌, arith,
  All, In, All-In, find, find-satisfies, find-none, leb, eqb, eq_iff, Bool-cases, Option-cases,
}
use psychic_octo_invention.Memory.Facts.{MemoryFact}
use psychic_octo_invention.Memory.Records.{
  MemoryRecord, MemoryStore, is_at, score_of, overwrite, new_record, update_record, upsert,
  is_skipped, store_facts,
}

-- Two records of one key.
abbrev pub SameKey : MemoryRecord → MemoryRecord → Type 0
SameKey r s = (r.namespace ≡ s.namespace) × (r.subject_key ≡ s.subject_key)

-- Of every key there is one record, and of every id.
abbrev pub IsUnique : List MemoryRecord → Type 0
IsUnique [] = Unit
IsUnique (r ∷ rs) = All (λ s. (SameKey s r → ⊥) × (s.id ≢ r.id)) rs × IsUnique rs

pub record IsWellFormed (store : MemoryStore) : Type 0 where
  pub unique : IsUnique store.records
  pub ids : All (λ r. r.id < store.next_id) store.records

-- The record has a successor of its key that is at least as important.
abbrev pub Survives : MemoryStore → MemoryRecord → Type 0
Survives store r = (s : MemoryRecord) × In s store.records × SameKey s r × (score_of r ≤ score_of s)

update-All :
    (P Q : MemoryRecord → Type 0) (id : ℕ) (f : MemoryRecord → MemoryRecord)
    (rs : List MemoryRecord)
    → ((r : MemoryRecord) → P r → Q r)
    → ((r : MemoryRecord) → P r → Q (f r))
    → All P rs
    → All Q (update_record id f rs)
unfolding update_record
update-All P Q id f [] keep step h = tt
update-All P Q id f (r ∷ rs) keep step h = (
  elim (Bool-cases (eqb r.id id)) [ inl e ↦ rw e (step r h.0) | inr e ↦ rw e (keep r h.0) ],
  update-All P Q id f rs keep step h.1,
)

update-IsUnique :
    (id : ℕ) (fact : MemoryFact) (rs : List MemoryRecord)
    → IsUnique rs
    → IsUnique (update_record id (overwrite fact) rs)
unfolding update_record
update-IsUnique id fact [] u = tt
update-IsUnique id fact (r ∷ rs) u =
    let others =
      update-All (λ s. (SameKey s r → ⊥) × (s.id ≢ r.id)) (λ s. (SameKey s r → ⊥) × (s.id ≢ r.id))
        id (overwrite fact) rs (λ s p. p) (λ s p. p) u.0 in
    (
      elim (Bool-cases (eqb r.id id)) [ inl e ↦ rw e others | inr e ↦ rw e others ],
      update-IsUnique id fact rs u.1,
    )

-- The updated row is more important than before, so that all records survive.
update-Survives :
    (id : ℕ) (fact : MemoryFact) (rs : List MemoryRecord) (r : MemoryRecord)
    → In r rs
    → (r.id ≡ id → score_of r ≤ fact.importance)
    → (s : MemoryRecord) × In s (update_record id (overwrite fact) rs)
      × SameKey s r
      × (score_of r ≤ score_of s)
unfolding update_record
update-Survives id fact [] r m le = absurd m
update-Survives id fact (x ∷ xs) r (inl e) le = elim (Bool-cases (eqb x.id id)) [
  | inl k ↦
      let same : r.id ≡ id = ap (λ y. y.id) e ∙ (ground arith) in
      simp k (
        overwrite fact x,
        inl refl,
        (ap (λ y. y.namespace) (sym e), ap (λ y. y.subject_key) (sym e)),
        le same,
      )
  | inr k ↦ simp k (
    x,
    inl refl,
    (ap (λ y. y.namespace) (sym e), ap (λ y. y.subject_key) (sym e)),
    (let q = ap (λ y. score_of y) e in omega arith),
  )
]
update-Survives id fact (x ∷ xs) r (inr m) le =
    let (s, n, key, bound) = update-Survives id fact xs r m le in
    elim (Bool-cases (eqb x.id id)) [
      | inl k ↦ simp k (s, inr n, key, bound)
      | inr k ↦ simp k (s, inr n, key, bound)
    ]

IsUnique-eq :
    (r s : MemoryRecord) (rs : List MemoryRecord)
    → IsUnique rs
    → In r rs
    → In s rs
    → r.id ≡ s.id
    → r ≡ s
IsUnique-eq r s [] u m n e = absurd m
IsUnique-eq r s (x ∷ xs) u (inl p) (inl q) e = p ∙ sym q
IsUnique-eq r s (x ∷ xs) u (inl p) (inr q) e =
    absurd
      ((All-In (λ y. (SameKey y x → ⊥) × (y.id ≢ x.id)) s xs u.0 q).1 (sym e ∙ ap (λ y. y.id) p))
IsUnique-eq r s (x ∷ xs) u (inr p) (inl q) e =
    absurd ((All-In (λ y. (SameKey y x → ⊥) × (y.id ≢ x.id)) r xs u.0 p).1 (e ∙ ap (λ y. y.id) q))
IsUnique-eq r s (x ∷ xs) u (inr p) (inr q) e = IsUnique-eq r s xs u.1 p q e

is_at-SameKey :
    (fact : MemoryFact) (n : ℕ) (s : MemoryRecord)
    → is_at fact.namespace fact.subject_key s ≡ false
    → SameKey s (new_record n fact)
    → ⊥
is_at-SameKey fact n s e (p, q) =
    let a = eq_iff s.namespace fact.namespace in
    let b = eq_iff s.subject_key fact.subject_key in let x = a.1 p in let y = b.1 q in ground arith

new-others :
    (fact : MemoryFact) (n : ℕ) (rs : List MemoryRecord)
    → All (λ r. is_at fact.namespace fact.subject_key r ≡ false) rs
    → All (λ r. r.id < n) rs
    → All (λ s. (SameKey s (new_record n fact) → ⊥) × (s.id ≢ n)) rs
new-others fact n [] h k = tt
new-others fact n (r ∷ rs) h k =
    ((is_at-SameKey fact n r h.0, (let lt = k.0 in omega arith)), new-others fact n rs h.1 k.1)

weaken-All : (n : ℕ) (rs : List MemoryRecord) → All (λ r. r.id < n) rs → All (λ r. r.id < n + 1) rs
weaken-All n [] h = tt
weaken-All n (r ∷ rs) h = ((let lt = h.0 in omega arith), weaken-All n rs h.1)

module _ (fact : MemoryFact) (store : MemoryStore) where
  abbrev added : MemoryStore
  added = record {
    records = new_record store.next_id fact ∷ store.records;
    next_id = store.next_id + 1;
  }

  abbrev rewritten : MemoryRecord → MemoryStore
  rewritten existing = record store {
    records = update_record existing.id (overwrite fact) store.records;
  }

  upsert-cases :
      ((existing : MemoryRecord) × In existing store.records
        × (score_of existing ≤ fact.importance)
        × (upsert fact store ≡ rewritten existing))
      ⊎ (upsert fact store ≡ store)
      ⊎ (All (λ r. is_at fact.namespace fact.subject_key r ≡ false) store.records
          × (upsert fact store ≡ added))
  unfolding upsert
  upsert-cases = elim (Option-cases (find (is_at fact.namespace fact.subject_key) store.records)) [
    | inl absent ↦
        inr (
          inr
            (find-none (is_at fact.namespace fact.subject_key) store.records absent, ground arith))
    | inr (existing, found) ↦ elim (Bool-cases (leb (score_of existing) fact.importance)) [
      | inl up ↦ inl (
        existing,
        (find-satisfies (is_at fact.namespace fact.subject_key) store.records found).0,
        ground arith,
        ground arith,
      )
      | inr keep ↦ inr (inl (ground arith))
    ]
  ]

  upsert-IsWellFormed : IsWellFormed store → IsWellFormed (upsert fact store)
  upsert-IsWellFormed h = elim upsert-cases [
    | inl (existing, m, le, e) ↦ subst IsWellFormed (sym e) (record {
      unique = update-IsUnique existing.id fact store.records h.unique;
      ids =
          update-All (λ r. r.id < store.next_id) (λ r. r.id < store.next_id) existing.id
            (overwrite fact) store.records (λ r p. p) (λ r p. p) h.ids;
    })
    | inr (inl e) ↦ subst IsWellFormed (sym e) h
    | inr (inr (absent, e)) ↦ subst IsWellFormed (sym e) (record {
      unique = (new-others fact store.next_id store.records absent h.ids, h.unique);
      ids = (omega arith, weaken-All store.next_id store.records h.ids);
    })
  ]

  upsert-Survives :
      IsWellFormed store → (r : MemoryRecord) → In r store.records → Survives (upsert fact store) r
  upsert-Survives h r m = elim upsert-cases [
    | inl (existing, k, le, e) ↦
        subst (λ s. Survives s r) (sym e)
          (update-Survives existing.id fact store.records r m (λ same.
            subst (λ y. score_of y ≤ fact.importance)
              (sym (IsUnique-eq r existing store.records h.unique m k same)) le))
    | inr (inl e) ↦ subst (λ s. Survives s r) (sym e) (r, m, (refl, refl), omega arith)
    | inr (inr (absent, e)) ↦
        subst (λ s. Survives s r) (sym e) (r, inr m, (refl, refl), omega arith)
  ]

store_facts-steps :
    (P : MemoryStore → Type 0) (facts : List MemoryFact) (store : MemoryStore)
    → ((fact : MemoryFact) (s : MemoryStore) → P s → P (upsert fact s))
    → P store
    → P (store_facts facts store).1
unfolding store_facts
store_facts-steps P [] store step h = h
store_facts-steps P (fact ∷ facts) store step h = elim (Bool-cases (is_skipped fact store)) [
  | inl skipped ↦ rw skipped (store_facts-steps P facts store step h)
  | inr new ↦ rw new (store_facts-steps P facts (upsert fact store) step (step fact store h))
]

-- Storing the facts of an exchange keeps one record of every key, and each record that was there has a
-- record of its key that is at least as important.
pub store_facts-keeps :
    (facts : List MemoryFact) (store : MemoryStore)
    → IsWellFormed store
    → IsWellFormed (store_facts facts store).1
      × ((r : MemoryRecord) → In r store.records → Survives (store_facts facts store).1 r)
store_facts-keeps facts store h =
    store_facts-steps
      (λ s. IsWellFormed s × ((r : MemoryRecord) → In r store.records → Survives s r)) facts store
      (λ fact s (w, old). (
        upsert-IsWellFormed fact s w,
        λ r m.
            let (t, n, (p, q), le) = old r m in
            let (v, k, (p2, q2), le2) = upsert-Survives fact s w t n in
            (v, k, (p2 ∙ p, q2 ∙ q), omega arith),
      ))
      (h, λ r m. (r, m, (refl, refl), omega arith))
