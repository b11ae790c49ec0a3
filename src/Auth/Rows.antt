-- ===== src/Auth/Rows.antt =====
-- The queries of the admin and session tables after updates and deletions, and the invariant of the
-- tables: the ids of admins are distinct, and each session belongs to an admin.
use psychic_octo_invention.Prelude.{
  ℕ, ◌≡◌, ◌≢◌, refl, sym, ap, ◌∙◌, inl, inr, Bool, true, false, none, some, List, [], ◌∷◌, arith,
  All, In, All-In, find, filter, eqb, Bool-cases, if◌then◌else◌,
}
use psychic_octo_invention.Auth.Types.{Admin, Session, AuthStore, find_admin, update_admin}

abbrev pub AreDistinct : List Admin → Type 0
AreDistinct [] = Unit
AreDistinct (a ∷ rest) = All (λ b. b.id ≢ a.id) rest × AreDistinct rest

abbrev pub IsOwned : List Admin → Session → Type 0
IsOwned admins s = (a : Admin) × (find_admin s.admin_id admins ≡ some a)

pub record IsWellFormed (store : AuthStore) : Type 0 where
  pub distinct : AreDistinct store.admins
  pub owned : All (IsOwned store.admins) store.sessions

abbrev pub updated : ℕ → (Admin → Admin) → Admin → Admin
updated id f a = if eqb a.id id then f a else a

-- A query whose test an update does not touch finds the updated row.
pub find-update_admin :
    (p : Admin → Bool) (id : ℕ) (f : Admin → Admin) (admins : List Admin) (a : Admin)
    → ((b : Admin) → p (f b) ≡ p b)
    → find p admins ≡ some a
    → find p (update_admin id f admins) ≡ some (updated id f a)
unfolding update_admin
find-update_admin p id f [] a same e = cc
find-update_admin p id f (x ∷ xs) a same e = elim (Bool-cases (eqb x.id id)) [
  | inl k ↦ elim (Bool-cases (p x)) [
    | inl here ↦
        let q : x ≡ a = ground arith in
        let k2 : eqb a.id id ≡ true = ap (λ y. eqb y.id id) (sym q) ∙ k in
        simp (k, same x, here, k2) (ap some (ap f q))
    | inr there ↦ simp (k, same x, there) (find-update_admin p id f xs a same (ground arith))
  ]
  | inr k ↦ elim (Bool-cases (p x)) [
    | inl here ↦
        let q : x ≡ a = ground arith in
        let k2 : eqb a.id id ≡ false = ap (λ y. eqb y.id id) (sym q) ∙ k in
        simp (k, here, k2) (ap some q)
    | inr there ↦ simp (k, there) (find-update_admin p id f xs a same (ground arith))
  ]
]

-- The row of an id is found by the id.
pub find_admin-In :
    (a : Admin) (admins : List Admin)
    → AreDistinct admins
    → In a admins
    → find_admin a.id admins ≡ some a
unfolding find_admin
find_admin-In a [] d m = absurd m
find_admin-In a (x ∷ xs) d (inl e) = rw e (ground arith)
find_admin-In a (x ∷ xs) d (inr m) =
    let ne = All-In (λ b. b.id ≢ x.id) a xs d.0 m in
    let rest = find_admin-In a xs d.1 m in ground arith

update_admin-All :
    (P : Admin → Type 0) (id : ℕ) (f : Admin → Admin) (admins : List Admin)
    → ((a : Admin) → P a → P (f a))
    → All P admins
    → All P (update_admin id f admins)
unfolding update_admin
update_admin-All P id f [] step h = tt
update_admin-All P id f (x ∷ xs) step h = (
  elim (Bool-cases (eqb x.id id)) [ inl k ↦ rw k (step x h.0) | inr k ↦ rw k h.0 ],
  update_admin-All P id f xs step h.1,
)

pub update_admin-AreDistinct :
    (id : ℕ) (f : Admin → Admin) (admins : List Admin)
    → ((a : Admin) → (f a).id ≡ a.id)
    → AreDistinct admins
    → AreDistinct (update_admin id f admins)
unfolding update_admin
update_admin-AreDistinct id f [] same d = tt
update_admin-AreDistinct id f (x ∷ xs) same d =
    let others =
      update_admin-All (λ b. b.id ≢ x.id) id f xs (λ a ne q. ne (sym (same a) ∙ q)) d.0 in
    (
      elim (Bool-cases (eqb x.id id)) [ inl k ↦ rw (k, same x) others | inr k ↦ rw k others ],
      update_admin-AreDistinct id f xs same d.1,
    )

pub filter-All :
    (P : Session → Type 0) (p : Session → Bool) (sessions : List Session)
    → All P sessions
    → All P (filter p sessions)
filter-All P p [] h = tt
filter-All P p (s ∷ rest) h = elim (Bool-cases (p s)) [
  | inl k ↦ rw k (h.0, filter-All P p rest h.1)
  | inr k ↦ rw k (filter-All P p rest h.1)
]

-- What a filter leaves out is not found.
pub find-filter :
    (p q : Session → Bool) (sessions : List Session)
    → ((s : Session) → p s ≡ true → q s ≡ false)
    → find p (filter q sessions) ≡ none
find-filter p q [] h = refl
find-filter p q (s ∷ rest) h = elim (Bool-cases (q s)) [
  | inl k ↦ elim (Bool-cases (p s)) [
    | inl e ↦ absurd (let n = h s e in cc)
    | inr e ↦ rw (k, e) (find-filter p q rest h)
  ]
  | inr k ↦ rw k (find-filter p q rest h)
]

pub In-filter :
    (q : Session → Bool) (sessions : List Session) (s : Session)
    → In s (filter q sessions)
    → q s ≡ true
In-filter q [] s m = absurd m
In-filter q (x ∷ xs) s m = elim (Bool-cases (q x)) [
  | inr k ↦ In-filter q xs s (rw k at m)
  | inl k ↦
      let split : In s (x ∷ filter q xs) = rw k at m in
      elim split [ inl e ↦ ap q e ∙ k | inr n ↦ In-filter q xs s n ]
]
