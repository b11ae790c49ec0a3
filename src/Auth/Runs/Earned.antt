-- ===== src/Auth/Runs/Earned.antt =====
-- Which logins the sessions of the service go back to (apps/api/src/services/auth.service.ts).
use psychic_octo_invention.Prelude.{
  ℕ, ◌+◌, ◌≡◌, refl, sym, ap, ◌∙◌, subst, inl, inr, String, Bool, true, false, not, Option, some,
  List, [], ◌∷◌, arith, All, In, eqb, filter, find-satisfies, Bool-cases, Option-cases, codes,
  text_eq, to_lower_case,
}
use psychic_octo_invention.Auth.Types.{
  Admin, Session, AuthStore, find_admin, find_by_email, find_by_token, update_admin,
  delete_all_for_admin, delete_by_token,
}
use psychic_octo_invention.Auth.Rows.{find-update_admin, find_admin-In, updated, filter-All}
use psychic_octo_invention.Auth.Sessions.{
  Client, Tokens, logout, open_session, update_last_login, set_password_hash, verify_password,
  new_session,
}
use psychic_octo_invention.Auth.Sessions.Laws.{
  login-opens, login-cases, checked-cases, without_token,
}
use psychic_octo_invention.Auth.Sessions.Passwords.{change_password-cases, find_by_email-In}
use psychic_octo_invention.Auth.Runs.{
  Request, log_in, log_out, check, change, apply, Reachable, start, step, Reachable-IsWellFormed,
}

-- Rows that a filter keeps pass its test.
filter-passing :
    (P : Session → Type 0) (p : Session → Bool) (sessions : List Session)
    → All P sessions
    → All (λ s. P s × (p s ≡ true)) (filter p sessions)
filter-passing P p [] h = tt
filter-passing P p (s ∷ rest) h = elim (Bool-cases (p s)) [
  | inl k ↦ rw k ((h.0, k), filter-passing P p rest h.1)
  | inr k ↦ rw k (filter-passing P p rest h.1)
]

All-each :
    (P Q : Session → Type 0) (sessions : List Session)
    → ((s : Session) → P s → Q s)
    → All P sessions
    → All Q sessions
All-each P Q [] f h = tt
All-each P Q (s ∷ rest) f h = (f s h.0, All-each P Q rest f h.1)

module _ (hash_token : String → String) (argon_verify : String → String → Option Bool)
    (argon_hash : String → String → String) (max_age : ℕ) where
  -- The login that a session goes back to, and the admin whose password it gave.
  pub record IsEarned (requests : List Request) (admins : List Admin) (s : Session) : Type 0 where
    pub owner : Admin
    pub found : find_admin s.admin_id admins ≡ some owner
    pub email : String
    pub password : String
    pub now : ℕ
    pub tokens : Tokens
    pub client : Client
    pub asked : In (log_in email password now tokens client) requests
    pub named : text_eq (codes owner.email) (to_lower_case (codes email)) ≡ true
    pub right : verify_password argon_verify owner.password_hash password ≡ true
    pub token : s.token ≡ hash_token tokens.session
    pub ends : s.expires_at ≡ now + max_age

  later-IsEarned :
      (request : Request) (requests : List Request) (admins : List Admin) (s : Session)
      → IsEarned requests admins s
      → IsEarned (request ∷ requests) admins s
  later-IsEarned request requests admins s h = record {
    owner = h.owner;
    found = h.found;
    email = h.email;
    password = h.password;
    now = h.now;
    tokens = h.tokens;
    client = h.client;
    asked = inr h.asked;
    named = h.named;
    right = h.right;
    token = h.token;
    ends = h.ends;
  }

  -- An update of the admins that leaves the owner's password and email alone.
  update-IsEarned :
      (requests : List Request) (id : ℕ) (f : Admin → Admin) (admins : List Admin) (s : Session)
      (h : IsEarned requests admins s)
      → ((a : Admin) → (f a).id ≡ a.id)
      → (updated id f h.owner).password_hash ≡ h.owner.password_hash
      → (updated id f h.owner).email ≡ h.owner.email
      → IsEarned requests (update_admin id f admins) s
  unfolding find_admin
  update-IsEarned requests id f admins s h same password email = record {
    owner = updated id f h.owner;
    found =
        find-update_admin (λ a. eqb a.id s.admin_id) id f admins h.owner
          (λ a. ap (λ k. eqb k s.admin_id) (same a)) h.found;
    email = h.email;
    password = h.password;
    now = h.now;
    tokens = h.tokens;
    client = h.client;
    asked = h.asked;
    named = ap (λ e. text_eq (codes e) (to_lower_case (codes h.email))) email ∙ h.named;
    right = ap (λ p. verify_password argon_verify p h.password) password ∙ h.right;
    token = h.token;
    ends = h.ends;
  }

  -- The time of a login changes neither.
  last_login-IsEarned :
      (requests : List Request) (id now : ℕ) (ip : String) (admins : List Admin) (s : Session)
      → IsEarned requests admins s
      → IsEarned requests (update_admin id (update_last_login now ip) admins) s
  last_login-IsEarned requests id now ip admins s h = elim (Bool-cases (eqb h.owner.id id)) [
    | inl e ↦
        update-IsEarned requests id (update_last_login now ip) admins s h (λ a. refl) (rw e refl)
          (rw e refl)
    | inr e ↦
        update-IsEarned requests id (update_last_login now ip) admins s h (λ a. refl) (rw e refl)
          (rw e refl)
  ]

  -- A new password of another admin changes neither.
  new_password-IsEarned :
      (requests : List Request) (id : ℕ) (hash : String) (admins : List Admin) (s : Session)
      → not (eqb s.admin_id id) ≡ true
      → IsEarned requests admins s
      → IsEarned requests (update_admin id (set_password_hash hash) admins) s
  unfolding find_admin
  new_password-IsEarned requests id hash admins s other h =
      let found : eqb h.owner.id s.admin_id ≡ true = (find-satisfies _ admins h.found).1 in
      let e : eqb h.owner.id id ≡ false = ground arith in
      update-IsEarned requests id (set_password_hash hash) admins s h (λ a. refl) (rw e refl)
        (rw e refl)

  abbrev AreEarned : List Request → AuthStore → Type 0
  AreEarned requests store = All (IsEarned requests store.admins) store.sessions

  same-AreEarned :
      (requests : List Request) (store after : AuthStore)
      → after.admins ≡ store.admins
      → All (IsEarned requests store.admins) after.sessions
      → AreEarned requests after
  same-AreEarned requests store after e h =
      subst (λ admins. All (IsEarned requests admins) after.sessions) (sym e) h

  all-later :
      (request : Request) (requests : List Request) (admins : List Admin) (sessions : List Session)
      → All (IsEarned requests admins) sessions
      → All (IsEarned (request ∷ requests) admins) sessions
  all-later request requests admins sessions h =
      All-each (IsEarned requests admins) (IsEarned (request ∷ requests) admins) sessions
        (later-IsEarned request requests admins) h

  email_of :
      (email : String) (store : AuthStore) (a : Admin)
      → find_by_email email store.admins ≡ some a
      → text_eq (codes a.email) (to_lower_case (codes email)) ≡ true
  unfolding find_by_email
  email_of email store a e = (find-satisfies _ store.admins e).1

  module _ (requests : List Request) (store : AuthStore) where
    abbrev After : Request → Type 0
    After request =
        AreEarned (request ∷ requests)
          (apply hash_token argon_verify argon_hash max_age request store)

    login-AreEarned :
        (email password : String) (now : ℕ) (tokens : Tokens) (client : Client)
        → ((a : Admin) → In a store.admins → find_admin a.id store.admins ≡ some a)
        → AreEarned requests store
        → After (log_in email password now tokens client)
    unfolding apply open_session
    login-AreEarned email password now tokens client rows h =
        let request = log_in email password now tokens client in
        elim (login-cases hash_token argon_verify argon_hash max_age email password now tokens
          client store) [
            | inr (refused, same, kept) ↦
                same-AreEarned (request ∷ requests) store
                  (apply hash_token argon_verify argon_hash max_age request store) same
                  (subst (All (IsEarned (request ∷ requests) store.admins)) (sym kept)
                    (all-later request requests store.admins store.sessions h))
            | inl (a, r, may, answer, user) ↦
                let (found, active, right) = may in
                let eq =
                  login-opens hash_token argon_verify argon_hash max_age email password now tokens
                    client store a may in
                let admins = update_admin a.id (update_last_login now client.ip) store.admins in
                let opened : IsEarned (request ∷ requests) store.admins (
                    new_session hash_token argon_verify argon_hash max_age now tokens client a.id) =
                  record {
                    owner = a;
                    found = rows a (find_by_email-In email store a found);
                    email = email;
                    password = password;
                    now = now;
                    tokens = tokens;
                    client = client;
                    asked = inl refl;
                    named = email_of email store a found;
                    right = right;
                    token = refl;
                    ends = refl;
                  } in
                subst (λ x. AreEarned (request ∷ requests) x.1) (sym eq)
                  (
                    last_login-IsEarned (request ∷ requests) a.id now client.ip store.admins _
                        opened,
                    All-each (IsEarned requests store.admins) (IsEarned (request ∷ requests) admins)
                        store.sessions
                        (λ s e.
                          last_login-IsEarned (request ∷ requests) a.id now client.ip store.admins s
                            (later-IsEarned request requests store.admins s e))
                        h,
                  )
          ]

    change-AreEarned :
        (id : ℕ) (current new salt : String) (client : Client)
        → AreEarned requests store
        → After (change id current new salt client)
    unfolding apply
    change-AreEarned id current new salt client h =
        let request = change id current new salt client in
        let hash = argon_hash salt new in
        elim (change_password-cases hash_token argon_verify argon_hash max_age id current new salt
          client store) [
            | inr (refused, same, kept) ↦
                same-AreEarned (request ∷ requests) store
                  (apply hash_token argon_verify argon_hash max_age request store) same
                  (subst (All (IsEarned (request ∷ requests) store.admins)) (sym kept)
                    (all-later request requests store.admins store.sessions h))
            | inl (success, changed, left) ↦
                let admins = update_admin id (set_password_hash hash) store.admins in
                let kept : All (IsEarned (request ∷ requests) admins)
                    (delete_all_for_admin id store.sessions) =
                  All-each _ (IsEarned (request ∷ requests) admins) _
                    (λ s e.
                      new_password-IsEarned (request ∷ requests) id hash store.admins s e.1
                        (later-IsEarned request requests store.admins s e.0))
                    (filter-passing (IsEarned requests store.admins) (λ s. not (eqb s.admin_id id))
                      store.sessions h) in
                subst
                  (λ admins.
                    All (IsEarned (request ∷ requests) admins)
                      (apply hash_token argon_verify argon_hash max_age request store).sessions)
                  (sym changed) (subst (All (IsEarned (request ∷ requests) admins)) (sym left) kept)
          ]

    check-AreEarned :
        (token : String) (now : ℕ) → AreEarned requests store → After (check token now)
    unfolding apply without_token
    check-AreEarned token now h =
        let request = check token now in
        let later = all-later request requests store.admins store.sessions h in
        elim (checked-cases hash_token argon_verify argon_hash max_age token now store) [
          | inl (absent, e) ↦ subst (λ x. AreEarned (request ∷ requests) x.1) (sym e) later
          | inr (inl (s, a, found, why, e)) ↦
              subst (λ x. AreEarned (request ∷ requests) x.1) (sym e)
                (filter-All (IsEarned (request ∷ requests) store.admins) _ store.sessions later)
          | inr (inr (s, a, found, live, active, e)) ↦
              subst (λ x. AreEarned (request ∷ requests) x.1) (sym e) later
        ]

    logout-AreEarned :
        (token : String) (client : Client) → AreEarned requests store → After (log_out token client)
    unfolding apply logout
    logout-AreEarned token client h =
        let request = log_out token client in
        let later = all-later request requests store.admins store.sessions h in
        let after = logout hash_token argon_verify argon_hash max_age token client store in
        elim (Option-cases (find_by_token (hash_token token) store)) [
          | inl absent ↦
              let e : after ≡ store = ground arith in
              subst (AreEarned (request ∷ requests)) (sym e) later
          | inr ((s, a), found) ↦
              let same : after.admins ≡ store.admins = ground arith in
              let e : after.sessions ≡ delete_by_token (hash_token token) store.sessions =
                ground arith in
              same-AreEarned (request ∷ requests) store after same (
                subst (All (IsEarned (request ∷ requests) store.admins)) (sym e)
                  (filter-All (IsEarned (request ∷ requests) store.admins) _ store.sessions later))
        ]

  -- The admins of the tables have distinct ids at first, and there is no session. Then after any
  -- sequence of logins, logouts, checks and changes of passwords every session goes back to a login of
  -- the sequence: it has the hash of the token that this login made and ends at its time plus the
  -- greatest age. The session's admin is in the table and has the email of the login, and the password
  -- that the login gave verifies against the hash that the admin has now.
  pub Reachable-AreEarned :
      (requests : List Request) (store : AuthStore)
      → Reachable hash_token argon_verify argon_hash max_age requests store
      → All (IsEarned requests store.admins) store.sessions
  Reachable-AreEarned _ store (start _ d e) = subst (All (IsEarned [] store.admins)) (sym e) tt
  Reachable-AreEarned _ store (step request requests before _ r e) =
      let h = Reachable-AreEarned requests before r in
      let d =
        (Reachable-IsWellFormed hash_token argon_verify argon_hash max_age requests before
          r).distinct in
      subst (AreEarned (request ∷ requests)) (sym e)
        (elim request as (λ q. After requests before q) [
          | log_in email password now tokens client ↦
              login-AreEarned requests before email password now tokens client
                (λ a m. find_admin-In a before.admins d m) h
          | log_out token client ↦ logout-AreEarned requests before token client h
          | check token now ↦ check-AreEarned requests before token now h
          | change id current new salt client ↦
              change-AreEarned requests before id current new salt client h
        ])
