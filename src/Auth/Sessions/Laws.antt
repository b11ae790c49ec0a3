-- ===== src/Auth/Sessions/Laws.antt =====
-- What a login, a logout, a check of a session and a change of a password guarantee.
use psychic_octo_invention.Prelude.{
  ℕ, ◌≤◌, ◌≡◌, ◌≢◌, ◌↔◌, ◌<◌, refl, sym, ap, ◌∙◌, ◌⊎◌, inl, inr, String, Bool, true, false, not,
  Option, none, some, some_inj, arith, ◌==◌, ltb, Bool-cases, Option-cases,
}
use psychic_octo_invention.Errors.{Result, ok, err}
use psychic_octo_invention.Auth.Types.{
  Admin, Session, AuthStore, SessionUser, to_session_user, find_by_email, find_session,
  find_by_token, delete_by_token,
}
use psychic_octo_invention.Auth.Rows.{find-filter}
use psychic_octo_invention.Auth.Sessions.{
  Client, Tokens, LoginResult, invalid_credentials, generic_auth_error, verify_password, login,
  logout, validate_session, open_session, refuse,
}

module _ (hash_token : String → String) (argon_verify : String → String → Option Bool)
    (argon_hash : String → String → String) (max_age : ℕ) where
  -- The admin who may log in with an email and a password.
  abbrev pub MayLogIn : String → String → AuthStore → Admin → Type 0
  MayLogIn email password store a =
      (find_by_email email store.admins ≡ some a)
      × (a.is_active ≡ true)
      × (verify_password argon_verify a.password_hash password ≡ true)

  abbrev try_login :
      String → String → ℕ → Tokens → Client → AuthStore → Result LoginResult × AuthStore
  try_login email password now tokens client store =
      login hash_token argon_verify argon_hash max_age email password now tokens client store

  module _ (email password : String) (now : ℕ) (tokens : Tokens) (client : Client)
      (store : AuthStore) where
    pub login-opens :
        (a : Admin)
        → MayLogIn email password store a
        → try_login email password now tokens client store
          ≡ open_session hash_token argon_verify argon_hash max_age now tokens client a store
    unfolding login
    login-opens a (found, active, right) = ground arith

    -- A login ends in one of two ways. The password is that of the active admin with the email, and
    -- the answer names this admin; or the answer is always the same error, whether the email, the
    -- password or the account is wrong, and no row changes.
    pub login-cases :
        ((a : Admin) × (r : LoginResult) × MayLogIn email password store a
          × ((try_login email password now tokens client store).0 ≡ ok r)
          × (r.user ≡ to_session_user a))
        ⊎ (((try_login email password now tokens client store).0
              ≡ err (invalid_credentials generic_auth_error))
            × ((try_login email password now tokens client store).1.admins ≡ store.admins)
            × ((try_login email password now tokens client store).1.sessions ≡ store.sessions))
    unfolding login refuse open_session
    login-cases = elim (Option-cases (find_by_email email store.admins)) [
      | inl absent ↦ inr (ground arith, ground arith, ground arith)
      | inr (a, found) ↦ elim (Bool-cases a.is_active) [
        | inr off ↦ inr (ground arith, ground arith, ground arith)
        | inl active ↦ elim (Bool-cases (verify_password argon_verify a.password_hash password)) [
          | inr wrong ↦ inr (ground arith, ground arith, ground arith)
          | inl right ↦ inl (
            a,
            record {
              session_token = tokens.session;
              csrf_token = tokens.csrf;
              user = to_session_user a;
            },
            (found, active, right),
            ground arith,
            refl,
          )
        ]
      ]
    ]

  module _ (token : String) (now : ℕ) (store : AuthStore) where
    abbrev pub checked : Option SessionUser × AuthStore
    checked = validate_session hash_token argon_verify argon_hash max_age token now store

    unfoldable pub without_token : AuthStore
    without_token = record store { sessions = delete_by_token (hash_token token) store.sessions }

    no_session-find :
        (other : AuthStore)
        → find_session (hash_token token) other.sessions ≡ none
        → find_by_token (hash_token token) other ≡ none
    unfolding find_by_token
    no_session-find other e = rw (find_by_token, e) refl

    absent-invalid :
        (other : AuthStore)
        → find_by_token (hash_token token) other ≡ none
        → (validate_session hash_token argon_verify argon_hash max_age token now other).0 ≡ none
    unfolding validate_session
    absent-invalid other absent = ground arith

    without_token-find :
        (store2 : AuthStore)
        → store2.sessions ≡ delete_by_token (hash_token token) store.sessions
        → find_by_token (hash_token token) store2 ≡ none
    unfolding find_session
    without_token-find store2 e = no_session-find store2 (
        ap (find_session (hash_token token)) e
        ∙ find-filter (λ s. s.token == hash_token token) (λ s. not (s.token == hash_token token))
            store.sessions (λ s k. ground arith))

    abbrev pub Stored : Session → Admin → Type 0
    Stored s a = find_by_token (hash_token token) store ≡ some (s, a)

    Stored-eq : (s t : Session) (a b : Admin) → Stored s a → Stored t b → (s ≡ t) × (a ≡ b)
    Stored-eq s t a b p q =
        let e : ◌≡◌ {A = Session × Admin} (s, a) (t, b) = some_inj _ _ (sym p ∙ q) in
        (ap (λ x. x.0) e, ap (λ x. x.1) e)

    pub checked-cases :
        ((find_by_token (hash_token token) store ≡ none) × (checked ≡ (none, store)))
        ⊎ ((s : Session) × (a : Admin) × Stored s a
            × ((s.expires_at < now) ⊎ (a.is_active ≡ false))
            × (checked ≡ (none, without_token)))
        ⊎ ((s : Session) × (a : Admin) × Stored s a
            × (now ≤ s.expires_at)
            × (a.is_active ≡ true)
            × (checked ≡ (some (to_session_user a), store)))
    unfolding validate_session without_token
    checked-cases = elim (Option-cases (find_by_token (hash_token token) store)) [
      | inl absent ↦ inl (absent, ground arith)
      | inr ((s, a), found) ↦ elim (Bool-cases (ltb s.expires_at now)) [
        | inl over ↦ inr (inl (s, a, found, inl (ground arith), ground arith))
        | inr live ↦ elim (Bool-cases a.is_active) [
          | inr off ↦ inr (inl (s, a, found, inr off, ground arith))
          | inl active ↦ inr (inr (s, a, found, ground arith, active, ground arith))
        ]
      ]
    ]

    -- A session is valid exactly if its token's hash is stored, it is not over and its admin is
    -- active; the user is then that admin.
    pub validate_session-valid_iff :
        (u : SessionUser)
        → (checked.0 ≡ some u) ↔ (
            (s : Session) × (a : Admin) × Stored s a
            × (now ≤ s.expires_at)
            × (a.is_active ≡ true)
            × (u ≡ to_session_user a))
    validate_session-valid_iff u = (
      (λ h. elim checked-cases [
        | inl (absent, e) ↦ absurd (let q = ap (λ x. x.0) e in cc)
        | inr (inl (s, a, found, why, e)) ↦ absurd (let q = ap (λ x. x.0) e in cc)
        | inr (inr (s, a, found, live, active, e)) ↦
            (s, a, found, live, active, some_inj _ _ (sym h ∙ ap (λ x. x.0) e))
      ]),
      (λ (s, a, found, live, active, same). elim checked-cases [
        | inl (absent, e) ↦ absurd (let q = sym absent ∙ found in cc)
        | inr (inl (s2, a2, found2, why, e)) ↦
            let (p, q) = Stored-eq s s2 a a2 found found2 in
            elim why [
              | inl over ↦ absurd (let at_most = ap (λ x. x.expires_at) p in omega arith)
              | inr off ↦ absurd (let on = ap (λ x. x.is_active) q in cc)
            ]
        | inr (inr (s2, a2, found2, live2, active2, e)) ↦
            let (p, q) = Stored-eq s2 s a2 a found2 found in
            ap (λ x. x.0) e ∙ ap some (ap (λ x. to_session_user x) q ∙ sym same)
      ]),
    )

    -- A check that finds no valid session leaves none with the token behind; one that finds a session
    -- changes nothing.
    validate_session-removes :
        (checked.0 ≡ none → find_by_token (hash_token token) checked.1 ≡ none)
        × (checked.0 ≢ none → checked.1 ≡ store)
    unfolding without_token
    validate_session-removes = elim checked-cases [
      | inl (absent, e) ↦
          ((λ h. ap (λ x. find_by_token (hash_token token) x.1) e ∙ absent), (λ h. ap (λ x. x.1) e))
      | inr (inl (s, a, found, why, e)) ↦ (
        (λ h. without_token-find checked.1 (ap (λ x. x.1.sessions) e)),
        (λ h. absurd (h (ap (λ x. x.0) e))),
      )
      | inr (inr (s, a, found, live, active, e)) ↦
          ((λ h. absurd (let q = ap (λ x. x.0) e in cc)), (λ h. ap (λ x. x.1) e))
    ]

    -- After a logout the token is no session's, and a check of it finds nobody.
    pub validate_session-logout :
        (client : Client)
        → (validate_session hash_token argon_verify argon_hash max_age token now
            (logout hash_token argon_verify argon_hash max_age token client store)).0
          ≡ none
    unfolding logout
    validate_session-logout client =
        absent-invalid (logout hash_token argon_verify argon_hash max_age token client store)
          (elim (Option-cases (find_by_token (hash_token token) store)) [
            | inl absent ↦ (ground arith)
            | inr ((s, a), found) ↦ without_token-find _ (ground arith)
          ])
