-- ===== src/Auth/Sessions/Passwords.antt =====
-- How a login and a change of a password act on the sessions that are checked later.
use psychic_octo_invention.Prelude.{
  ℕ, ◌+◌, ◌≤◌, ◌≡◌, ◌≢◌, refl, sym, ap, subst, ◌∙◌, ◌⊎◌, inl, inr, String, Bool, true, not, Option,
  some, some_inj, arith, In, find, find-satisfies, eqb, ◌==◌, eq_refl, Bool-cases, Option-cases,
  if◌then◌else◌,
}
use psychic_octo_invention.Errors.{Result, ok}
use psychic_octo_invention.Auth.Types.{
  Admin, Session, AuthStore, SessionUser, to_session_user, find_admin, find_by_email, find_session,
  find_by_token, update_admin, delete_all_for_admin,
}
use psychic_octo_invention.Auth.Rows.{
  IsWellFormed, find-update_admin, find_admin-In, In-filter, updated,
}
use psychic_octo_invention.Auth.Sessions.{
  Client, Tokens, LoginResult, verify_password, login, validate_session, change_password,
  open_session, new_session, update_last_login, set_password_hash,
}
use psychic_octo_invention.Auth.Sessions.Laws.{login-opens, login-cases, validate_session-valid_iff}

pub find_by_email-In :
    (email : String) (store : AuthStore) (a : Admin)
    → find_by_email email store.admins ≡ some a
    → In a store.admins
unfolding find_by_email
find_by_email-In email store a e = (find-satisfies _ store.admins e).0

find_by_token-some :
    (token : String) (store : AuthStore) (s : Session) (a : Admin)
    → find_session token store.sessions ≡ some s
    → find_admin s.admin_id store.admins ≡ some a
    → find_by_token token store ≡ some (s, a)
unfolding find_by_token
find_by_token-some token store s a e f = rw (find_by_token, e, f) refl

-- The two queries of a token.
find_by_token-parts :
    (token : String) (store : AuthStore) (s : Session) (a : Admin)
    → find_by_token token store ≡ some (s, a)
    → (In s store.sessions) × (a.id ≡ s.admin_id)
unfolding find_by_token find_session find_admin
find_by_token-parts token store s a e =
    elim (Option-cases (find (λ t. t.token == token) store.sessions)) [
      | inl absent ↦ absurd (ground arith)
      | inr (t, found) ↦ elim (Option-cases (find (λ b. eqb b.id t.admin_id) store.admins)) [
        | inl absent ↦ absurd (ground arith)
        | inr (b, owner) ↦
            let pair : ◌≡◌ {A = Option (Session × Admin)} (some (t, b)) (some (s, a)) =
              ground arith in
            let both : ◌≡◌ {A = Session × Admin} (t, b) (s, a) = some_inj _ _ pair in
            let t_eq : t ≡ s = ap (λ x. x.0) both in
            let b_eq : b ≡ a = ap (λ x. x.1) both in
            let own = (find-satisfies (λ c. eqb c.id t.admin_id) store.admins owner).1 in
            let own2 : b.id ≡ t.admin_id = ground arith in
            (
              subst (λ x. In x store.sessions) t_eq
                  (find-satisfies (λ x. x.token == token) store.sessions found).0,
              ap (λ x. x.id) (sym b_eq) ∙ own2 ∙ ap (λ x. x.admin_id) t_eq,
            )
      ]
    ]

module _ (hash_token : String → String) (argon_verify : String → String → Option Bool)
    (argon_hash : String → String → String) (max_age : ℕ) where
  module _ (email password : String) (now : ℕ) (tokens : Tokens) (client : Client)
      (store : AuthStore) where
    abbrev logged_in : Result LoginResult × AuthStore
    logged_in =
        login hash_token argon_verify argon_hash max_age email password now tokens client store

    opened-find :
        (a : Admin)
        → find_admin a.id store.admins ≡ some a
        → find_by_token
            (hash_token tokens.session)
            (open_session hash_token argon_verify argon_hash max_age now tokens client a store).1
          ≡ some (
            new_session hash_token argon_verify argon_hash max_age now tokens client a.id,
            update_last_login now client.ip a,
          )
    unfolding open_session find_session find_admin
    opened-find a found =
        let same = eq_refl (hash_token tokens.session) in
        let own : eqb a.id a.id ≡ true = ground arith in
        let row = update_last_login now client.ip a in
        let updated_eq : updated a.id (update_last_login now client.ip) a ≡ row =
          ap (λ t. if t then row else a) own in
        let later =
          find-update_admin (λ b. eqb b.id a.id) a.id (update_last_login now client.ip) store.admins
            a (λ b. refl) found
          ∙ ap some updated_eq in
        find_by_token-some (hash_token tokens.session)
          (open_session hash_token argon_verify argon_hash max_age now tokens client a store).1
          (new_session hash_token argon_verify argon_hash max_age now tokens client a.id) row
          (ground arith) later

    -- The session of a successful login is valid until it is as old as a session may be, for the
    -- user that the login named.
    pub validate_session-login :
        (r : LoginResult) (later : ℕ)
        → IsWellFormed store
        → logged_in.0 ≡ ok r
        → later ≤ now + max_age
        → (validate_session hash_token argon_verify argon_hash max_age tokens.session later
            logged_in.1).0
          ≡ some r.user
    validate_session-login r later h success le =
        elim (login-cases hash_token argon_verify argon_hash max_age email password now tokens
          client store) [
            | inr (refused, same, kept) ↦ absurd (cc)
            | inl (a, r2, may, answer, user) ↦
                let eq =
                  login-opens hash_token argon_verify argon_hash max_age email password now tokens
                    client store a may in
                let row =
                  find_admin-In a store.admins h.distinct (find_by_email-In email store a may.0) in
                let same : r2 ≡ r = cc in
                (validate_session-valid_iff hash_token argon_verify argon_hash max_age
                    tokens.session later logged_in.1 r.user).1
                  (
                    new_session hash_token argon_verify argon_hash max_age now tokens client a.id,
                    update_last_login now client.ip a,
                    ap (λ x. find_by_token (hash_token tokens.session) x.1) eq ∙ opened-find a row,
                    le,
                    may.1,
                    ap (λ x. x.user) (sym same) ∙ user,
                  )
          ]

  module _ (admin_id : ℕ) (current new salt : String) (client : Client) (store : AuthStore) where
    abbrev pub changed : Result (Unit {0}) × AuthStore
    changed =
        change_password hash_token argon_verify argon_hash max_age admin_id current new salt client
          store

    -- A change that succeeds sets the hash and ends the sessions; a refused one changes no row.
    pub change_password-cases :
        ((changed.0 ≡ ok tt)
          × (changed.1.admins
              ≡ update_admin admin_id (set_password_hash (argon_hash salt new)) store.admins)
          × (changed.1.sessions ≡ delete_all_for_admin admin_id store.sessions))
        ⊎ ((changed.0 ≢ ok tt)
            × (changed.1.admins ≡ store.admins)
            × (changed.1.sessions ≡ store.sessions))
    unfolding change_password
    change_password-cases = elim (Option-cases (find_admin admin_id store.admins)) [
      | inl absent ↦ inr ((λ success. absurd (ground arith)), ground arith, ground arith)
      | inr (a, found) ↦ elim (Bool-cases (verify_password argon_verify a.password_hash current)) [
        | inl right ↦ inl (ground arith, ground arith, ground arith)
        | inr wrong ↦ inr ((λ success. absurd (ground arith)), ground arith, ground arith)
      ]
    ]

    changed-tables :
        changed.0 ≡ ok tt
        → (changed.1.admins
            ≡ update_admin admin_id (set_password_hash (argon_hash salt new)) store.admins)
          × (changed.1.sessions ≡ delete_all_for_admin admin_id store.sessions)
    changed-tables success = elim change_password-cases [
      | inl (done, admins, sessions) ↦ (admins, sessions)
      | inr (refused, admins, sessions) ↦ absurd (refused success)
    ]

    -- Once a password is changed, no token is a session of that admin any more.
    pub validate_session-change_password :
        (token : String) (now : ℕ) (u : SessionUser)
        → changed.0 ≡ ok tt
        → (validate_session hash_token argon_verify argon_hash max_age token now changed.1).0
          ≡ some u
        → u.id ≢ admin_id
    validate_session-change_password token now u success valid =
        let (s, b, found, live, active, same) =
          (validate_session-valid_iff hash_token argon_verify argon_hash max_age token now changed.1
              u).0
            valid in
        let (m, own) = find_by_token-parts (hash_token token) changed.1 s b found in
        let kept =
          In-filter (λ x. not (eqb x.admin_id admin_id)) store.sessions s
            (subst (In s) (changed-tables success).1 m) in
        let mine : u.id ≡ b.id = ap (λ x. x.id) same in λ e. absurd (ground arith)

    -- Once a password is changed, the admin can log in with the new one, provided that argon2 verifies
    -- the hashes that it makes.
    pub login-change_password :
        (a : Admin) (email : String) (now : ℕ) (tokens : Tokens)
        → (argon_verify (argon_hash salt new) new ≡ some true)
        → find_by_email email store.admins ≡ some a
        → a.id ≡ admin_id
        → a.is_active ≡ true
        → changed.0 ≡ ok tt
        → (r : LoginResult) × ((login hash_token argon_verify argon_hash max_age email new now
              tokens client changed.1).0
            ≡ ok r)
          × (r.user ≡ to_session_user a)
    unfolding find_by_email open_session
    login-change_password a email now tokens verifies found own active success =
        let row = set_password_hash (argon_hash salt new) a in
        let row_eq : updated admin_id (set_password_hash (argon_hash salt new)) a ≡ row =
          let k : eqb a.id admin_id ≡ true = ground arith in ap (λ t. if t then row else a) k in
        let found2 : find_by_email email changed.1.admins ≡ some row =
          ap (find_by_email email) (changed-tables success).0
          ∙ find-update_admin _ admin_id (set_password_hash (argon_hash salt new)) store.admins a
              (λ b. refl) found
          ∙ ap some row_eq in
        let right : verify_password argon_verify row.password_hash new ≡ true =
          rw (verify_password, verifies) refl in
        (
          record {
            session_token = tokens.session;
            csrf_token = tokens.csrf;
            user = to_session_user row;
          },
          ap (λ x. x.0)
              (login-opens hash_token argon_verify argon_hash max_age email new now tokens client
                changed.1 row (found2, active, right)),
          refl,
        )
