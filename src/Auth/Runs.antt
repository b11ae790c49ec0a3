-- ===== src/Auth/Runs.antt =====
-- The authentication service as a state machine: its requests, in any order, on tables that start with
-- admins of distinct ids and no session.
pub mod Earned
use psychic_octo_invention.Prelude.{
  ℕ, ◌≡◌, refl, sym, ap, subst, inl, inr, String, Bool, true, Option, List, [], ◌∷◌, arith, All,
  eqb, Option-cases,
}
use psychic_octo_invention.Auth.Types.{
  Admin, Session, AuthStore, find_admin, find_by_token, update_admin, delete_by_token,
}
use psychic_octo_invention.Auth.Rows.{
  IsWellFormed, IsOwned, AreDistinct, find-update_admin, update_admin-AreDistinct, filter-All,
  find_admin-In,
}
use psychic_octo_invention.Auth.Sessions.{
  Client, Tokens, login, logout, validate_session, change_password, open_session, update_last_login,
  set_password_hash,
}
use psychic_octo_invention.Auth.Sessions.Laws.{
  login-opens, login-cases, checked-cases, without_token,
}
use psychic_octo_invention.Auth.Sessions.Passwords.{change_password-cases, find_by_email-In}

pub data Request : Type 0 where
  log_in : String → String → ℕ → Tokens → Client → Request
  log_out : String → Client → Request
  check : String → ℕ → Request
  change : ℕ → String → String → String → Client → Request

-- Changed admins that keep their ids own the sessions that they owned.
IsOwned-update_admin :
    (id : ℕ) (f : Admin → Admin) (admins : List Admin) (s : Session)
    → ((a : Admin) → (f a).id ≡ a.id)
    → IsOwned admins s
    → IsOwned (update_admin id f admins) s
unfolding find_admin
IsOwned-update_admin id f admins s same (a, found) = (
  _,
  find-update_admin (λ b. eqb b.id s.admin_id) id f admins a
      (λ b. ap (λ k. eqb k s.admin_id) (same b)) found,
)

All-map :
    (P Q : Session → Type 0) (sessions : List Session)
    → ((s : Session) → P s → Q s)
    → All P sessions
    → All Q sessions
All-map P Q [] step h = tt
All-map P Q (s ∷ rest) step h = (step s h.0, All-map P Q rest step h.1)

-- Tables with changed admins and fewer sessions.
update-IsWellFormed :
    (id : ℕ) (f : Admin → Admin) (p : Session → Bool) (store after : AuthStore)
    → ((a : Admin) → (f a).id ≡ a.id)
    → IsWellFormed store
    → after.admins ≡ update_admin id f store.admins
    → All (IsOwned store.admins) after.sessions
    → IsWellFormed after
update-IsWellFormed id f p store after same h e owned = record {
  distinct = subst AreDistinct (sym e) (update_admin-AreDistinct id f store.admins same h.distinct);
  owned =
      subst (λ admins. All (IsOwned admins) after.sessions) (sym e)
        (All-map (IsOwned store.admins) (IsOwned (update_admin id f store.admins)) after.sessions
          (λ s. IsOwned-update_admin id f store.admins s same) owned);
}

kept-IsWellFormed :
    (store after : AuthStore)
    → IsWellFormed store
    → after.admins ≡ store.admins
    → All (IsOwned store.admins) after.sessions
    → IsWellFormed after
kept-IsWellFormed store after h e owned = record {
  distinct = subst AreDistinct (sym e) h.distinct;
  owned = subst (λ admins. All (IsOwned admins) after.sessions) (sym e) owned;
}

module _ (hash_token : String → String) (argon_verify : String → String → Option Bool)
    (argon_hash : String → String → String) (max_age : ℕ) where
  unfoldable pub apply : Request → AuthStore → AuthStore
  apply (log_in email password now tokens client) store =
      (login hash_token argon_verify argon_hash max_age email password now tokens client store).1
  apply (log_out token client) store =
      logout hash_token argon_verify argon_hash max_age token client store
  apply (check token now) store =
      (validate_session hash_token argon_verify argon_hash max_age token now store).1
  apply (change id current new salt client) store =
      (change_password hash_token argon_verify argon_hash max_age id current new salt client
        store).1

  -- The tables after a sequence of requests, the latest of which stands first.
  pub data Reachable : List Request → AuthStore → Type 0 where
    start :
        (store : AuthStore) → AreDistinct store.admins → store.sessions ≡ [] → Reachable [] store
    step :
        (request : Request) (requests : List Request) (before after : AuthStore)
        → Reachable requests before
        → after ≡ apply request before
        → Reachable (request ∷ requests) after

  login-IsWellFormed :
      (email password : String) (now : ℕ) (tokens : Tokens) (client : Client) (store : AuthStore)
      → IsWellFormed store
      → IsWellFormed (apply (log_in email password now tokens client) store)
  unfolding apply open_session
  login-IsWellFormed email password now tokens client store h =
      elim (login-cases hash_token argon_verify argon_hash max_age email password now tokens client
        store) [
          | inr (refused, same, kept) ↦
              kept-IsWellFormed store _ h same
                (subst (All (IsOwned store.admins)) (sym kept) h.owned)
          | inl (a, r, may, answer, user) ↦
              let eq =
                login-opens hash_token argon_verify argon_hash max_age email password now tokens
                  client store a may in
              let row =
                find_admin-In a store.admins h.distinct (find_by_email-In email store a may.0) in
              subst IsWellFormed (sym (ap (λ x. x.1) eq)) (
                update-IsWellFormed a.id (update_last_login now client.ip) (λ s. true) store _
                  (λ b. refl) h refl ((a, row), h.owned))
        ]

  logout-IsWellFormed :
      (token : String) (client : Client) (store : AuthStore)
      → IsWellFormed store
      → IsWellFormed (apply (log_out token client) store)
  unfolding apply logout
  logout-IsWellFormed token client store h =
      elim (Option-cases (find_by_token (hash_token token) store)) [
        | inl absent ↦
            let e : logout hash_token argon_verify argon_hash max_age token client store ≡ store =
              ground arith in
            subst IsWellFormed (sym e) h
        | inr ((s, a), found) ↦
            let after = logout hash_token argon_verify argon_hash max_age token client store in
            let e : after.sessions ≡ delete_by_token (hash_token token) store.sessions =
              ground arith in
            kept-IsWellFormed store after h (ground arith) (
              subst (All (IsOwned store.admins)) (sym e)
                (filter-All (IsOwned store.admins) _ store.sessions h.owned))
      ]

  check-IsWellFormed :
      (token : String) (now : ℕ) (store : AuthStore)
      → IsWellFormed store
      → IsWellFormed (apply (check token now) store)
  unfolding apply without_token
  check-IsWellFormed token now store h =
      elim (checked-cases hash_token argon_verify argon_hash max_age token now store) [
        | inl (absent, e) ↦ subst IsWellFormed (sym (ap (λ x. x.1) e)) h
        | inr (inl (s, a, found, why, e)) ↦ subst IsWellFormed (sym (ap (λ x. x.1) e)) (
            kept-IsWellFormed store _ h refl
              (filter-All (IsOwned store.admins) _ store.sessions h.owned))
        | inr (inr (s, a, found, live, active, e)) ↦ subst IsWellFormed (sym (ap (λ x. x.1) e)) h
      ]

  change-IsWellFormed :
      (id : ℕ) (current new salt : String) (client : Client) (store : AuthStore)
      → IsWellFormed store
      → IsWellFormed (apply (change id current new salt client) store)
  unfolding apply
  change-IsWellFormed id current new salt client store h =
      elim (change_password-cases hash_token argon_verify argon_hash max_age id current new salt
        client store) [
          | inl (success, admins, sessions) ↦
              update-IsWellFormed id (set_password_hash (argon_hash salt new)) (λ s. true) store _
                (λ b. refl) h admins
                (subst (All (IsOwned store.admins)) (sym sessions)
                  (filter-All (IsOwned store.admins) _ store.sessions h.owned))
          | inr (refused, admins, sessions) ↦
              kept-IsWellFormed store _ h admins
                (subst (All (IsOwned store.admins)) (sym sessions) h.owned)
        ]

  -- After any sequence of logins, logouts, checks of sessions and changes of passwords the ids of the
  -- admins are distinct and each session belongs to an admin.
  pub Reachable-IsWellFormed :
      (requests : List Request) (store : AuthStore) → Reachable requests store → IsWellFormed store
  Reachable-IsWellFormed _ store (start _ d e) = record {
    distinct = d;
    owned = subst (All (IsOwned store.admins)) (sym e) tt;
  }
  Reachable-IsWellFormed _ store (step request requests before _ r e) =
      let h = Reachable-IsWellFormed requests before r in
      subst IsWellFormed (sym e) (elim request as (λ q. IsWellFormed (apply q before)) [
        | log_in email password now tokens client ↦
            login-IsWellFormed email password now tokens client before h
        | log_out token client ↦ logout-IsWellFormed token client before h
        | check token now ↦ check-IsWellFormed token now before h
        | change id current new salt client ↦
            change-IsWellFormed id current new salt client before h
      ])
