-- ===== src/Auth/Sessions.antt =====
-- apps/api/src/services/auth.service.ts. Parameters are SHA-256 on tokens and argon2, whose
-- verification of a malformed hash throws (`none`). The random tokens and the salt of a new password
-- hash are arguments, and so are the time and the lifetime of a session (packages/config).
pub mod Laws
pub mod Passwords
use psychic_octo_invention.Prelude.{
  ℕ, ◌+◌, String, Bool, true, false, not, Option, none, some, List, [], ◌∷◌, ltb, if◌then◌else◌,
}
use psychic_octo_invention.Errors.{AppError, Result, ok, err}
use psychic_octo_invention.Auth.Types.{
  Admin, Session, AuthEvent, AuthStore, SessionUser, to_session_user, find_admin, find_by_email,
  update_admin, find_by_token, delete_by_token, delete_all_for_admin,
}

-- Where a request comes from.
pub record Client : Type 0 where
  pub ip : String
  pub user_agent : String

pub record LoginResult : Type 0 where
  pub session_token : String
  pub csrf_token : String
  pub user : SessionUser

pub record Tokens : Type 0 where
  pub session : String
  pub csrf : String

abbrev pub invalid_credentials : String → AppError
invalid_credentials message = record {
  status_code = 401;
  code = "INVALID_CREDENTIALS";
  message = message;
}

abbrev pub generic_auth_error : String
generic_auth_error = "Invalid email or password"

abbrev pub admin_not_found : AppError
admin_not_found = record { status_code = 404; code = "NOT_FOUND"; message = "Admin not found" }

abbrev pub log_auth_event : String → Option ℕ → Client → Option String → AuthStore → AuthStore
log_auth_event action actor_id client reason store = record store {
  events =
      record {
        action = action;
        actor_id = actor_id;
        ip_address = client.ip;
        user_agent = client.user_agent;
        reason = reason;
      }
      ∷ store.events;
}

abbrev pub update_last_login : ℕ → String → Admin → Admin
update_last_login now ip a = record a { last_login_at = some now; last_login_ip = some ip }

abbrev pub set_password_hash : String → Admin → Admin
set_password_hash hash a = record a { password_hash = hash }

-- `argon2.verify`, with what it throws taken for a mismatch.
abbrev pub verify_password : (String → String → Option Bool) → String → String → Bool
verify_password argon_verify hash plain = elim (argon_verify hash plain) [
  | none ↦ false
  | some valid ↦ valid
]

module _ (hash_token : String → String) (argon_verify : String → String → Option Bool)
    (argon_hash : String → String → String) (max_age : ℕ) where
  abbrev pub new_session : ℕ → Tokens → Client → ℕ → Session
  new_session now tokens client admin_id = record {
    admin_id = admin_id;
    token = hash_token tokens.session;
    ip_address = client.ip;
    user_agent = client.user_agent;
    expires_at = now + max_age;
  }

  -- The session of an admin who gave the right password.
  unfoldable pub open_session :
      ℕ → Tokens → Client → Admin → AuthStore → Result LoginResult × AuthStore
  open_session now tokens client admin store = (
    ok (record {
      session_token = tokens.session;
      csrf_token = tokens.csrf;
      user = to_session_user admin;
    }),
    log_auth_event "auth.login_success" (some admin.id) client none (record store {
      sessions = new_session now tokens client admin.id ∷ store.sessions;
      admins = update_admin admin.id (update_last_login now client.ip) store.admins;
    }),
  )

  pub refuse : Option ℕ → String → Client → AuthStore → Result LoginResult × AuthStore
  refuse actor_id reason client store = (
    err (invalid_credentials generic_auth_error),
    log_auth_event "auth.login_failed" actor_id client (some reason) store,
  )

  unfoldable pub login :
      String → String → ℕ → Tokens → Client → AuthStore → Result LoginResult × AuthStore
  login email password now tokens client store = elim (find_by_email email store.admins) [
    | none ↦ refuse none "invalid_credentials" client store
    | some admin ↦
        if not admin.is_active
        then refuse none "invalid_credentials" client store
        else if verify_password argon_verify admin.password_hash password
        then open_session now tokens client admin store
        else refuse (some admin.id) "invalid_password" client store
  ]

  unfoldable pub logout : String → Client → AuthStore → AuthStore
  logout session_token client store = elim (find_by_token (hash_token session_token) store) [
    | none ↦ store
    | some (session, admin) ↦
        log_auth_event "auth.logout" (some session.admin_id) client none
          (record store { sessions = delete_by_token (hash_token session_token) store.sessions })
  ]

  -- The user of a session, and the removal of one that is over.
  unfoldable pub validate_session : String → ℕ → AuthStore → Option SessionUser × AuthStore
  validate_session session_token now store =
      let removed : Option SessionUser × AuthStore = (
        none,
        record store { sessions = delete_by_token (hash_token session_token) store.sessions },
      ) in
      elim (find_by_token (hash_token session_token) store) [
        | none ↦ (none, store)
        | some (session, admin) ↦
            if ltb session.expires_at now
            then removed
            else if not admin.is_active
            then removed
            else (some (to_session_user admin), store)
      ]

  unfoldable pub change_password :
      ℕ → String → String → String → Client → AuthStore → Result (Unit {0}) × AuthStore
  change_password admin_id current new salt client store = elim (find_admin admin_id store.admins) [
    | none ↦ (err admin_not_found, store)
    | some admin ↦
        if verify_password argon_verify admin.password_hash current
        then (
          ok tt,
          log_auth_event "auth.password_changed" (some admin_id) client none (record store {
            admins = update_admin admin_id (set_password_hash (argon_hash salt new)) store.admins;
            sessions = delete_all_for_admin admin_id store.sessions;
          }),
        )
        else (
          err (invalid_credentials "Current password is incorrect"),
          log_auth_event "auth.password_change_failed" (some admin_id) client
              (some "invalid_current_password") store,
        )
  ]
