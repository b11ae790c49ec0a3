-- ===== src/Auth/Tests.antt =====
-- An admin who logs in, changes a password and calls a route.
use psychic_octo_invention.Prelude.{
  ◌≤◌, ◌≡◌, ◌≢◌, ◌↔◌, ◌⊎◌, refl, String, Bool, true, false, Option, none, some, [], ◌∷◌, codes, All,
  ◌==◌, ◌⧺◌, includes, arith,
}
use psychic_octo_invention.Errors.{Result, ok, err}
use psychic_octo_invention.Auth.Types.{
  admin, Admin, Session, AuthStore, to_session_user, find_admin, find_by_email, find_session,
  find_by_token, update_admin,
}
use psychic_octo_invention.Auth.Rows.{IsWellFormed}
use psychic_octo_invention.Auth.Sessions.{
  Client, Tokens, LoginResult, invalid_credentials, generic_auth_error, login, validate_session,
  change_password, open_session,
}
use psychic_octo_invention.Auth.Sessions.Laws.{MayLogIn, login-cases}
use psychic_octo_invention.Auth.Sessions.Passwords.{
  validate_session-login, validate_session-change_password,
}
use psychic_octo_invention.Auth.Runs.{start, step, log_in, apply}
use psychic_octo_invention.Auth.Runs.Earned.{IsEarned, Reachable-AreEarned}
use psychic_octo_invention.Auth.Access.{Request, next, role_level, safe_methods, is_empty}
use psychic_octo_invention.Auth.Access.Laws.{IsDoubleSubmit}
use psychic_octo_invention.Auth.Access.Admission.{admit, admit-next_iff}

-- A hash that marks its input, and one that keeps the password behind the salt.
abbrev mark : String → String
mark token = "#" ⧺ token

abbrev salted : String → String → String
salted salt plain = salt ⧺ plain

abbrev verify : String → String → Option Bool
verify hash plain = some (hash == ("s" ⧺ plain))

abbrev ann : Admin
ann = record {
  id = 7;
  email = "ann@example.com";
  password_hash = "sold";
  display_name = none;
  role = admin;
  is_active = true;
  last_login_at = none;
  last_login_ip = none;
}

abbrev client : Client
client = record { ip = "::1"; user_agent = "test" }

abbrev tokens : Tokens
tokens = record { session = "t1"; csrf = "c1" }

abbrev first : AuthStore
first = record { admins = ann ∷ []; sessions = []; events = [] }

abbrev entered : Result LoginResult × AuthStore
entered = login mark verify salted 1000 "Ann@Example.com" "old" 50 tokens client first

abbrev entered_result : LoginResult
entered_result = record { session_token = "t1"; csrf_token = "c1"; user = to_session_user ann }

entered-ok : entered.0 ≡ ok entered_result
unfolding login find_by_email open_session
entered-ok = refl

first-IsWellFormed : IsWellFormed first
first-IsWellFormed = record { distinct = (tt, tt); owned = tt }

validate_session-login_example :
    (validate_session mark verify salted 1000 "t1" 1050 entered.1).0 ≡ some (to_session_user ann)
validate_session-login_example =
    validate_session-login mark verify salted 1000 "Ann@Example.com" "old" 50 tokens client first
      entered_result 1050 first-IsWellFormed entered-ok (omega arith)

Reachable-AreEarned_example :
    All
      (IsEarned mark verify salted 1000
        (log_in "Ann@Example.com" "old" 50 tokens client ∷ [])
        entered.1.admins)
      entered.1.sessions
unfolding apply
Reachable-AreEarned_example =
    Reachable-AreEarned mark verify salted 1000
      (log_in "Ann@Example.com" "old" 50 tokens client ∷ []) entered.1
      (step (log_in "Ann@Example.com" "old" 50 tokens client) [] first entered.1
        (start first (tt, tt) refl) refl)

login-cases_example :
    ((a : Admin) × (r : LoginResult) × MayLogIn mark verify salted 1000 "ann@example.com" "bad"
        first a
      × ((login mark verify salted 1000 "ann@example.com" "bad" 50 tokens client first).0 ≡ ok r)
      × (r.user ≡ to_session_user a))
    ⊎ (((login mark verify salted 1000 "ann@example.com" "bad" 50 tokens client first).0
          ≡ err (invalid_credentials generic_auth_error))
        × ((login mark verify salted 1000 "ann@example.com" "bad" 50 tokens client first).1.admins
            ≡ first.admins)
        × ((login mark verify salted 1000 "ann@example.com" "bad" 50 tokens client first).1.sessions
            ≡ first.sessions))
login-cases_example =
    login-cases mark verify salted 1000 "ann@example.com" "bad" 50 tokens client first

change_done : (change_password mark verify salted 1000 7 "old" "new" "s" client first).0 ≡ ok tt
unfolding change_password find_admin
change_done = refl

ann_found : find_by_email "ann@example.com" first.admins ≡ some ann
unfolding find_by_email
ann_found = refl

-- Two admins, one of whom has a session and the other of whom changes a password.
abbrev bob : Admin
bob = record ann { id = 8; email = "bob@example.com"; password_hash = "sbob" }

abbrev both : AuthStore
both = record {
  admins = ann ∷ bob ∷ [];
  sessions =
      record {
        admin_id = 7;
        token = "#t1";
        ip_address = "::1";
        user_agent = "test";
        expires_at = 1000;
      }
      ∷ [];
  events = [];
}

both_done : (change_password mark verify salted 1000 8 "bob" "new" "s" client both).0 ≡ ok tt
unfolding change_password find_admin
both_done = refl

both_valid :
    (validate_session mark verify salted 1000 "t1" 60
      (change_password mark verify salted 1000 8 "bob" "new" "s" client both).1).0
    ≡ some (to_session_user ann)
unfolding change_password find_admin validate_session find_by_token find_session update_admin
both_valid = refl

validate_session-change_password_example : ann.id ≢ bob.id
validate_session-change_password_example =
    validate_session-change_password mark verify salted 1000 8 "bob" "new" "s" client both "t1" 60
      (to_session_user ann) both_done both_valid

abbrev post : Request
post = record {
  method = "POST";
  session_cookie = some "t1";
  csrf_cookie = some "c1";
  csrf_header = some "c1";
}

admit-next_iff_example : ((admit mark verify salted 1000 codes admin post 60 both).0 ≡ next) ↔ (
    (token : String) × (s : Session) × (a : Admin) × (some "t1" ≡ some token)
    × (is_empty token ≡ false)
    × (find_by_token (mark token) both ≡ some (s, a))
    × (60 ≤ s.expires_at)
    × (a.is_active ≡ true)
    × (2 ≤ role_level a.role)
    × ((includes safe_methods "POST" ≡ true) ⊎ IsDoubleSubmit codes post))
admit-next_iff_example = admit-next_iff mark verify salted 1000 codes admin post 60 both
