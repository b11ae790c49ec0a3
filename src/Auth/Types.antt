-- ===== src/Auth/Types.antt =====
-- The admin and session tables (prisma/schema.prisma) and the session user of packages/shared. An id
-- is a number, a time a number of milliseconds, and the newest session stands first.
use psychic_octo_invention.Prelude.{
  ℕ, String, Bool, Option, none, some, List, [], ◌∷◌, find, filter, not, eqb, ◌==◌, codes,
  to_lower_case, text_eq, if◌then◌else◌,
}

pub data AdminRole : Type 0 where
  super_admin admin viewer : AdminRole

pub record Admin : Type 0 where
  pub id : ℕ
  pub email : String
  pub password_hash : String
  pub display_name : Option String
  pub role : AdminRole
  pub is_active : Bool
  pub last_login_at : Option ℕ
  pub last_login_ip : Option String

pub record Session : Type 0 where
  pub admin_id : ℕ
  pub token : String
  pub ip_address : String
  pub user_agent : String
  pub expires_at : ℕ

-- An entry of the audit log.
pub record AuthEvent : Type 0 where
  pub action : String
  pub actor_id : Option ℕ
  pub ip_address : String
  pub user_agent : String
  pub reason : Option String

pub record AuthStore : Type 0 where
  pub admins : List Admin
  pub sessions : List Session
  pub events : List AuthEvent

pub record SessionUser : Type 0 where
  pub id : ℕ
  pub email : String
  pub role : AdminRole
  pub display_name : Option String

abbrev pub to_session_user : Admin → SessionUser
to_session_user a = record {
  id = a.id;
  email = a.email;
  role = a.role;
  display_name = a.display_name;
}

-- `admin.findUnique`
unfoldable pub find_admin : ℕ → List Admin → Option Admin
find_admin id admins = find (λ a. eqb a.id id) admins

unfoldable pub find_by_email : String → List Admin → Option Admin
find_by_email email admins =
    find (λ a. text_eq (codes a.email) (to_lower_case (codes email))) admins

-- `admin.update`
unfoldable pub update_admin : ℕ → (Admin → Admin) → List Admin → List Admin
update_admin id f [] = []
update_admin id f (a ∷ rest) = (if eqb a.id id then f a else a) ∷ update_admin id f rest

-- `adminSession.findUnique`, and the admin that it includes.
unfoldable pub find_session : String → List Session → Option Session
find_session token sessions = find (λ s. s.token == token) sessions

unfoldable pub find_by_token : String → AuthStore → Option (Session × Admin)
find_by_token token store = elim (find_session token store.sessions) [
  | none ↦ none
  | some session ↦ elim (find_admin session.admin_id store.admins) [
    | none ↦ none
    | some owner ↦ some (session, owner)
  ]
]

-- `adminSession.deleteMany`
abbrev pub delete_by_token : String → List Session → List Session
delete_by_token token sessions = filter (λ s. not (s.token == token)) sessions

abbrev pub delete_all_for_admin : ℕ → List Session → List Session
delete_all_for_admin id sessions = filter (λ s. not (eqb s.admin_id id)) sessions
