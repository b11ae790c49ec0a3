-- ===== src/Auth/Access.antt =====
-- The checks before a route of the administration API, in the order of apps/api/src/app.ts: the
-- session, the CSRF token and the role (apps/api/src/middleware/auth). The parameter `to_bytes` is
-- `Buffer.from`, and `validate` a check of a session token that may remove a session.
pub mod Laws
pub mod Admission
use psychic_octo_invention.Prelude.{
  ℕ, String, Bool, true, false, not, ◌&&◌, ◌||◌, Option, none, some, List, [], ◌∷◌, eqb, ltb, leb,
  includes, text_length, text_eq, length, if◌then◌else◌, ◌==◌,
}
use psychic_octo_invention.Auth.Types.{AdminRole, super_admin, admin, viewer, SessionUser}

pub record Request : Type 0 where
  pub method : String
  pub session_cookie : Option String
  pub csrf_cookie : Option String
  pub csrf_header : Option String

-- A middleware calls the next one, answers with a status and a code, or throws.
pub data Outcome : Type 0 where
  next : Outcome
  reject : ℕ → String → Outcome
  throw : Outcome

-- `ROLE_HIERARCHY`
abbrev pub role_level : AdminRole → ℕ
role_level super_admin = 3
role_level admin = 2
role_level viewer = 1

abbrev pub safe_methods : List String
safe_methods = "GET" ∷ "HEAD" ∷ "OPTIONS" ∷ []

abbrev pub is_empty : String → Bool
is_empty s = s == ""

-- `timingSafeEqual`, which throws on bytes of different lengths.
abbrev pub timing_safe_equal : List ℕ → List ℕ → Option Bool
timing_safe_equal s t = if eqb (length s) (length t) then some (text_eq s t) else none

pub verify_csrf_token : (String → List ℕ) → String → String → Option Bool
verify_csrf_token to_bytes cookie_token header_token =
    if is_empty cookie_token || is_empty header_token
    then some false
    else if not (eqb (text_length cookie_token) (text_length header_token))
    then some false
    else timing_safe_equal (to_bytes cookie_token) (to_bytes header_token)

abbrev csrf_failed : Outcome
csrf_failed = reject 403 "CSRF_VALIDATION_FAILED"

-- The double submit check of a request that has both tokens.
check_tokens : (String → List ℕ) → String → String → Outcome
check_tokens to_bytes cookie_token header_token =
    if is_empty cookie_token || is_empty header_token
    then csrf_failed
    else elim (verify_csrf_token to_bytes cookie_token header_token) [
      | none ↦ throw
      | some valid ↦ if valid then next else csrf_failed
    ]

csrf_middleware : (String → List ℕ) → Request → Option SessionUser → Outcome
csrf_middleware to_bytes req none = next
csrf_middleware to_bytes req (some user) =
    if includes safe_methods req.method then next else elim req.csrf_cookie [
      | none ↦ csrf_failed
      | some cookie_token ↦ elim req.csrf_header [
        | none ↦ csrf_failed
        | some header_token ↦ check_tokens to_bytes cookie_token header_token
      ]
    ]

require_auth : Option SessionUser → Outcome
require_auth none = reject 401 "UNAUTHORIZED"
require_auth (some user) = next

require_role : AdminRole → Option SessionUser → Outcome
require_role minimum none = reject 401 "UNAUTHORIZED"
require_role minimum (some user) =
    if ltb (role_level user.role) (role_level minimum) then reject 403 "FORBIDDEN" else next

abbrev pub and_then : Outcome → Outcome → Outcome
and_then next other = other
and_then (reject status code) other = reject status code
and_then throw other = throw

-- The checks of a user, or of nobody, before a route for a minimum role.
pub verdict : (String → List ℕ) → AdminRole → Request → Option SessionUser → Outcome
verdict to_bytes minimum req user =
    and_then (csrf_middleware to_bytes req user)
      (and_then (require_auth user) (require_role minimum user))

module _ {S : Type 0} (validate : String → S → Option SessionUser × S) where
  -- The user that the session cookie stands for.
  pub session_middleware : Request → S → Option SessionUser × S
  session_middleware req store = elim req.session_cookie [
    | none ↦ (none, store)
    | some token ↦ if is_empty token then (none, store) else validate token store
  ]

  -- A route for a minimum role: `requireAuth` and `requireRole` after the application's middleware.
  pub guard_route : (String → List ℕ) → AdminRole → Request → S → Outcome × S
  guard_route to_bytes minimum req store =
      let (user, after) = session_middleware req store in (verdict to_bytes minimum req user, after)
