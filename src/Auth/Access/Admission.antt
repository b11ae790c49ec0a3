-- ===== src/Auth/Access/Admission.antt =====
-- The checks before a route with the session checks of the authentication service.
use psychic_octo_invention.Prelude.{
  ℕ, ◌≤◌, ◌≡◌, ◌↔◌, refl, subst, ◌⊎◌, String, Bool, true, false, Option, some, List, includes,
}
use psychic_octo_invention.Auth.Types.{
  AdminRole, Admin, Session, AuthStore, SessionUser, to_session_user, find_by_token,
}
use psychic_octo_invention.Auth.Sessions.{validate_session}
use psychic_octo_invention.Auth.Sessions.Laws.{validate_session-valid_iff}
use psychic_octo_invention.Auth.Access.{
  Request, Outcome, next, role_level, safe_methods, is_empty, guard_route,
}
use psychic_octo_invention.Auth.Access.Laws.{IsDoubleSubmit, guard_route-next_iff}

module _ (hash_token : String → String) (argon_verify : String → String → Option Bool)
    (argon_hash : String → String → String) (max_age : ℕ) (to_bytes : String → List ℕ) where
  -- The checks before a route for a minimum role, at a time.
  pub admit : AdminRole → Request → ℕ → AuthStore → Outcome × AuthStore
  admit minimum req now store =
      guard_route
        (λ token s. validate_session hash_token argon_verify argon_hash max_age token now s)
        to_bytes minimum req store

  -- A request reaches a route exactly if its session cookie is not empty, the cookie's hash is the token
  -- of a stored session that is not over, of an active admin whose role is at least the route's, and
  -- its method is safe or it carries the CSRF token both as a cookie and as a header.
  pub admit-next_iff :
      (minimum : AdminRole) (req : Request) (now : ℕ) (store : AuthStore)
      → ((admit minimum req now store).0 ≡ next) ↔ (
          (token : String) × (s : Session) × (a : Admin) × (req.session_cookie ≡ some token)
          × (is_empty token ≡ false)
          × (find_by_token (hash_token token) store ≡ some (s, a))
          × (now ≤ s.expires_at)
          × (a.is_active ≡ true)
          × (role_level minimum ≤ role_level a.role)
          × ((includes safe_methods req.method ≡ true) ⊎ IsDoubleSubmit to_bytes req))
  unfolding admit
  admit-next_iff minimum req now store =
      let guard =
        guard_route-next_iff to_bytes
          (λ token s. validate_session hash_token argon_verify argon_hash max_age token now s)
          minimum req store in
      let valid = λ (token : String) (u : SessionUser).
        validate_session-valid_iff hash_token argon_verify argon_hash max_age token now store u in
      (
        (λ e.
            let (token, u, cookie, present, user, le, d) = guard.0 e in
            let (s, a, found, live, active, same) = (valid token u).0 user in
            (
              token,
              s,
              a,
              cookie,
              present,
              found,
              live,
              active,
              subst (λ x. role_level minimum ≤ role_level x.role) same le,
              d,
            )),
        (λ (token, s, a, cookie, present, found, live, active, le, d). guard.1 (
          token,
          to_session_user a,
          cookie,
          present,
          (valid token (to_session_user a)).1 (s, a, found, live, active, refl),
          le,
          d,
        )),
      )
