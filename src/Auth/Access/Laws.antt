-- ===== src/Auth/Access/Laws.antt =====
-- Which requests reach a route.
use psychic_octo_invention.Prelude.{
  ℕ, ◌≤◌, ◌≡◌, ◌≢◌, ◌↔◌, refl, sym, ap, subst, ◌⊎◌, inl, inr, String, true, false, Option, none,
  some, some_inj, List, arith, ltb, includes, text_length, text_eq, text_eq_iff, length, Bool-cases,
  Option-cases,
}
use psychic_octo_invention.Auth.Types.{AdminRole, SessionUser}
use psychic_octo_invention.Auth.Access.{
  Request, Outcome, next, reject, throw, role_level, safe_methods, is_empty, verify_csrf_token,
  check_tokens, csrf_middleware, require_auth, require_role, session_middleware, guard_route,
  and_then, verdict,
}

module _ (to_bytes : String → List ℕ) where
  -- Two tokens match if they are of the same bytes and not empty.
  pub record Matches (cookie_token header_token : String) : Type 0 where
    pub cookie : is_empty cookie_token ≡ false
    pub header : is_empty header_token ≡ false
    pub lengths : text_length cookie_token ≡ text_length header_token
    pub bytes : to_bytes cookie_token ≡ to_bytes header_token

  verify_csrf_token-true_iff :
      (c h : String) → (verify_csrf_token to_bytes c h ≡ some true) ↔ Matches c h
  unfolding verify_csrf_token
  verify_csrf_token-true_iff c h =
      let same = text_eq_iff (to_bytes c) (to_bytes h) in
      (
        (λ e. record {
          cookie = ground arith;
          header = ground arith;
          lengths = ground arith;
          bytes = ground arith;
        }),
        (λ m.
            let cookie = m.cookie in
            let header = m.header in
            let lengths = m.lengths in
            let equal : text_eq (to_bytes c) (to_bytes h) ≡ true = same.1 m.bytes in
            let sizes : length (to_bytes c) ≡ length (to_bytes h) = ap (λ b. length b) m.bytes in
            ground arith),
      )

  and_then-next : (a b : Outcome) → and_then a b ≡ next → (a ≡ next) × (b ≡ next)
  and_then-next next b e = (refl, e)
  and_then-next (reject status code) b e = cc
  and_then-next throw b e = cc

  -- A request that changes state carries the token twice.
  pub IsDoubleSubmit : Request → Type 0
  IsDoubleSubmit req =
      (c : String) × (h : String) × (req.csrf_cookie ≡ some c)
      × (req.csrf_header ≡ some h)
      × Matches c h

  valid-cases :
      (c h : String) → check_tokens to_bytes c h ≡ next → verify_csrf_token to_bytes c h ≡ some true
  unfolding check_tokens
  valid-cases c h e = elim (Option-cases (verify_csrf_token to_bytes c h)) [
    | inl thrown ↦ absurd (ground arith)
    | inr (true, v) ↦ v
    | inr (false, v) ↦ absurd (ground arith)
  ]

  check_tokens-next_iff : (c h : String) → (check_tokens to_bytes c h ≡ next) ↔ Matches c h
  unfolding check_tokens
  check_tokens-next_iff c h =
      let iff = verify_csrf_token-true_iff c h in
      (
        (λ e. iff.0 (valid-cases c h e)),
        (λ m. let cookie = m.cookie in let header = m.header in let v = iff.1 m in ground arith),
      )

  csrf_middleware-next_iff :
      (req : Request) (u : SessionUser)
      → (csrf_middleware to_bytes req (some u) ≡ next)
        ↔ ((includes safe_methods req.method ≡ true) ⊎ IsDoubleSubmit req)
  unfolding csrf_middleware IsDoubleSubmit
  csrf_middleware-next_iff req u = (
    (λ e. elim (Bool-cases (includes safe_methods req.method)) [
      | inl safe ↦ inl safe
      | inr other ↦ elim (Option-cases req.csrf_cookie) [
        | inl absent ↦ absurd (ground arith)
        | inr (c, cookie) ↦ elim (Option-cases req.csrf_header) [
          | inl absent ↦ absurd (ground arith)
          | inr (h, header) ↦
              inr (c, h, cookie, header, (check_tokens-next_iff c h).0 (ground arith))
        ]
      ]
    ]),
    (λ d. elim d [
      | inl safe ↦ rw safe refl
      | inr (c, h, cookie, header, m) ↦
          let checked = (check_tokens-next_iff c h).1 m in ground arith
    ]),
  )

  require_role-next_iff :
      (minimum : AdminRole) (u : SessionUser)
      → (require_role minimum (some u) ≡ next) ↔ (role_level minimum ≤ role_level u.role)
  unfolding require_role
  require_role-next_iff minimum u =
      elim (Bool-cases (ltb (role_level u.role) (role_level minimum))) [
        | inl low ↦ (λ e. absurd (ground arith), λ le. absurd (ground arith))
        | inr high ↦ (λ e. ground arith, λ le. ground arith)
      ]

  verdict-nobody : (minimum : AdminRole) (req : Request) → verdict to_bytes minimum req none ≢ next
  unfolding verdict require_auth csrf_middleware
  verdict-nobody minimum req e = cc

  verdict-next_iff :
      (minimum : AdminRole) (req : Request) (o : Option SessionUser)
      → (verdict to_bytes minimum req o ≡ next) ↔ (
          (u : SessionUser) × (o ≡ some u)
          × (role_level minimum ≤ role_level u.role)
          × ((includes safe_methods req.method ≡ true) ⊎ IsDoubleSubmit req))
  unfolding verdict require_auth
  verdict-next_iff minimum req none = (
    (λ e. absurd (verdict-nobody minimum req e)),
    (λ (u, bad, le, d). absurd (let q = bad in cc)),
  )
  verdict-next_iff minimum req (some u) =
      let csrf = csrf_middleware-next_iff req u in
      let role = require_role-next_iff minimum u in
      (
        (λ e.
            let (p, q) =
              and_then-next (csrf_middleware to_bytes req (some u)) (require_role minimum (some u))
                e in
            (u, refl, role.0 q, csrf.0 p)),
        (λ (v, same, le, d).
            let eq : u ≡ v = some_inj _ _ same in
            let p = csrf.1 d in
            let q = role.1 (subst (λ x. role_level minimum ≤ role_level x.role) (sym eq) le) in
            rw (p, q) refl),
      )

  module _ {S : Type 0} (validate : String → S → Option SessionUser × S) (minimum : AdminRole)
      (req : Request) (store : S) where
    session-some :
        (u : SessionUser)
        → (session_middleware validate req store).0 ≡ some u
        → (token : String) × (req.session_cookie ≡ some token)
          × (is_empty token ≡ false)
          × ((validate token store).0 ≡ some u)
    unfolding session_middleware
    session-some u e = elim (Option-cases req.session_cookie) [
      | inl absent ↦ absurd (ground arith)
      | inr (token, cookie) ↦ elim (Bool-cases (is_empty token)) [
        | inl empty ↦ absurd (ground arith)
        | inr present ↦ (token, cookie, present, ground arith)
      ]
    ]

    session-valid :
        (token : String) (u : SessionUser)
        → req.session_cookie ≡ some token
        → is_empty token ≡ false
        → (validate token store).0 ≡ some u
        → (session_middleware validate req store).0 ≡ some u
    unfolding session_middleware
    session-valid token u cookie present valid = rw (cookie, present) valid

    -- A request reaches a route exactly if its session cookie is a valid session of a user whose role is
    -- at least the route's, and its method is safe or it carries the CSRF token both as a cookie and
    -- as a header.
    pub guard_route-next_iff : ((guard_route validate to_bytes minimum req store).0 ≡ next) ↔ (
        (token : String) × (u : SessionUser) × (req.session_cookie ≡ some token)
        × (is_empty token ≡ false)
        × ((validate token store).0 ≡ some u)
        × (role_level minimum ≤ role_level u.role)
        × ((includes safe_methods req.method ≡ true) ⊎ IsDoubleSubmit req))
    unfolding guard_route
    guard_route-next_iff =
        let iff = verdict-next_iff minimum req (session_middleware validate req store).0 in
        (
          (λ e.
              let (u, user, le, d) = iff.0 e in
              let (token, cookie, present, valid) = session-some u user in
              (token, u, cookie, present, valid, le, d)),
          (λ (token, u, cookie, present, valid, le, d).
              iff.1 (u, session-valid token u cookie present valid, le, d)),
        )
