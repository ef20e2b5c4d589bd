-- ===== src/Auth/Access.antt =====
-- Who is let in: nobody without the password or a session that is not over.
use mirrortools.Prelude.{
  ◌≡◌, ◌≢◌, ◌⊎◌, inl, inr, refl, sym, ap, ◌∙◌, Bool, true, false, Option, none, some, [],
  if◌then◌else◌, ◌==◌, ltb, arith, Text, codes, text_has_eq, text_eq_iff, lookup, trim_space,
  to_lower, Bool-cases,
}
use mirrortools.Job.{Time}
use mirrortools.Auth.{
  AuthManager, Request, Session, check_password, live_user, bearer_user, basic_user, scheme_user,
  session_user, cookie_user, cut_space, header_or_cookie, validate_request,
}

-- The request carries the token, after a scheme's name or in its cookie.
abbrev pub Carries : Request → Text → Type 0
Carries r token =
    ((parts : Text × Text) × (cut_space r.authorization ≡ some parts)
      × (trim_space parts.1 ≡ token))
    ⊎ (r.cookie ≡ some token)

-- The request carries the token of a session of the user that is not over.
abbrev pub HasSession : AuthManager → Time → Request → Text → Type 0
HasSession a now r user =
    (token : Text) × (s : Session) × (lookup token a.sessions ≡ some s)
    × (ltb now s.expires_at ≡ true)
    × (s.user ≡ user)
    × Carries r token

-- The request carries the password, after a scheme's name or as net/http decodes it.
abbrev pub Presents : Request → Text → Type 0
Presents r password =
    ((parts : Text × Text) × (cut_space r.authorization ≡ some parts)
      × (trim_space parts.1 ≡ password))
    ⊎ ((up : Text × Text) × (r.basic_auth ≡ some up) × (up.1 ≡ password))

abbrev pub IsAuthorised : AuthManager → Time → Request → Text → Type 0
IsAuthorised a now r user = ((a.password ≢ []) × Presents r a.password) ⊎ HasSession a now r user

check_password-eq :
    (a : AuthManager) (pass : Text)
    → check_password a pass ≡ true
    → (a.password ≢ []) × (pass ≡ a.password)
unfolding check_password
check_password-eq a pass h = (
  ground (arith, h, text_eq_iff a.password []),
  ground (arith, h, text_eq_iff a.password [], text_eq_iff pass a.password),
)

live_user-HasSession :
    (a : AuthManager) (now : Time) (r : Request) (user token : Text) (o : Option Session)
    → Carries r token
    → lookup token a.sessions ≡ o
    → live_user now o ≡ some user
    → HasSession a now r user
unfolding live_user
live_user-HasSession a now r user token none t e h = cc
live_user-HasSession a now r user token (some s) t e h =
    (token, s, e, ground (arith, h), ground (arith, h), t)

-- Which branch an answer came from.
if_some :
    (b : Bool) (x y : Option Text) (user : Text)
    → (if b then x else y) ≡ some user
    → ((b ≡ true) × (x ≡ some user)) ⊎ ((b ≡ false) × (y ≡ some user))
if_some true x y user h = inl (refl, h)
if_some false x y user h = inr (refl, h)

if_true : (b : Bool) (x y : Option Text × AuthManager) → b ≡ true → (if b then x else y) ≡ x
if_true b x y e = rw e refl

module _ (a : AuthManager) (now : Time) (r : Request) (user : Text) where
  bearer_user-IsAuthorised :
      (parts : Text × Text)
      → cut_space r.authorization ≡ some parts
      → bearer_user a now (trim_space parts.1) ≡ some user
      → IsAuthorised a now r user
  unfolding bearer_user
  bearer_user-IsAuthorised parts e h =
      let token = trim_space parts.1 in
      elim (if_some (check_password a token) (some (codes "api"))
        (live_user now (lookup token a.sessions)) user h) [
          | inl (pass, k) ↦
              let (real, same) = check_password-eq a token pass in inl (real, inl (parts, e, same))
          | inr (fail, k) ↦
              inr (live_user-HasSession a now r user token _ (inl (parts, e, refl)) refl k)
        ]

  basic_user-IsAuthorised :
      (o : Option (Text × Text))
      → r.basic_auth ≡ o
      → basic_user a o ≡ some user
      → IsAuthorised a now r user
  unfolding basic_user
  basic_user-IsAuthorised none e h = cc
  basic_user-IsAuthorised (some up) e h =
      elim (if_some (check_password a up.1) (some (if up.0 == [] then codes "api" else up.0)) none
        user h) [
          | inl (pass, k) ↦
              let (real, same) = check_password-eq a up.1 pass in inl (real, inr (up, e, same))
          | inr (fail, k) ↦ cc
        ]

  scheme_user-IsAuthorised :
      (o : Option (Text × Text))
      → cut_space r.authorization ≡ o
      → scheme_user a now r o ≡ some user
      → IsAuthorised a now r user
  unfolding scheme_user
  scheme_user-IsAuthorised none e h = cc
  scheme_user-IsAuthorised (some parts) e h =
      elim (if_some (to_lower parts.0 == codes "bearer") _ _ user h) [
        | inl (bearer, k) ↦ bearer_user-IsAuthorised parts e k
        | inr (other, k) ↦ elim (if_some (to_lower parts.0 == codes "basic") _ _ user k) [
          | inl (basic, l) ↦ basic_user-IsAuthorised r.basic_auth refl l
          | inr (unknown, l) ↦ cc
        ]
      ]

  session_user-HasSession :
      (token : Text) (o : Option Session)
      → Carries r token
      → lookup token a.sessions ≡ o
      → (session_user a now token o).0 ≡ some user
      → HasSession a now r user
  unfolding session_user
  session_user-HasSession token none t e h = cc
  session_user-HasSession token (some s) t e h =
      (token, s, e, ground (arith, h), ground (arith, h), t)

  cookie_user-HasSession :
      (o : Option Text)
      → r.cookie ≡ o
      → (cookie_user a now o).0 ≡ some user
      → HasSession a now r user
  unfolding cookie_user
  cookie_user-HasSession none c h = cc
  cookie_user-HasSession (some token) c h = elim (Bool-cases (token == [])) [
    | inl e ↦ let none_left = rw (e, cookie_user) at h in cc
    | inr e ↦
        session_user-HasSession token (lookup token a.sessions) (inr c) refl
          (rw (e, cookie_user) at h)
  ]

  header_or_cookie-IsAuthorised :
      (o : Option Text)
      → (o ≡ some user → IsAuthorised a now r user)
      → (header_or_cookie o (cookie_user a now r.cookie) a).0 ≡ some user
      → IsAuthorised a now r user
  header_or_cookie-IsAuthorised none by_header h = inr (cookie_user-HasSession r.cookie refl h)
  header_or_cookie-IsAuthorised (some u) by_header h = by_header h

  -- Where authentication is configured, a request that is let in carries the password, which is
  -- not empty, in its Authorization header, or else the token, in that header or in its cookie, of
  -- a session of the user that is not over.
  pub validate_request-IsAuthorised :
      a.cfg_enabled ≡ true → (validate_request now r a).0 ≡ some user → IsAuthorised a now r user
  unfolding validate_request
  validate_request-IsAuthorised on h =
      header_or_cookie-IsAuthorised (scheme_user a now r (cut_space r.authorization))
        (scheme_user-IsAuthorised (cut_space r.authorization) refl)
        (sym (ap (λ z. z.0) (if_true a.cfg_enabled _ _ on)) ∙ h)
