-- ===== src/Http/GateLaws.antt =====
-- Which requests the wrappers of source/internal/app/http.go let through.
use bonghos.Base.{
  inr, inl, ℕ, ◌≡◌, refl, sym, ap, subst, ◌∙◌, Bool, true, Option, none, some, if◌then◌else◌,
  Bool-cases, arith,
}
use bonghos.Base.Text.{Text}
use bonghos.Authorization.{Role, Permission}
use bonghos.Auth.State.{User, Session, Store, invalid_credentials}
use bonghos.Auth.Accounts.{set_disabled}
use bonghos.Auth.Login.{Primitives}
use bonghos.Auth.Sessions.{Validity, valid, invalid, validate_session, find_session, revoke_session}
use bonghos.Auth.SessionLaws.{validate-revoke, disable-sessions}
use bonghos.Http.Gate.{
  Request, handled, forbidden, csrf_ok, csrf_protect, cookie_user, with_user, require_perm,
}

module _ (lib : Primitives) (now : ℕ) (s : Store) where
  -- The request carries the session of the user.
  abbrev pub HasSession : Request → User → Type 0
  HasSession r u =
      (token : Text) × ((r.session_cookie ≡ some token)
        × (validate_session lib now token s ≡ valid u))

  abbrev of_validity : Validity → Option User
  of_validity v = elim v [ valid u ↦ some u | invalid e ↦ none ]

  of_validity-valid : (v : Validity) (u : User) → of_validity v ≡ some u → v ≡ valid u
  of_validity-valid (valid w) u h = ground (arith, h)
  of_validity-valid (invalid e) u h = cc h

  session-HasSession :
      (c : Option Text) (u : User)
      → cookie_user lib now s c ≡ some u
      → (token : Text) × ((c ≡ some token) × (validate_session lib now token s ≡ valid u))
  session-HasSession none u h = cc h
  session-HasSession (some token) u h =
      (token, (refl, of_validity-valid (validate_session lib now token s) u h))

  module _ (allowed : Role → Permission → Bool) (p : Permission) where
    let_through :
        (o : Option User) (u : User)
        → with_user lib now s (λ w. if allowed w.role p then handled (some w) else forbidden) o
          ≡ handled (some u)
        → (o ≡ some u) × (allowed u.role p ≡ true)
    let_through none u h = cc h
    let_through (some w) u h = elim (Bool-cases (allowed w.role p)) [
      | inl a ↦
          let e : w ≡ u = ground (arith, h, a) in
          (ap (λ x. some x) e, subst (λ (x : User). allowed x.role p ≡ true) e a)
      | inr a ↦ absurd (ground (arith, h, a))
    ]

    through :
        (r : Request) (u : User)
        → csrf_protect (require_perm lib now s allowed p) r ≡ handled (some u)
        → (csrf_ok r ≡ true) × (HasSession r u × (allowed u.role p ≡ true))
    unfolding csrf_protect require_perm
    through r u h = elim (Bool-cases (csrf_ok r)) [
      | inr c ↦ absurd (ground (arith, h, c))
      | inl c ↦
          let w = let_through (cookie_user lib now s r.session_cookie) u (ground (arith, h, c)) in
          (c, (session-HasSession r.session_cookie u w.0, w.1))
    ]

refused :
    (lib : Primitives) (now : ℕ) (s : Store) (allowed : Role → Permission → Bool) (p : Permission)
    (r : Request) (u : User) (token : Text)
    → r.session_cookie ≡ some token
    → validate_session lib now token s ≡ invalid invalid_credentials
    → csrf_protect (require_perm lib now s allowed p) r ≡ handled (some u)
    → ⊥
refused lib now s allowed p r u token c v h =
    let t = through lib now s allowed p r u h in
    let w = t.1.0 in
    let e : some w.0 ≡ some token = sym w.1.0 ∙ c in
    let f : valid u ≡ invalid invalid_credentials =
      sym w.1.1 ∙ (ap (λ x. validate_session lib now x s) (ground (arith, e)) ∙ v) in
    cc f

-- After the session of a token was revoked, or the account that it belongs to was disabled, no request with
-- this token gets through to a handler behind a permission.
pub require_perm-ended :
    (lib : Primitives) (now i : ℕ) (s t : Store) (x : Session) (allowed : Role → Permission → Bool)
    (p : Permission) (r : Request) (u : User) (token : Text)
    → r.session_cookie ≡ some token
    → find_session (lib.hash_token token) s.sessions ≡ some x
    → x.user_id ≡ i
    → set_disabled s i true ≡ (t, none)
    → (csrf_protect (require_perm lib now (revoke_session lib token s) allowed p) r
          ≡ handled (some u)
        → ⊥)
      × (csrf_protect (require_perm lib now t allowed p) r ≡ handled (some u) → ⊥)
require_perm-ended lib now i s t x allowed p r u token c f e d = (
  refused lib now (revoke_session lib token s) allowed p r u token c
      (validate-revoke lib now token s),
  refused lib now t allowed p r u token c (disable-sessions lib now i token s t x d f e),
)
