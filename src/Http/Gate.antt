-- ===== src/Http/Gate.antt =====
-- The wrappers around the handlers in source/internal/app/http.go: csrfProtect, requireAuth, requireOwner,
-- requirePerm and requireAnyPerm, over the sessions of source/internal/auth and the stored permissions.
use bonghos.Base.{
  ℕ, Bool, false, ◌&&◌, ◌||◌, not, List, [], Option, none, some, if◌then◌else◌, any, String, ◌==◌,
}
use bonghos.Base.Text.{Text, text_eq}
use bonghos.Authorization.{Role, role_owner, Permission}
use bonghos.Auth.State.{User, Store}
use bonghos.Auth.Login.{Primitives}
use bonghos.Auth.Sessions.{valid, invalid, validate_session}

-- What the wrappers look at: the method, the two cookies and the header with the CSRF token, which is
-- empty when it is missing.
pub record Request : Type 0 where
  pub method : String
  pub session_cookie : Option Text
  pub csrf_cookie : Option Text
  pub csrf_header : Text

-- The handler ran, for a user if the wrappers give one, or the request was answered with an error.
pub data Reply : Type 0 where
  handled : Option User → Reply
  unauthorized forbidden : Reply

abbrev pub is_safe_method : String → Bool
is_safe_method m = m == "GET" || (m == "HEAD" || m == "OPTIONS")

abbrev pub same_token : Option Text → Text → Bool
same_token none header = false
same_token (some cookie) header = not (text_eq header []) && text_eq cookie header

-- The request shows no forgery.
abbrev pub csrf_ok : Request → Bool
csrf_ok r = is_safe_method r.method || same_token r.csrf_cookie r.csrf_header

-- csrfProtect
unfoldable pub csrf_protect : (Request → Reply) → Request → Reply
csrf_protect next r = if csrf_ok r then next r else forbidden

module _ (lib : Primitives) (now : ℕ) (s : Store) where
  abbrev pub cookie_user : Option Text → Option User
  cookie_user none = none
  cookie_user (some token) = elim (validate_session lib now token s) [
    | valid u ↦ some u
    | invalid e ↦ none
  ]

  -- sessionUser; an empty cookie is no session.
  unfoldable pub session_of : Request → Option User
  session_of r = cookie_user r.session_cookie

  abbrev pub with_user : (User → Reply) → Option User → Reply
  with_user next none = unauthorized
  with_user next (some u) = next u

  -- requireAuth
  unfoldable pub require_auth : (User → Reply) → Request → Reply
  unfolding session_of
  require_auth next r = with_user next (session_of r)

  -- requireOwner
  unfoldable pub require_owner : Request → Reply
  unfolding require_auth
  require_owner r =
      require_auth (λ u. if u.role == role_owner then handled (some u) else forbidden) r

  module _ (has_permission : Role → Permission → Bool) where
    -- requirePerm
    unfoldable pub require_perm : Permission → Request → Reply
    unfolding require_auth
    require_perm p r =
        require_auth (λ u. if has_permission u.role p then handled (some u) else forbidden) r

    -- requireAnyPerm
    unfoldable pub require_any_perm : List Permission → Request → Reply
    unfolding require_auth
    require_any_perm ps r =
        require_auth
          (λ u. if any (λ p. has_permission u.role p) ps then handled (some u) else forbidden) r
