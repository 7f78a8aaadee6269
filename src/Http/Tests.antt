-- ===== src/Http/Tests.antt =====
-- Tests of the wrappers.
use bonghos.Base.{ℕ, ◌≡◌, refl, Bool, true, false, [], ◌∷◌, none, some, if◌then◌else◌}
use bonghos.Base.Text.{Text, codes, text_eq}
use bonghos.Authorization.{Role, role_owner, Permission, all_permissions}
use bonghos.Auth.State.{User, Session, Store}
use bonghos.Auth.Accounts.{
  count_active_owners, guard_found, guard_last_owner, find_user, user_by_id, set_disabled,
}
use bonghos.Auth.Login.{Primitives}
use bonghos.Auth.Sessions.{
  active_user, find_session, session_user, validate_session, revoke_session,
}
use bonghos.Roles.State.{Database, has_permission}
use bonghos.Http.Gate.{
  Request, handled, unauthorized, forbidden, csrf_protect, require_perm, require_owner,
}
use bonghos.Http.GateLaws.{require_perm-ended}

abbrev lib : Primitives
lib = record {
  verify_password = λ p h. true;
  hash_password = λ p. "h";
  encrypt = λ s. s;
  decrypt = λ s. some s;
  hash_token = λ t. if text_eq t (codes "one") then "h1" else "h0";
  mac = record { key = λ s. some s; sum = λ k m. [] };
  lower_beyond = λ r. r;
}

abbrev user : ℕ → Role → User
user id role = record {
  id = id;
  username = codes "ana";
  password_hash = "h";
  totp_secret_enc = "k";
  role = role;
  disabled = false;
}

abbrev session : Session
session = record { id = "h1"; user_id = 2; expires_at = 9000; revoked = false }

abbrev store : Store
store = record {
  users = user 1 role_owner ∷ user 2 role_owner ∷ [];
  recovery_codes = [];
  sessions = session ∷ [];
  invitations = [];
  login_attempts = [];
  next_id = 3;
}

abbrev db : Database
db = record { profiles = λ r. none; grants = λ r. []; users = [] }

abbrev allowed : Role → Permission → Bool
allowed = has_permission (λ s. false) (λ n. all_permissions) db

abbrev post : Text → Request
post token = record {
  method = "POST";
  session_cookie = some token;
  csrf_cookie = some (codes "c");
  csrf_header = codes "c";
}

abbrev forged : Request
forged = record {
  method = "POST";
  session_cookie = some (codes "one");
  csrf_cookie = some (codes "c");
  csrf_header = [];
}

forged_refused : csrf_protect (require_owner lib 100 store) forged ≡ forbidden
unfolding csrf_protect text_eq
forged_refused = refl

no_session : csrf_protect (require_owner lib 100 store) (post (codes "two")) ≡ unauthorized
unfolding csrf_protect text_eq require_owner validate_session session_user find_session
no_session = refl

owner_passes :
    csrf_protect (require_owner lib 100 store) (post (codes "one"))
    ≡ handled (some (user 2 role_owner))
unfolding csrf_protect text_eq require_owner validate_session session_user find_session active_user
    user_by_id find_user
owner_passes = refl

too_late : csrf_protect (require_owner lib 9001 store) (post (codes "one")) ≡ unauthorized
unfolding csrf_protect text_eq require_owner validate_session session_user find_session
too_late = refl

abbrev closed : Store
closed = (set_disabled store 2 true).0

require_perm-ended_example :
    (csrf_protect
          (require_perm lib 100 (revoke_session lib (codes "one") store) allowed "server.start")
          (post (codes "one"))
        ≡ handled (some (user 2 role_owner))
      → ⊥)
    × (csrf_protect (require_perm lib 100 closed allowed "server.start") (post (codes "one"))
          ≡ handled (some (user 2 role_owner))
        → ⊥)
unfolding find_session text_eq set_disabled guard_last_owner guard_found find_user
    count_active_owners
require_perm-ended_example =
    require_perm-ended lib 100 2 store closed session allowed "server.start" (post (codes "one"))
      (user 2 role_owner) (codes "one") refl refl refl refl
