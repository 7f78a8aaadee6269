-- ===== src/Auth/Tests.antt =====
-- Tests of the models of source/internal/auth, and the theorems at concrete inputs.
use bonghos.Base.{
  eq_iff, ℕ, ◌+◌, ◌-◌, ◌/◌, ◌≤◌, ◌≡◌, ◌≢◌, ◌↔◌, refl, ◌⊎◌, String, true, false, List, [], ◌∷◌, none,
  some, length, if◌then◌else◌, count_if, eqb, ◌==◌, arith,
}
use bonghos.Base.Text.{to_lower, byte_length, Text, codes, text_eq, trim_space}
use bonghos.Authorization.{role_owner, role_admin, role_viewer, valid_role}
use bonghos.Auth.State.{User, Session, Invitation, Identifier, by_ip, Store, invalid_credentials}
use bonghos.Auth.Accounts.{
  update_user, write_role, set_role, guard_found, guard_last_owner, delete_user, apply, find_user,
  Change, role_change, deletion, apply_all, count_active_owners, set_disabled,
}
use bonghos.Auth.LastOwner.{IsManaged, apply_all-IsManaged}
use bonghos.Auth.Totp.{
  truncate, six_digits, code_matches, totp_code, Mac, step_code, verify_totp, verify_totp_iff,
}
use bonghos.Auth.LoginLaws.{name_limited, Judged, login_sound}
use bonghos.Auth.RateLimit.{IsBounded, login-IsBounded}
use bonghos.Auth.Sessions.{
  user_exists, valid_password, invalid, validate_session, change_password, find_session,
}
use bonghos.Auth.SessionLaws.{change_password-sessions}
use bonghos.Auth.Invitations.{
  finish_activation, activate_checked, claim_invitation, open_invitation, find_invitation,
  create_user, Created, activate_invitation, check_invitation, valid_username,
}
use bonghos.Auth.InvitationLaws.{IsRejected, activate_once}
use bonghos.Auth.InvitationRoles.{activate-role}
use bonghos.Auth.Login.{
  consume_recovery_code, redeem, totp_ok, same_username, find_by_name, login_user, limited,
  rate_max_fails, recent_fails, Primitives, login, accepted, recovery_code_available,
}

-- Twenty bytes of zeros stand for the sum: every code is 000000.
abbrev mac : Mac
mac = record {
  key = λ s. some s;
  sum = λ k m. 0 ∷ 0 ∷ 0 ∷ 0 ∷ 0 ∷ 0 ∷ 0 ∷ 0 ∷ 0 ∷ 0 ∷ 0 ∷ 0 ∷ 0 ∷ 0 ∷ 0 ∷ 0 ∷ 0 ∷ 0 ∷ 0 ∷ 0 ∷ [];
}

abbrev digest : Text → String
digest t = if text_eq t (codes "one") then "h1" else if text_eq t (codes "two") then "h2" else "h0"

abbrev lib : Primitives
lib = record {
  verify_password = λ p h. digest p == h;
  hash_password = λ p. digest p;
  encrypt = λ s. s;
  decrypt = λ s. some s;
  hash_token = digest;
  mac = mac;
  lower_beyond = λ r. r;
}

abbrev ana : User
ana = record {
  id = 1;
  username = codes "ana";
  password_hash = "h1";
  totp_secret_enc = "k";
  role = role_owner;
  disabled = false;
}

abbrev bo : User
bo = record {
  id = 2;
  username = codes "bo";
  password_hash = "h2";
  totp_secret_enc = "k";
  role = role_owner;
  disabled = false;
}

abbrev first_session : Session
first_session = record { id = "h1"; user_id = 1; expires_at = 9000; revoked = false }

abbrev second_session : Session
second_session = record { id = "h2"; user_id = 1; expires_at = 9000; revoked = false }

abbrev open_place : Invitation
open_place = record {
  id = 7;
  token_hash = "h1";
  role = role_admin;
  expires_at = 9000;
  used_by = none;
  revoked = false;
}

abbrev store : Store
store = record {
  users = ana ∷ bo ∷ [];
  recovery_codes = record { user_id = 1; code_hash = "h0"; used_at = none } ∷ [];
  sessions = first_session ∷ second_session ∷ [];
  invitations = open_place ∷ [];
  login_attempts =
      record { identifier = by_ip "10.0.0.9"; attempted_at = 900; success = false } ∷ [];
  next_id = 8;
}

strings_differ : (a b : String) → (a == b) ≡ false → a ≢ b
strings_differ a b h e = ground (arith, eq_iff a b, e, h)

unique_ids : (j : ℕ) → count_if (λ u. eqb u.id j) store.users ≤ 1
unique_ids j = ground arith

store-IsManaged : IsManaged store
unfolding count_active_owners
store-IsManaged = record { owned = omega arith; unique = unique_ids }

abbrev changes : List Change
changes = role_change 1 role_viewer ∷ deletion 2 ∷ []

apply_all-IsManaged_example : IsManaged (apply_all store changes)
apply_all-IsManaged_example = apply_all-IsManaged store changes store-IsManaged

-- The second change is refused: it would remove the last active Owner.
apply_all_test :
    (count_active_owners (apply_all store changes) ≡ 1)
    × (length (apply_all store changes).users ≡ 2)
unfolding apply_all apply count_active_owners delete_user guard_last_owner guard_found find_user
    set_role valid_role write_role update_user
apply_all_test = (refl, refl)

verify_totp_iff_example :
    (verify_totp mac "k" (codes " 000000") 1000 ≡ true)
    ↔ (trim_space (codes " 000000") ≡ step_code mac "k" (1000 / 30))
      ⊎ ((trim_space (codes " 000000") ≡ step_code mac "k" (1000 / 30 - 1))
          ⊎ (trim_space (codes " 000000") ≡ step_code mac "k" (1000 / 30 + 1)))
verify_totp_iff_example = verify_totp_iff mac "k" "k" (codes " 000000") 1000 refl (omega arith)

verify_totp_test : verify_totp mac "k" (codes " 000000") 1000 ≡ true
unfolding verify_totp totp_code byte_length trim_space code_matches text_eq step_code six_digits
    truncate
verify_totp_test = refl

abbrev nothing_else : Store → Store
nothing_else s = s

abbrev recovered : Store
recovered =
    (login lib 1000 nothing_else (codes "Ana") (codes "one") (codes "recovery1") "10.0.0.9" store).0

login_sound_example :
    (name_limited lib 1000 nothing_else
        (codes "Ana")
        (codes "one")
        (codes "recovery1")
        "10.0.0.9"
        store
      ≡ false)
    × Judged lib 1000 nothing_else
        (codes "Ana")
        (codes "one")
        (codes "recovery1")
        "10.0.0.9"
        store
        (recovered, accepted ana)
unfolding login limited recent_fails login_user find_by_name same_username text_eq totp_ok
    verify_totp byte_length trim_space recovery_code_available to_lower redeem consume_recovery_code
login_sound_example =
    login_sound lib 1000 nothing_else (codes "Ana") (codes "one") (codes "recovery1") "10.0.0.9"
      store recovered ana refl

no_fails : (id : Identifier) → recent_fails 950 id store ≤ rate_max_fails
unfolding recent_fails
no_fails id = ground arith

login-IsBounded_example :
    IsBounded 1000
      (login lib 1000 (λ x. x) (codes "ana") (codes "wrong") (codes "000000") "10.0.0.9" store).0
login-IsBounded_example =
    login-IsBounded lib 950 1000 (codes "ana") (codes "wrong") (codes "000000") "10.0.0.9" store
      (omega arith) no_fails

abbrev changed : Store
changed = (change_password lib 1 (codes "one") (codes "long enough") store).0

change_password-sessions_example :
    (validate_session lib 1000 (codes "two") changed ≡ invalid invalid_credentials)
    × (find_session "h1" changed.sessions ≡ find_session "h1" store.sessions)
unfolding change_password find_session valid_password byte_length user_exists text_eq
change_password-sessions_example =
    change_password-sessions lib 1000 1 (codes "one") (codes "two") (codes "long enough") store
      changed second_session refl refl refl (strings_differ "h2" "h1" refl)

abbrev closed : Store
closed = (set_disabled store 1 true).0

abbrev joined : Store × Created
joined =
    activate_invitation lib 1000 nothing_else (codes "one") (codes "cleo") (codes "long enough") "k"
      (codes "000000") [] store

abbrev cleo : User
cleo = record {
  id = 8;
  username = codes "cleo";
  password_hash = "h0";
  totp_secret_enc = "k";
  role = role_admin;
  disabled = false;
}

activate_once_example :
    IsRejected
      (activate_invitation lib 1001
        (λ x. joined.0)
        (codes "one")
        (codes "dora")
        (codes "long enough")
        "k"
        (codes "000000")
        []
        store).1
unfolding check_invitation activate_invitation open_invitation find_invitation text_eq
    activate_checked verify_totp byte_length trim_space code_matches totp_code step_code six_digits
    truncate finish_activation create_user valid_username valid_password valid_role claim_invitation
    same_username
activate_once_example =
    activate_once lib 1000 1001 nothing_else (codes "one") (codes "one") (codes "cleo")
      (codes "dora") (codes "long enough") (codes "long enough") "k" "k" (codes "000000")
      (codes "000000") [] [] store store open_place open_place cleo refl refl refl refl

admin_differs : (role_admin ≢ role_owner) × (valid_role role_admin ≡ true)
unfolding valid_role
admin_differs = (strings_differ role_admin role_owner refl, refl)

activate-role_example :
    (i : Invitation) × (check_invitation lib 1000 (codes "one") store ≡ some i)
    × (cleo.role ≡ i.role)
    × (cleo.role ≢ role_owner)
    × (valid_role cleo.role ≡ true)
unfolding check_invitation activate_invitation open_invitation find_invitation text_eq
    activate_checked verify_totp byte_length trim_space code_matches totp_code step_code six_digits
    truncate finish_activation create_user valid_username valid_password valid_role claim_invitation
    same_username
activate-role_example =
    activate-role lib 1000 nothing_else (codes "one") (codes "cleo") (codes "long enough") "k"
      (codes "000000") [] store cleo (admin_differs, tt) refl
