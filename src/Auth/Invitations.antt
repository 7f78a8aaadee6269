-- ===== src/Auth/Invitations.antt =====
-- New accounts: ValidateUsername, CreateUser, CreateInvitation, CheckInvitation, ActivateInvitation
-- and RevokeInvitation of source/internal/auth/store.go.
use bonghos.Base.{
  ℕ, ◌+◌, String, Bool, true, false, ◌&&◌, ◌||◌, not, List, [], ◌∷◌, ◌++◌, Option, none, some, map,
  ◌==◌, eqb, leb, ltb, if◌then◌else◌, all, any, count_if,
}
use bonghos.Base.Text.{Text, trim_space, byte_length}
use bonghos.Authorization.{Role, role_owner, valid_role}
use bonghos.Auth.State.{
  User, RecoveryCode, Invitation, Store, Error, invalid_username, invalid_password, invalid_role,
  username_taken, invitation_invalid, code_mismatch, invitation_used, owner_invitation,
}
use bonghos.Auth.Accounts.{erase_user}
use bonghos.Auth.Totp.{verify_totp}
use bonghos.Auth.Login.{Primitives, same_username}
use bonghos.Auth.Sessions.{valid_password}

abbrev pub is_name_rune : ℕ → Bool
is_name_rune r =
    (leb b'a' r && leb r b'z')
    || ((leb b'A' r && leb r b'Z')
        || ((leb b'0' r && leb r b'9') || (eqb r b'_' || (eqb r b'-' || eqb r b'.'))))

-- ValidateUsername
unfoldable pub valid_username : Text → Bool
valid_username raw =
    let u = trim_space raw in
    not (ltb (byte_length u) 3 || ltb 32 (byte_length u)) && all is_name_rune u

pub data Created : Type 0 where
  created : User → Created
  rejected : Error → Created

unfoldable pub find_invitation : String → List Invitation → Option Invitation
find_invitation h [] = none
find_invitation h (i ∷ is) =
    let rest = find_invitation h is in if i.token_hash == h then some i else rest

abbrev pub is_open : ℕ → Invitation → Bool
is_open now i =
    not (i.revoked || ((elim i.used_by [ none ↦ false | some u ↦ true ]) || ltb i.expires_at now))

unfoldable pub open_invitation : ℕ → Option Invitation → Option Invitation
open_invitation now none = none
open_invitation now (some i) = if is_open now i then some i else none

-- `WHERE id=? AND used_by IS NULL AND revoked=0`
abbrev pub is_claimable : ℕ → Invitation → Bool
is_claimable id i =
    eqb i.id id && ((elim i.used_by [ none ↦ true | some u ↦ false ]) && not i.revoked)

abbrev pub claim : ℕ → ℕ → Invitation → Invitation
claim id user i = if is_claimable id i then record i { used_by = some user } else i

module _ (lib : Primitives) where
  abbrev pub fresh_code : ℕ → Text → RecoveryCode
  fresh_code user_id c = record { user_id = user_id; code_hash = lib.hash_token c; used_at = none }

  -- CreateUser, with the generated recovery codes as `fresh`. The name is stored as it was given.
  unfoldable pub create_user : Text → Text → String → Role → List Text → Store → Store × Created
  create_user username password totp_secret role fresh s =
      if not (valid_username username)
      then (s, rejected invalid_username)
      else if not (valid_password password)
      then (s, rejected invalid_password)
      else if not (valid_role role)
      then (s, rejected invalid_role)
      else if any (λ u. same_username u.username username) s.users
      then (s, rejected username_taken)
      else let u : User = record {
        id = s.next_id;
        username = username;
        password_hash = lib.hash_password password;
        totp_secret_enc = lib.encrypt totp_secret;
        role = role;
        disabled = false;
      } in
        (
          record s {
            users = s.users ++ u ∷ [];
            recovery_codes = s.recovery_codes ++ map (fresh_code s.next_id) fresh;
            next_id = s.next_id + 1;
          },
          created u,
        )

  -- CreateInvitation; the token is fresh random text.
  unfoldable pub create_invitation : ℕ → ℕ → Role → Text → Store → Store × Option Error
  create_invitation now ttl role token s =
      if role == role_owner
      then (s, some owner_invitation)
      else if not (valid_role role)
      then (s, some invalid_role)
      else (
        record s {
          invitations =
              record {
                id = s.next_id;
                token_hash = lib.hash_token token;
                role = role;
                expires_at = now + ttl;
                used_by = none;
                revoked = false;
              }
              ∷ s.invitations;
          next_id = s.next_id + 1;
        },
        none,
      )

  -- CheckInvitation: the invitation, whose role and id the code returns.
  unfoldable pub check_invitation : ℕ → Text → Store → Option Invitation
  check_invitation now token s =
      open_invitation now (find_invitation (lib.hash_token token) s.invitations)

  -- The update that claims the invitation, and the removal of the account if another request was
  -- faster.
  unfoldable pub claim_invitation : ℕ → User → Store → Store × Created
  claim_invitation id u s =
      if eqb (count_if (is_claimable id) s.invitations) 1
      then (record s { invitations = map (claim id u.id) s.invitations }, created u)
      else (
        erase_user (record s { invitations = map (claim id u.id) s.invitations }) u.id,
        rejected invitation_used,
      )

  unfoldable pub finish_activation : (Store → Store) → ℕ → Store × Created → Store × Created
  finish_activation between id (s, rejected e) = (s, rejected e)
  finish_activation between id (s, created u) = claim_invitation id u (between s)

  unfoldable pub activate_checked :
      ℕ
      → (Store → Store)
      → Text
      → Text
      → String
      → Text
      → List Text
      → Store
      → Option Invitation
      → Store × Created
  activate_checked now between username password secret code fresh s none =
      (s, rejected invitation_invalid)
  activate_checked now between username password secret code fresh s (some i) =
      if not (verify_totp lib.mac secret code now)
      then (s, rejected code_mismatch)
      else finish_activation between i.id (create_user username password secret i.role fresh s)

  -- ActivateInvitation. `between` is what other requests do after the account is created and before
  -- the invitation is claimed.
  unfoldable pub activate_invitation :
      ℕ → (Store → Store) → Text → Text → Text → String → Text → List Text → Store → Store × Created
  activate_invitation now between token username password secret code fresh s =
      activate_checked now between username password secret code fresh s
        (check_invitation now token s)

abbrev pub revoke_by_id : ℕ → Invitation → Invitation
revoke_by_id id i = if eqb i.id id then record i { revoked = true } else i

unfoldable pub revoke_invitation : ℕ → Store → Store
revoke_invitation id s = record s { invitations = map (revoke_by_id id) s.invitations }
