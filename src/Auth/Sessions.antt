-- ===== src/Auth/Sessions.antt =====
-- Sessions and fresh credentials: CreateSession, ValidateSession, RevokeSession of
-- source/internal/auth/store.go, ChangePassword and ChangeTOTP of account_security.go.
use bonghos.Base.{
  ℕ, ◌+◌, String, Bool, true, false, ◌&&◌, ◌||◌, not, List, [], ◌∷◌, Option, none, some, map, ◌==◌,
  eqb, ltb, if◌then◌else◌,
}
use bonghos.Base.Text.{Text, byte_length, text_eq}
use bonghos.Auth.State.{User, Session, Store, Error, invalid_credentials, invalid_password, no_rows}
use bonghos.Auth.Accounts.{user_by_id, update_user}
use bonghos.Auth.Login.{Primitives, replace_recovery_codes}

-- `SELECT … FROM sessions WHERE id = ?`
unfoldable pub find_session : String → List Session → Option Session
find_session id [] = none
find_session id (x ∷ xs) = let rest = find_session id xs in if x.id == id then some x else rest

pub data Validity : Type 0 where
  valid : User → Validity
  invalid : Error → Validity

unfoldable pub active_user : Option User → Validity
active_user none = invalid invalid_credentials
active_user (some u) = if u.disabled then invalid invalid_credentials else valid u

unfoldable pub session_user : ℕ → Store → Option Session → Validity
session_user now s none = invalid invalid_credentials
session_user now s (some x) =
    if x.revoked || ltb x.expires_at now
    then invalid invalid_credentials
    else active_user (user_by_id s x.user_id)

-- ValidatePassword
unfoldable pub valid_password : Text → Bool
valid_password p = not (ltb (byte_length p) 10) && not (ltb 256 (byte_length p))

-- `UPDATE sessions SET revoked=1 WHERE id=?`
abbrev pub revoke_at : String → Session → Session
revoke_at id x = if x.id == id then record x { revoked = true } else x

-- `UPDATE sessions SET revoked=1 WHERE user_id=? AND id<>?`
abbrev pub revoke_other : ℕ → String → Session → Session
revoke_other user_id id x =
    if eqb x.user_id user_id && not (x.id == id) then record x { revoked = true } else x

-- The rows that `UPDATE users … WHERE id=?` affects.
unfoldable pub user_exists : ℕ → List User → Bool
user_exists i [] = false
user_exists i (u ∷ us) = eqb u.id i || user_exists i us

module _ (lib : Primitives) where
  -- CreateSession; the token is fresh random text and only its hash is stored.
  unfoldable pub create_session : ℕ → ℕ → ℕ → Text → Store → Store
  create_session now ttl user_id token s = record s {
    sessions =
        record {
          id = lib.hash_token token;
          user_id = user_id;
          expires_at = now + ttl;
          revoked = false;
        }
        ∷ s.sessions;
  }

  -- ValidateSession; the time stamp `last_seen_at` is left out.
  unfoldable pub validate_session : ℕ → Text → Store → Validity
  validate_session now token s =
      if text_eq token []
      then invalid invalid_credentials
      else session_user now s (find_session (lib.hash_token token) s.sessions)

  unfoldable pub revoke_session : Text → Store → Store
  revoke_session token s = record s { sessions = map (revoke_at (lib.hash_token token)) s.sessions }

  unfoldable pub keep_only : ℕ → Text → Store → Store
  keep_only user_id token s = record s {
    sessions = map (revoke_other user_id (lib.hash_token token)) s.sessions;
  }

  -- ChangePassword: one transaction, so an error leaves everything as it was.
  unfoldable pub change_password : ℕ → Text → Text → Store → Store × Option Error
  change_password user_id token new_password s =
      if not (valid_password new_password)
      then (s, some invalid_password)
      else if not (user_exists user_id s.users)
      then (s, some no_rows)
      else (
        keep_only user_id token (record s {
          users =
              update_user user_id (λ u. record u { password_hash = lib.hash_password new_password })
                s.users;
        }),
        none,
      )

  -- ChangeTOTP; `fresh` are the eight generated recovery codes.
  unfoldable pub change_totp : ℕ → Text → String → List Text → Store → Store × Option Error
  change_totp user_id token secret fresh s =
      if not (user_exists user_id s.users) then (s, some no_rows) else (
        keep_only user_id token (
            replace_recovery_codes lib
              (record s {
                users =
                    update_user user_id (λ u. record u { totp_secret_enc = lib.encrypt secret })
                      s.users;
              })
              user_id fresh),
        none,
      )

  -- ResetPassword, the recovery path of the command line.
  unfoldable pub reset_password : ℕ → Text → Store → Store × Option Error
  reset_password user_id new_password s =
      if not (valid_password new_password) then (s, some invalid_password) else (
        record s {
          users =
              update_user user_id (λ u. record u { password_hash = lib.hash_password new_password })
                s.users;
        },
        none,
      )
