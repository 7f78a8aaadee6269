-- ===== src/Auth/State.antt =====
-- The tables that source/internal/auth/store.go works on (migration 0001). Times are seconds: the
-- code compares texts in RFC 3339 at UTC, whose order is that of the times.
use bonghos.Base.{ℕ, String, Bool, List, Option}
use bonghos.Base.Text.{Text}
use bonghos.Authorization.{Role}

pub record User : Type 0 where
  pub id : ℕ
  pub username : Text
  pub password_hash : String
  pub totp_secret_enc : String
  pub role : Role
  pub disabled : Bool

pub record RecoveryCode : Type 0 where
  pub user_id : ℕ
  pub code_hash : String
  pub used_at : Option ℕ

pub record Session : Type 0 where
  pub id : String
  pub user_id : ℕ
  pub expires_at : ℕ
  pub revoked : Bool

pub record Invitation : Type 0 where
  pub id : ℕ
  pub token_hash : String
  pub role : Role
  pub expires_at : ℕ
  pub used_by : Option ℕ
  pub revoked : Bool

-- The identifiers "u:" + name and "ip:" + address of `login_attempts`.
pub data Identifier : Type 0 where
  by_user : Text → Identifier
  by_ip : String → Identifier

pub record Attempt : Type 0 where
  pub identifier : Identifier
  pub attempted_at : ℕ
  pub success : Bool

pub record Store : Type 0 where
  pub users : List User
  pub recovery_codes : List RecoveryCode
  pub sessions : List Session
  pub invitations : List Invitation
  pub login_attempts : List Attempt
  pub next_id : ℕ

pub data Error : Type 0 where
  invalid_credentials rate_limited last_owner username_taken : Error
  invalid_role invalid_username invalid_password no_rows : Error
  invitation_invalid code_mismatch invitation_used owner_invitation : Error
