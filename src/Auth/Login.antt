-- ===== src/Auth/Login.antt =====
-- Login, its rate limit and the one-use recovery codes of source/internal/auth/store.go, and the
-- replacement of recovery codes of account_security.go.
use bonghos.Base.{
  ℕ, ◌+◌, String, Bool, true, false, ◌&&◌, ◌||◌, not, List, [], ◌∷◌, ◌++◌, Option, none, some, map,
  ◌==◌, eqb, leb, ltb, if◌then◌else◌, count_if, filter, any,
}
use bonghos.Base.Text.{Text, text_eq, byte_length, trim_space, to_lower}
use bonghos.Auth.State.{
  User, RecoveryCode, Identifier, by_user, by_ip, Attempt, Store, Error, invalid_credentials,
  rate_limited,
}
use bonghos.Auth.Totp.{Mac, verify_totp}

-- What the code takes from the cryptographic libraries and the Unicode tables.
pub record Primitives : Type 0 where
  pub verify_password : Text → String → Bool
  pub hash_password : Text → String
  pub encrypt : String → String
  pub decrypt : String → Option String
  pub hash_token : Text → String
  pub mac : Mac
  pub lower_beyond : ℕ → ℕ

abbrev pub rate_window : ℕ
rate_window = 600

abbrev pub rate_max_fails : ℕ
rate_max_fails = 8

abbrev pub day : ℕ
day = 86400

abbrev pub same_identifier : Identifier → Identifier → Bool
same_identifier (by_user a) (by_user b) = text_eq a b
same_identifier (by_user a) (by_ip b) = false
same_identifier (by_ip a) (by_user b) = false
same_identifier (by_ip a) (by_ip b) = a == b

-- recordAttempt: the row is inserted, then rows older than a day are deleted.
unfoldable pub record_attempt : ℕ → Identifier → Bool → Store → Store
record_attempt now id success s = record s {
  login_attempts =
      filter (λ a. not (ltb (a.attempted_at + day) now))
        (record { identifier = id; attempted_at = now; success = success } ∷ s.login_attempts);
}

-- `identifier=? AND success=0 AND attempted_at > ?`
abbrev pub is_recent_fail : ℕ → Identifier → Attempt → Bool
is_recent_fail now id a =
    same_identifier a.identifier id && (not a.success && ltb now (a.attempted_at + rate_window))

unfoldable pub recent_fails : ℕ → Identifier → Store → ℕ
recent_fails now id s = count_if (is_recent_fail now id) s.login_attempts

unfoldable pub limited : ℕ → List Identifier → Store → Bool
limited now ids s = any (λ id. leb rate_max_fails (recent_fails now id s)) ids

-- The column `username` compares without regard to ASCII case.
abbrev pub fold_case : ℕ → ℕ
fold_case r = if leb b'A' r && leb r b'Z' then r + 32 else r

unfoldable pub same_username : Text → Text → Bool
same_username a b = text_eq (map fold_case a) (map fold_case b)

unfoldable pub find_by_name : Text → List User → Option User
find_by_name name [] = none
find_by_name name (u ∷ us) =
    let rest = find_by_name name us in if same_username u.username name then some u else rest

pub data LoginResult : Type 0 where
  accepted : User → LoginResult
  refused : Error → LoginResult

module _ (lib : Primitives) where
  -- NormalizeUsername
  unfoldable pub normalize_username : Text → Text
  normalize_username name = to_lower lib.lower_beyond (trim_space name)

  -- `user_id=? AND code_hash=? AND used_at IS NULL`
  abbrev pub is_unused_code : ℕ → String → RecoveryCode → Bool
  is_unused_code user_id hash c =
      eqb c.user_id user_id
      && (c.code_hash == hash && (elim c.used_at [ none ↦ true | some t ↦ false ]))

  abbrev pub code_hash : Text → String
  code_hash code = lib.hash_token (to_lower lib.lower_beyond (trim_space code))

  abbrev pub code_long_enough : Text → Bool
  code_long_enough code = not (ltb (byte_length (to_lower lib.lower_beyond (trim_space code))) 8)

  unfoldable pub recovery_code_available : Store → ℕ → Text → Bool
  recovery_code_available s user_id code =
      code_long_enough code && any (is_unused_code user_id (code_hash code)) s.recovery_codes

  abbrev pub spend : ℕ → ℕ → String → RecoveryCode → RecoveryCode
  spend now user_id hash c =
      if is_unused_code user_id hash c then record c { used_at = some now } else c

  -- consumeRecoveryCode: the update marks every matching row, and one of them is asked for.
  unfoldable pub consume_recovery_code : ℕ → Store → ℕ → Text → Store × Bool
  consume_recovery_code now s user_id code = if not (code_long_enough code) then (s, false) else (
    record s { recovery_codes = map (spend now user_id (code_hash code)) s.recovery_codes },
    eqb (count_if (is_unused_code user_id (code_hash code)) s.recovery_codes) 1,
  )

  unfoldable pub totp_ok : ℕ → User → Text → Bool
  totp_ok now u code = elim (lib.decrypt u.totp_secret_enc) [
    | none ↦ false
    | some secret ↦ verify_totp lib.mac secret code now
  ]

  -- What `fail` records before it answers.
  unfoldable pub record_failure : ℕ → Text → String → Store → Store
  record_failure now norm ip s =
      record_attempt now (by_ip ip) false (record_attempt now (by_user norm) false s)

  -- The statement that spends the code decides who of two concurrent logins gets in.
  unfoldable pub redeem : ℕ → Text → String → User → Store × Bool → Store × LoginResult
  redeem now norm ip u (s, true) = (record_attempt now (by_user norm) true s, accepted u)
  redeem now norm ip u (s, false) = (record_failure now norm ip s, refused invalid_credentials)

  unfoldable pub login_user :
      ℕ → (Store → Store) → Text → Text → Text → String → Store → Option User → Store × LoginResult
  login_user now between norm password code ip s none =
      (record_failure now norm ip (between s), refused invalid_credentials)
  login_user now between norm password code ip s (some u) =
      let totp = totp_ok now u code in
      let recovery = not totp && recovery_code_available s u.id code in
      if not (lib.verify_password password u.password_hash)
        || (not (totp || recovery) || u.disabled)
      then (record_failure now norm ip (between s), refused invalid_credentials)
      else if recovery
      then redeem now norm ip u (consume_recovery_code now (between s) u.id code)
      else (record_attempt now (by_user norm) true (between s), accepted u)

  -- Login. `between` is what the statements of other requests do after the reads of this one and
  -- before its writes; it is the identity when requests are served one after another.
  unfoldable pub login :
      ℕ → (Store → Store) → Text → Text → Text → String → Store → Store × LoginResult
  login now between username password code ip s =
      let norm = normalize_username username in
      if limited now (by_user norm ∷ by_ip ip ∷ []) s
      then (s, refused rate_limited)
      else login_user now between norm password code ip s (find_by_name username s.users)

  -- replaceRecoveryCodes: the codes are fresh random texts, already in the form that is hashed.
  unfoldable pub replace_recovery_codes : Store → ℕ → List Text → Store
  replace_recovery_codes s user_id fresh = record s {
    recovery_codes =
        filter (λ c. not (eqb c.user_id user_id)) s.recovery_codes
        ++ map (λ c. record { user_id = user_id; code_hash = lib.hash_token c; used_at = none })
            fresh;
  }
