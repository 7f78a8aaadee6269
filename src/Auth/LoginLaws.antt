-- ===== src/Auth/LoginLaws.antt =====
-- What Login of store.go guarantees: who gets in, what a recovery code is worth, and how many
-- failures are let through.
use bonghos.Base.{
  ℕ, ◌≡◌, refl, subst, ◌∙◌, ◌⊎◌, inl, inr, String, Bool, true, false, ◌&&◌, ◌||◌, not, List, [],
  ◌∷◌, Option, none, some, map, any, arith, if-elim, Bool-cases,
}
use bonghos.Base.Text.{Text}
use bonghos.Auth.State.{User, RecoveryCode, Identifier, by_user, by_ip, Store, rate_limited}
use bonghos.Auth.Login.{
  Primitives, record_attempt, limited, find_by_name, normalize_username, is_unused_code, code_hash,
  spend, recovery_code_available, consume_recovery_code, totp_ok, LoginResult, accepted, refused,
  record_failure, redeem, login_user, login,
}

-- A marked code is no longer unused, and marking makes no other code unused.
spent-unused :
    (lib : Primitives) (now id : ℕ) (h : String) (cs : List RecoveryCode)
    → any (is_unused_code lib id h) (map (spend lib now id h) cs) ≡ false
spent-unused lib now id h [] = refl
spent-unused lib now id h (c ∷ cs) = ground (arith, spent-unused lib now id h cs)

-- A recovery code that let a login in opens nothing afterwards.
module _ (lib : Primitives) (now : ℕ) where
  attempt-recovery :
      (id : Identifier) (b : Bool) (s : Store)
      → (record_attempt now id b s).recovery_codes ≡ s.recovery_codes
  unfolding record_attempt
  attempt-recovery id b s = refl

  failure-recovery :
      (norm : Text) (ip : String) (s : Store)
      → (record_failure lib now norm ip s).recovery_codes ≡ s.recovery_codes
  unfolding record_failure record_attempt
  failure-recovery norm ip s = refl

  consumed-unavailable :
      (s : Store) (id : ℕ) (code : Text)
      → recovery_code_available lib (consume_recovery_code lib now s id code).0 id code ≡ false
  unfolding recovery_code_available consume_recovery_code
  consumed-unavailable s id code =
      ground (arith, spent-unused lib now id (code_hash lib code) s.recovery_codes)

  available-codes :
      (s t : Store) (id : ℕ) (code : Text)
      → s.recovery_codes ≡ t.recovery_codes
      → recovery_code_available lib s id code ≡ recovery_code_available lib t id code
  unfolding recovery_code_available
  available-codes s t id code e = rw e

module _ (lib : Primitives) (now : ℕ) (between : Store → Store) (username : Text) (password : Text)
    (code : Text) (ip : String) (s : Store) where
  abbrev pub name_limited : Bool
  name_limited = limited now (by_user (normalize_username lib username) ∷ by_ip ip ∷ []) s

  -- How an admitted login proved itself: by a code of the authenticator, or by a recovery code that
  -- was there before and is not there afterwards.
  abbrev SecondFactor : User → Store → Type 0
  SecondFactor u t =
      (totp_ok lib now u code ≡ true)
      ⊎ ((recovery_code_available lib s u.id code ≡ true)
          × (recovery_code_available lib t u.id code ≡ false))

  abbrev pub Judged : Store × LoginResult → Type 0
  Judged (t, accepted u) =
      (find_by_name username s.users ≡ some u)
      × (lib.verify_password password u.password_hash ≡ true)
      × (u.disabled ≡ false)
      × SecondFactor u t
  Judged (t, refused e) = Unit

  redeem-Judged :
      (u : User) (r : Store × Bool)
      → find_by_name username s.users ≡ some u
      → lib.verify_password password u.password_hash ≡ true
      → u.disabled ≡ false
      → recovery_code_available lib s u.id code ≡ true
      → recovery_code_available lib r.0 u.id code ≡ false
      → Judged (redeem lib now (normalize_username lib username) ip u r)
  unfolding redeem
  redeem-Judged u (t, true) f v d a n =
      let same : recovery_code_available lib
            (record_attempt now (by_user (normalize_username lib username)) true t) u.id code
          ≡ false =
        available-codes lib now
          (record_attempt now (by_user (normalize_username lib username)) true t) t u.id code
          (attempt-recovery lib now _ true t)
        ∙ n in
      (f, v, d, inr (a, same))
  redeem-Judged u (t, false) f v d a n = tt

  user-Judged :
      (o : Option User)
      → find_by_name username s.users ≡ o
      → Judged (login_user lib now between (normalize_username lib username) password code ip s o)
  unfolding login_user
  user-Judged none f = tt
  user-Judged (some u) f =
      if-elim Judged
        (not (lib.verify_password password u.password_hash)
          || (not (
                totp_ok lib now u code
                || (not (totp_ok lib now u code) && recovery_code_available lib s u.id code))
              || u.disabled))
        _ _ (λ _. tt)
        λ p.
          if-elim Judged (not (totp_ok lib now u code) && recovery_code_available lib s u.id code) _
            _
            (λ r.
              redeem-Judged u (consume_recovery_code lib now (between s) u.id code) f (ground arith)
                (ground arith) (ground arith) (consumed-unavailable lib now (between s) u.id code))
            (λ r. (f, ground arith, ground arith, inl (ground arith)))

  -- Whoever Login lets in has, under the limit on failures, named an account that is not disabled, given
  -- its password, and either a valid authenticator code or a recovery code; a recovery code that let
  -- a login in is not available afterwards, whatever other requests did in the meantime.
  pub login_sound :
      (t : Store) (u : User)
      → login lib now between username password code ip s ≡ (t, accepted u)
      → (name_limited ≡ false) × Judged (t, accepted u)
  unfolding login
  login_sound t u h = elim (Bool-cases name_limited) [
    | inl l ↦ absurd (
        let e : ◌≡◌ {A = Store × LoginResult} (s, refused rate_limited) (t, accepted u) =
          rw l at h in
        cc)
    | inr l ↦
        let e : login_user lib now between (normalize_username lib username) password code ip s
              (find_by_name username s.users)
            ≡ (t, accepted u) =
          rw l at h in
        (l, subst Judged e (user-Judged (find_by_name username s.users) refl))
  ]
