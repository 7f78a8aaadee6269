-- ===== src/Auth/RateLimit.antt =====
-- How many failed logins are let through in a window: recordAttempt, rateLimited and Login of
-- store.go, for requests that are served one after another.
use bonghos.Base.{
  ℕ, ◌+◌, ◌≤◌, ◌<◌, ◌≡◌, refl, subst, ◌∙◌, inl, inr, String, Bool, true, false, ◌&&◌, ◌||◌, not,
  List, [], ◌∷◌, Option, none, some, ◌==◌, eq_iff, ltb, count_if, filter, arith, if-elim,
  Bool-cases,
}
use bonghos.Base.Text.{Text, text_eq, text_eq_iff}
use bonghos.Auth.State.{User, Identifier, by_user, by_ip, Attempt, Store}
use bonghos.Auth.Login.{
  Primitives, rate_max_fails, day, same_identifier, record_attempt, is_recent_fail, recent_fails,
  limited, find_by_name, normalize_username, recovery_code_available, consume_recovery_code,
  totp_ok, LoginResult, record_failure, redeem, login_user, login,
}

-- What one row adds to the count.
abbrev weight : Bool → ℕ
weight true = 1
weight false = 0

fails_filter :
    (now : ℕ) (id : Identifier) (p : Attempt → Bool) (rows : List Attempt)
    → count_if (is_recent_fail now id) (filter p rows) ≤ count_if (is_recent_fail now id) rows
fails_filter now id p [] = omega arith
fails_filter now id p (a ∷ rows) = ground (arith, fails_filter now id p rows)

-- As time goes on, failures only leave the window.
fails_later :
    (now later : ℕ) (id : Identifier) (rows : List Attempt)
    → now ≤ later
    → count_if (is_recent_fail later id) rows ≤ count_if (is_recent_fail now id) rows
fails_later now later id [] h = omega arith
fails_later now later id (a ∷ rows) h = ground (arith, fails_later now later id rows h)

record_fails :
    (now : ℕ) (id new : Identifier) (b : Bool) (s : Store)
    → recent_fails now id (record_attempt now new b s)
      ≤ weight (same_identifier new id && not b) + recent_fails now id s
unfolding recent_fails record_attempt
record_fails now id new b s = omega (
  arith,
  fails_filter now id (λ a. not (ltb (a.attempted_at + day) now))
      (record { identifier = new; attempted_at = now; success = b } ∷ s.login_attempts),
  head,
)
  where
    head :
        count_if
          (is_recent_fail now id)
          (record { identifier = new; attempted_at = now; success = b } ∷ s.login_attempts)
        ≤ weight (same_identifier new id && not b)
          + count_if (is_recent_fail now id) s.login_attempts
    head = ground arith

weight-le : (x : Bool) → weight x ≤ 1
weight-le true = omega arith
weight-le false = omega arith

weight_no : (x y : Bool) → x ≡ false → weight (x && y) ≡ 0
weight_no x y e = rw e

-- At most `rate_max_fails` failures in the window ending now, for every name and every address.
abbrev pub IsBounded : ℕ → Store → Type 0
IsBounded now s = (id : Identifier) → recent_fails now id s ≤ rate_max_fails

module _ (lib : Primitives) (now : ℕ) (norm : Text) (ip : String) where
  -- Both identifiers are below the limit when Login goes on.
  below_limit :
      (s : Store)
      → limited now (by_user norm ∷ by_ip ip ∷ []) s ≡ false
      → (recent_fails now (by_user norm) s < rate_max_fails)
        × (recent_fails now (by_ip ip) s < rate_max_fails)
  unfolding limited
  below_limit s h = ground arith

  success-IsBounded :
      (s : Store) → IsBounded now s → IsBounded now (record_attempt now (by_user norm) true s)
  success-IsBounded s b id = omega (
    arith,
    b id,
    record_fails now id (by_user norm) true s,
    no_weight (same_identifier (by_user norm) id),
  )
    where
      no_weight : (x : Bool) → weight (x && not true) ≡ 0
      no_weight true = refl
      no_weight false = refl

  failure-IsBounded :
      (s : Store)
      → limited now (by_user norm ∷ by_ip ip ∷ []) s ≡ false
      → IsBounded now s
      → IsBounded now (record_failure lib now norm ip s)
  unfolding record_failure
  failure-IsBounded s l b (by_user name) =
      let first = record_attempt now (by_user norm) false s in
      let outer = record_fails now (by_user name) (by_ip ip) false first in
      let inner = record_fails now (by_user name) (by_user norm) false s in
      let below = (below_limit s l).0 in
      elim (Bool-cases (text_eq norm name)) [
        | inl e ↦
            let bound : recent_fails now (by_user name) s < rate_max_fails =
              subst (λ x. recent_fails now (by_user x) s < rate_max_fails)
                ((text_eq_iff norm name).0 e) below in
            omega (arith, outer, inner, bound, weight-le (text_eq norm name && true))
        | inr e ↦
            omega (arith, outer, inner, b (by_user name), weight_no (text_eq norm name) true e)
      ]
  failure-IsBounded s l b (by_ip address) =
      let first = record_attempt now (by_user norm) false s in
      let outer = record_fails now (by_ip address) (by_ip ip) false first in
      let inner = record_fails now (by_ip address) (by_user norm) false s in
      let below = (below_limit s l).1 in
      elim (Bool-cases (ip == address)) [
        | inl e ↦
            let bound : recent_fails now (by_ip address) s < rate_max_fails =
              subst (λ x. recent_fails now (by_ip x) s < rate_max_fails) ((eq_iff ip address).0 e)
                below in
            omega (arith, outer, inner, bound, weight-le ((ip == address) && true))
        | inr e ↦ omega (arith, outer, inner, b (by_ip address), weight_no (ip == address) true e)
      ]

module _ (lib : Primitives) (now : ℕ) (norm : Text) (ip : String) where
  abbrev Bounded : Store × LoginResult → Type 0
  Bounded r = IsBounded now r.0

  -- The codes that are marked do not touch the attempts.
  same_attempts :
      (s t : Store) → t.login_attempts ≡ s.login_attempts → IsBounded now s → IsBounded now t
  unfolding recent_fails
  same_attempts s t e b id = rw e (b id)

  same_limit :
      (s t : Store) (ids : List Identifier)
      → t.login_attempts ≡ s.login_attempts
      → limited now ids t ≡ limited now ids s
  unfolding limited recent_fails
  same_limit s t ids e = rw e

  redeem-Bounded :
      (s : Store) (u : User) (code : Text) (done : Bool)
      → (t : Store) → t.login_attempts ≡ s.login_attempts
      → limited now (by_user norm ∷ by_ip ip ∷ []) s ≡ false
      → IsBounded now s
      → Bounded (redeem lib now norm ip u (t, done))
  unfolding redeem
  redeem-Bounded s u code true t e l b = success-IsBounded lib now norm ip t (same_attempts s t e b)
  redeem-Bounded s u code false t e l b =
      failure-IsBounded lib now norm ip t (same_limit s t (by_user norm ∷ by_ip ip ∷ []) e ∙ l)
        (same_attempts s t e b)

  consume-attempts :
      (s : Store) (id : ℕ) (code : Text)
      → (consume_recovery_code lib now s id code).0.login_attempts ≡ s.login_attempts
  unfolding consume_recovery_code
  consume-attempts s id code = ground arith

  user-Bounded :
      (password : Text) (code : Text) (s : Store) (o : Option User)
      → limited now (by_user norm ∷ by_ip ip ∷ []) s ≡ false
      → IsBounded now s
      → Bounded (login_user lib now (λ x. x) norm password code ip s o)
  unfolding login_user
  user-Bounded password code s none l b = failure-IsBounded lib now norm ip s l b
  user-Bounded password code s (some u) l b =
      if-elim Bounded
        (not (lib.verify_password password u.password_hash)
          || (not (
                totp_ok lib now u code
                || (not (totp_ok lib now u code) && recovery_code_available lib s u.id code))
              || u.disabled))
        _ _ (λ _. failure-IsBounded lib now norm ip s l b)
        λ _.
          if-elim Bounded (not (totp_ok lib now u code) && recovery_code_available lib s u.id code)
            _ _
            (λ _.
              redeem-Bounded s u code (consume_recovery_code lib now s u.id code).1
                (consume_recovery_code lib now s u.id code).0 (consume-attempts s u.id code) l b)
            (λ _. success-IsBounded lib now norm ip s b)

-- If no name and no address has more than eight failures in the ten minutes before some moment, then
-- none has after a login that is served by itself, right or wrong, at that moment or later.
pub login-IsBounded :
    (lib : Primitives) (now later : ℕ) (username : Text) (password : Text) (code : Text)
    (ip : String) (s : Store)
    → now ≤ later
    → IsBounded now s
    → IsBounded later (login lib later (λ x. x) username password code ip s).0
unfolding login
login-IsBounded lib now later username password code ip s h b =
    if-elim (λ (r : Store × LoginResult). IsBounded later r.0)
      (limited later (by_user (normalize_username lib username) ∷ by_ip ip ∷ []) s) _ _ (λ _. kept)
      λ l.
        user-Bounded lib later (normalize_username lib username) ip password code s
          (find_by_name username s.users) l kept
  where
    bound : (id : Identifier) → count_if (is_recent_fail now id) s.login_attempts ≤ rate_max_fails
    bound id = unfold recent_fails in b id

    kept : IsBounded later s
    kept id =
        unfold recent_fails in omega (arith, fails_later now later id s.login_attempts h, bound id)
