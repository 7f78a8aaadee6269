-- ===== src/Auth/SessionLaws.antt =====
-- Which session tokens are honoured: ValidateSession of store.go after the operations that create
-- and revoke sessions.
use bonghos.Base.{
  ℕ, ◌+◌, ◌≡◌, ◌≢◌, refl, ap, ◌∙◌, String, true, false, List, [], ◌∷◌, Option, none, some, map,
  eq_iff, eq_refl, eqb_refl, leb, if◌then◌else◌, arith,
}
use bonghos.Base.Text.{Text, text_eq}
use bonghos.Auth.State.{User, Session, Store, invalid_credentials}
use bonghos.Auth.Accounts.{user_by_id, revoke_all_sessions, revoke_of, write_disabled, set_disabled}
use bonghos.Auth.Login.{Primitives}
use bonghos.Auth.Sessions.{
  find_session, valid, invalid, active_user, session_user, revoke_at, revoke_other, keep_only,
  create_session, validate_session, revoke_session, change_password,
}

-- A change of rows that keeps their ids is seen through a look-up by id.
abbrev map_option : (Session → Session) → Option Session → Option Session
map_option f none = none
map_option f (some x) = some (f x)

find_session-map :
    (f : Session → Session) (id : String) (xs : List Session)
    → ((x : Session) → (f x).id ≡ x.id)
    → find_session id (map f xs) ≡ map_option f (find_session id xs)
unfolding find_session
find_session-map f id [] k = refl
find_session-map f id (x ∷ xs) k = ground (arith, k x, find_session-map f id xs k)

find_session-id :
    (id : String) (xs : List Session) (x : Session) → find_session id xs ≡ some x → x.id ≡ id
unfolding find_session
find_session-id id [] x h = cc
find_session-id id (y ∷ xs) x h = ground (arith, eq_iff y.id id, find_session-id id xs x)

revoked-invalid :
    (now : ℕ) (s : Store) (x : Session)
    → x.revoked ≡ true
    → session_user now s (some x) ≡ invalid invalid_credentials
unfolding session_user
revoked-invalid now s x r = rw r

module _ (lib : Primitives) where
  -- Whatever revokes the row of a token ends its session.
  ended :
      (now : ℕ) (token : Text) (s : Store) (f : Session → Session) (xs : List Session)
      → s.sessions ≡ map f xs
      → ((x : Session) → (f x).id ≡ x.id)
      → ((x : Session) → find_session (lib.hash_token token) xs ≡ some x → (f x).revoked ≡ true)
      → validate_session lib now token s ≡ invalid invalid_credentials
  unfolding validate_session session_user user_by_id
  ended now token s f xs e k r =
      rw (e, find_session-map f (lib.hash_token token) xs k)
        (ended_at (find_session (lib.hash_token token) xs) refl)
    where
      ended_at :
          (o : Option Session)
          → find_session (lib.hash_token token) xs ≡ o
          → (if text_eq token []
              then invalid invalid_credentials
              else session_user now s (map_option f o))
            ≡ invalid invalid_credentials
      ended_at none h = ground arith
      ended_at (some x) h = rw (revoked-invalid now s (f x) (r x h)) (ground arith)

  -- A revoked token is refused at every time.
  pub validate-revoke :
      (now : ℕ) (token : Text) (s : Store)
      → validate_session lib now token (revoke_session lib token s) ≡ invalid invalid_credentials
  unfolding revoke_session
  validate-revoke now token s =
      ended now token (revoke_session lib token s) (revoke_at (lib.hash_token token)) s.sessions
        refl (λ x. ground arith)
        (λ x h. ground (
          arith,
          eq_iff x.id (lib.hash_token token),
          find_session-id (lib.hash_token token) s.sessions x h,
        ))

  -- A password change that succeeds ends each session of the account whose token is another one, and
  -- leaves the session of the token that asked for it as it was.
  pub change_password-sessions :
      (now : ℕ) (user_id : ℕ) (current other new_password : Text) (s t : Store) (x : Session)
      → change_password lib user_id current new_password s ≡ (t, none)
      → find_session (lib.hash_token other) s.sessions ≡ some x
      → x.user_id ≡ user_id
      → lib.hash_token other ≢ lib.hash_token current
      → (validate_session lib now other t ≡ invalid invalid_credentials)
        × (find_session (lib.hash_token current) t.sessions
            ≡ find_session (lib.hash_token current) s.sessions)
  unfolding change_password keep_only
  change_password-sessions now user_id current other new_password s t x h f u n =
      let e : t.sessions ≡ map (revoke_other user_id (lib.hash_token current)) s.sessions =
        ground arith in
      (
        ended now other t (revoke_other user_id (lib.hash_token current)) s.sessions e
            (λ y. ground arith) (λ y g. revoked y g),
        ap (find_session (lib.hash_token current)) e
            ∙ find_session-map (revoke_other user_id (lib.hash_token current))
                (lib.hash_token current) s.sessions (λ y. ground arith)
            ∙ untouched (find_session (lib.hash_token current) s.sessions) refl,
      )
    where
      revoked :
          (y : Session)
          → find_session (lib.hash_token other) s.sessions ≡ some y
          → (revoke_other user_id (lib.hash_token current) y).revoked ≡ true
      revoked y g = ground (
        arith,
        f,
        g,
        u,
        n,
        eq_iff y.id (lib.hash_token current),
        find_session-id (lib.hash_token other) s.sessions y g,
      )

      untouched :
          (o : Option Session)
          → find_session (lib.hash_token current) s.sessions ≡ o
          → map_option (revoke_other user_id (lib.hash_token current)) o ≡ o
      untouched none g = refl
      untouched (some y) g = ground (
        arith,
        eq_iff y.id (lib.hash_token current),
        find_session-id (lib.hash_token current) s.sessions y g,
      )

  -- A session is honoured up to its expiry and not afterwards, as long as its account is there and
  -- not disabled.
  pub validate-create :
      (now later ttl : ℕ) (token : Text) (s : Store) (u : User)
      → text_eq token [] ≡ false
      → user_by_id s u.id ≡ some u
      → u.disabled ≡ false
      → validate_session lib later token (create_session lib now ttl u.id token s)
        ≡ (if leb later (now + ttl) then valid u else invalid invalid_credentials)
  unfolding validate_session create_session find_session session_user active_user user_by_id
  validate-create now later ttl token s u n k d =
      rw (n, eq_refl (lib.hash_token token)) (ground (arith, k, d))

-- Disabling an account that the guard lets be disabled ends all its sessions.
pub disable-sessions :
    (lib : Primitives) (now i : ℕ) (token : Text) (s t : Store) (x : Session)
    → set_disabled s i true ≡ (t, none)
    → find_session (lib.hash_token token) s.sessions ≡ some x
    → x.user_id ≡ i
    → validate_session lib now token t ≡ invalid invalid_credentials
unfolding set_disabled revoke_all_sessions write_disabled
disable-sessions lib now i token s t x h f u =
    ended lib now token t (revoke_of i) s.sessions (ground arith) (λ y. ground arith)
      (λ y g. ground (arith, f, g, u, eqb_refl i))
