-- ===== src/Auth/Accounts.antt =====
-- Accounts and the guard of the last Owner: countActiveOwners, guardLastOwner, SetRole, SetDisabled,
-- DeleteUser, UserByID and RevokeAllSessions of source/internal/auth/store.go.
use bonghos.Base.{
  ℕ, Bool, true, false, ◌&&◌, ◌||◌, not, List, [], ◌∷◌, Option, none, some, map, ◌==◌, eqb, leb,
  if◌then◌else◌, count_if, filter,
}
use bonghos.Authorization.{Role, role_owner, valid_role}
use bonghos.Auth.State.{User, Session, Store, Error, last_owner, invalid_role, no_rows}

abbrev pub is_active_owner : User → Bool
is_active_owner u = u.role == role_owner && not u.disabled

unfoldable pub count_active_owners : Store → ℕ
count_active_owners s = count_if is_active_owner s.users

-- `SELECT … WHERE id = ?`
unfoldable pub find_user : ℕ → List User → Option User
find_user i [] = none
find_user i (u ∷ us) = let rest = find_user i us in if eqb u.id i then some u else rest

unfoldable pub user_by_id : Store → ℕ → Option User
user_by_id s i = find_user i s.users

-- `UPDATE users SET … WHERE id = ?`
unfoldable pub update_user : ℕ → (User → User) → List User → List User
update_user i f [] = []
update_user i f (u ∷ us) = (if eqb u.id i then f u else u) ∷ update_user i f us

-- guardLastOwner: `none` lets the change go on.
unfoldable pub guard_found : Store → Option User → Option Error
guard_found s none = some no_rows
guard_found s (some u) =
    if not (u.role == role_owner) || u.disabled
    then none
    else if leb (count_active_owners s) 1
    then some last_owner
    else none

unfoldable pub guard_last_owner : Store → ℕ → Option Error
guard_last_owner s i = guard_found s (find_user i s.users)

-- The statements behind the guard.
unfoldable pub write_role : Store → ℕ → Role → Store
write_role s i role = record s { users = update_user i (λ u. record u { role = role }) s.users }

unfoldable pub write_disabled : Store → ℕ → Bool → Store
write_disabled s i disabled = record s {
  users = update_user i (λ u. record u { disabled = disabled }) s.users;
}

-- `ON DELETE CASCADE` takes the user's recovery codes and sessions along.
unfoldable pub erase_user : Store → ℕ → Store
erase_user s i = record s {
  users = filter (λ u. not (eqb u.id i)) s.users;
  recovery_codes = filter (λ c. not (eqb c.user_id i)) s.recovery_codes;
  sessions = filter (λ x. not (eqb x.user_id i)) s.sessions;
}

abbrev pub revoke_of : ℕ → Session → Session
revoke_of i x = if eqb x.user_id i then record x { revoked = true } else x

unfoldable pub revoke_all_sessions : Store → ℕ → Store
revoke_all_sessions s i = record s { sessions = map (revoke_of i) s.sessions }

-- A call that is guarded: on an error nothing is written.
abbrev pub guarded : Option Error → Store → Store → Store × Option Error
guarded none s done = (done, none)
guarded (some e) s done = (s, some e)

unfoldable pub set_role : Store → ℕ → Role → Store × Option Error
set_role s i role =
    if not (valid_role role)
    then (s, some invalid_role)
    else guarded (if not (role == role_owner) then guard_last_owner s i else none) s
        (write_role s i role)

unfoldable pub set_disabled : Store → ℕ → Bool → Store × Option Error
set_disabled s i true =
    guarded (guard_last_owner s i) s (revoke_all_sessions (write_disabled s i true) i)
set_disabled s i false = (write_disabled s i false, none)

unfoldable pub delete_user : Store → ℕ → Store × Option Error
delete_user s i = guarded (guard_last_owner s i) s (erase_user s i)

-- The changes that an administrator can ask for, one complete call after another.
pub data Change : Type 0 where
  role_change : ℕ → Role → Change
  disabled_change : ℕ → Bool → Change
  deletion : ℕ → Change

unfoldable pub apply : Store → Change → Store × Option Error
apply s (role_change i role) = set_role s i role
apply s (disabled_change i disabled) = set_disabled s i disabled
apply s (deletion i) = delete_user s i

unfoldable pub apply_all : Store → List Change → Store
apply_all s [] = s
apply_all s (c ∷ cs) = apply_all (apply s c).0 cs
