-- ===== src/Roles/Update.antt =====
-- handleRolePermissionsUpdate of source/internal/app/role_permissions.go.
use bonghos.Base.{
  ℕ, ◌+◌, is_negative, equals_nat, Bool, true, false, ◌&&◌, ◌||◌, not, List, [], ◌∷◌, Option, none,
  some, map, ◌==◌, eqb, if◌then◌else◌, any,
}
use bonghos.Authorization.{Role, role_owner, Permission, all_permissions, perm_roles_manage}
use bonghos.Roles.State.{
  PermissionMap, RolePermissionState, Profile, Database, begin, upsert_profile, delete_grants,
  insert_grants, query_users, commit, Loaded, state, failed, load,
}
use bonghos.Roles.Handler.{
  can_edit, Validated, desired, rejected, validate_desired, granted, revoked, same_permissions,
  RolePayload, payload, ok, forbidden, bad_request, conflict, internal_error, Response, Actor,
  UpdateRequest, Environment, refuse,
}

-- `UPDATE … WHERE role=? AND revision=?` and `INSERT … ON CONFLICT(role) DO NOTHING`: whether one
-- row was affected.
unfoldable pub row_affected : Bool → ℕ → Option Profile → Bool
row_affected true revision none = false
row_affected true revision (some profile) = eqb profile.revision revision
row_affected false revision none = true
row_affected false revision (some profile) = false

-- A table with the row of one role replaced.
abbrev pub set_row {ℓ} : {A : Type ℓ} → (Role → A) → Role → A → Role → A
set_row table role row r = if r == role then row else table r

-- The tables after the three writes of the transaction.
unfoldable pub saved : Database → Role → PermissionMap → ℕ → Database
saved db target m revision = record db {
  profiles = set_row db.profiles target (some (record { customized = true; revision = revision }));
  grants = set_row db.grants target (map (λ p. (p, m p)) all_permissions);
}

unfoldable pub users_of : Role → List (ℕ × Role) → List ℕ
users_of target [] = []
users_of target ((id, role) ∷ rest) =
    let others = users_of target rest in if role == target then id ∷ others else others

-- The payload is read after the commit: an error there answers 500 and undoes nothing.
unfoldable pub answer : Response → Option (List RolePayload) → Response
answer r none = record r { status = internal_error }
answer r (some body) = record r { status = ok; body = some body }

-- `samePermissions`: nothing is written.
unfoldable pub unchanged : Environment → Database → Actor → Response
unfolding refuse answer
unchanged env db actor = answer (refuse db ok) (payload env.payload_run db actor.role)

unfoldable pub committed :
    Environment → Database → Actor → Role → RolePermissionState → PermissionMap → Response
unfolding answer saved users_of
committed env db actor target current m =
    let db' = saved db target m (current.revision + 1) in
    answer
      (record {
        db = db';
        status = ok;
        body = none;
        disconnected = users_of target db.users;
        audit = some (record {
          revision = current.revision + 1;
          granted = granted current.permissions m;
          revoked = revoked current.permissions m;
        });
      })
      (payload env.payload_run db' actor.role)

-- From `nextRevision` on.
unfoldable pub write :
    Environment → Database → Actor → Role → RolePermissionState → PermissionMap → Response
unfolding committed refuse
write env db actor target current m =
    if env.statements upsert_profile
    then refuse db internal_error
    else if not (row_affected current.profile_exists current.revision (db.profiles target))
    then refuse db conflict
    else if env.statements delete_grants || env.statements insert_grants
    then refuse db internal_error
    else if env.statements query_users || env.statements commit
    then refuse db internal_error
    else committed env db actor target current m

unfoldable pub save :
    Environment → Database → Actor → Role → RolePermissionState → PermissionMap → Response
unfolding unchanged
save env db actor target current m =
    if same_permissions current.permissions m
    then unchanged env db actor
    else write env db actor target current m

-- `!actorState.Permissions[p] && !current.Permissions[p]` for some desired `p`; the desired keys are
-- the requested ones.
unfoldable pub grants_too_much : RolePermissionState → RolePermissionState → List Permission → Bool
grants_too_much actor_state current requested =
    any (λ p. not (actor_state.permissions p) && not (current.permissions p)) requested

unfoldable pub authorize_delegate :
    Environment
    → Database
    → Actor
    → Role
    → RolePermissionState
    → List Permission
    → PermissionMap
    → Loaded
    → Response
unfolding refuse
authorize_delegate env db actor target current requested m (failed e) = refuse db internal_error
authorize_delegate env db actor target current requested m (state actor_state) =
    if not (actor_state.permissions perm_roles_manage)
    then refuse db forbidden
    else if grants_too_much actor_state current requested
    then refuse db forbidden
    else save env db actor target current m

unfoldable pub authorize :
    Environment
    → Database
    → Actor
    → Role
    → RolePermissionState
    → List Permission
    → PermissionMap
    → Response
unfolding authorize_delegate
authorize env db actor target current requested m =
    if not (actor.role == role_owner)
    then authorize_delegate env db actor target current requested m
        (load env.actor_run.fault env.actor_run.orders db actor.role)
    else save env db actor target current m

unfoldable pub check_revision :
    Environment → Database → Actor → Role → UpdateRequest → PermissionMap → Loaded → Response
unfolding refuse
check_revision env db actor target request m (failed e) = refuse db internal_error
check_revision env db actor target request m (state current) =
    if not (equals_nat request.revision current.revision)
    then refuse db conflict
    else authorize env db actor target current request.permissions m

unfoldable pub transaction :
    Environment → Database → Actor → Role → UpdateRequest → Validated → Response
unfolding refuse check_revision
transaction env db actor target request (rejected e) = refuse db bad_request
transaction env db actor target request (desired m) =
    if env.statements begin
    then refuse db internal_error
    else check_revision env db actor target request m
        (load env.target_run.fault env.target_run.orders db target)

unfoldable pub with_body : Environment → Database → Actor → Role → Option UpdateRequest → Response
unfolding refuse transaction
with_body env db actor target none = refuse db bad_request
with_body env db actor target (some request) =
    if is_negative request.revision
    then refuse db bad_request
    else transaction env db actor target request (validate_desired target request.permissions)

-- `none` is a body that readJSON refuses.
unfoldable pub update : Environment → Database → Actor → Role → Option UpdateRequest → Response
unfolding refuse with_body
update env db actor target body =
    if not (can_edit actor.role target)
    then refuse db forbidden
    else with_body env db actor target body
