-- ===== src/Roles/Handler.antt =====
-- validateDesiredPermissions, rolePermissionsPayload and handleRolePermissionsUpdate of
-- source/internal/app/role_permissions.go. The handler's statements run in one transaction, which
-- every early return rolls back; what it answers and leaves behind is a `Response`.
use bonghos.Base.{
  ℕ, ℤ, String, Bool, true, false, ◌&&◌, ◌||◌, not, List, [], ◌∷◌, Option, none, some, ◌==◌,
  if◌then◌else◌, all, filter,
}
use bonghos.Authorization.{
  Role, role_owner, role_admin, role_member, role_viewer, valid_role, Permission,
  PermissionDefinition, all_permissions, permission_info, permission_assignable_to,
  valid_permission,
}
use bonghos.Roles.State.{
  PermissionMap, assign, cleared, Database, Statement, Loaded, state, failed, default_state, load,
  permission_list,
}

-- canEditRolePermissions
unfoldable pub can_edit : Role → Role → Bool
can_edit actor target =
    if target == role_owner || not (valid_role target)
    then false
    else if actor == role_owner
    then true
    else actor == role_admin && (target == role_member || target == role_viewer)

pub data Rejection : Type 0 where
  unknown_permission : Permission → Rejection
  cannot_be_assigned : Permission → Rejection
  missing_requirement : Permission → Rejection

pub data Validated : Type 0 where
  desired : PermissionMap → Validated
  rejected : Rejection → Validated

-- The first loop of validateDesiredPermissions.
unfoldable pub collect : Role → List String → PermissionMap → Validated
collect target [] m = desired m
collect target (p ∷ ps) m =
    if not (valid_permission p)
    then rejected (unknown_permission p)
    else if not (permission_assignable_to p target)
    then rejected (cannot_be_assigned p)
    else collect target ps (assign m p true)

abbrev pub required_by : Option PermissionDefinition → List Permission
required_by none = []
required_by (some d) = d.requires

-- The second loop, over the keys of the map that the first one built. The keys are the requested
-- permissions; the runtime's order among them decides only which rejection is reported.
unfoldable pub check_requires : List Permission → PermissionMap → Validated
check_requires [] m = desired m
check_requires (p ∷ ps) m =
    if all m (required_by (permission_info p))
    then check_requires ps m
    else rejected (missing_requirement p)

then_check : List Permission → Validated → Validated
then_check ps (rejected e) = rejected e
then_check ps (desired m) = check_requires ps m

unfoldable pub validate_desired : Role → List String → Validated
unfolding then_check
validate_desired target requested = then_check requested (collect target requested cleared)

-- permissionChanges
unfoldable pub granted : PermissionMap → PermissionMap → List Permission
granted before after = filter (λ p. not (before p) && after p) all_permissions

unfoldable pub revoked : PermissionMap → PermissionMap → List Permission
revoked before after = filter (λ p. before p && not (after p)) all_permissions

abbrev pub same_bool : Bool → Bool → Bool
same_bool true b = b
same_bool false b = not b

unfoldable pub same_permissions : PermissionMap → PermissionMap → Bool
same_permissions left right = all (λ p. same_bool (left p) (right p)) all_permissions

-- What the environment decides in one call of `load`: failing statements and visiting orders.
pub record Run : Type 0 where
  pub fault : Statement → Bool
  pub orders : ℕ → List Permission

pub record RolePayload : Type 0 where
  pub role : Role
  pub permissions : List Permission
  pub defaults : List Permission
  pub editable : Bool
  pub revision : ℕ
  pub customized : Bool

role_payload : Role → Role → Loaded → List RolePayload → Option (List RolePayload)
role_payload actor role (failed e) rest = none
role_payload actor role (state s) rest = some (
    record {
      role = role;
      permissions = permission_list s;
      defaults = permission_list (default_state role);
      editable = can_edit actor role;
      revision = s.revision;
      customized = s.customized;
    }
    ∷ rest)

payload_of : Run → Database → Role → List Role → Option (List RolePayload)
unfolding role_payload
payload_of run db actor [] = some []
payload_of run db actor (role ∷ roles) = elim (payload_of run db actor roles) [
  | none ↦ none
  | some rest ↦ role_payload actor role (load run.fault run.orders db role) rest
]

-- rolePermissionsPayload; the catalog, which is constant, is left out.
unfoldable pub payload : Run → Database → Role → Option (List RolePayload)
unfolding payload_of
payload run db actor =
    payload_of run db actor (role_owner ∷ role_admin ∷ role_member ∷ role_viewer ∷ [])

pub data Status : Type 0 where
  ok forbidden bad_request conflict internal_error : Status

pub record Audit : Type 0 where
  pub revision : ℕ
  pub granted : List Permission
  pub revoked : List Permission

pub record Response : Type 0 where
  pub db : Database
  pub status : Status
  pub body : Option (List RolePayload)
  pub disconnected : List ℕ
  pub audit : Option Audit

pub record Actor : Type 0 where
  pub id : ℕ
  pub role : Role

pub record UpdateRequest : Type 0 where
  pub permissions : List String
  pub revision : ℤ

-- The environment of one request.
pub record Environment : Type 0 where
  pub statements : Statement → Bool
  pub target_run : Run
  pub actor_run : Run
  pub payload_run : Run

-- An early return: the deferred rollback leaves the tables as they were.
unfoldable pub refuse : Database → Status → Response
refuse db status = record { db = db; status = status; body = none; disconnected = []; audit = none }
