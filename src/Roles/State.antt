-- ===== src/Roles/State.antt =====
-- loadRolePermissionState and enforcePermissionDependencies of
-- source/internal/app/role_permissions.go, over the two tables of migration 0017.
-- A Go `map[Permission]bool` is the function that `m[k]` computes: `false` at an absent key.
use bonghos.Base.{
  ℕ, zero, suc, Bool, true, false, ◌&&◌, ◌||◌, not, List, [], ◌∷◌, Option, none, some, ◌==◌,
  if◌then◌else◌, all, filter,
}
use bonghos.Authorization.{
  Role, role_owner, valid_role, Permission, PermissionDefinition, all_permissions, contains,
  permission_info, permission_assignable_to, valid_permission, has,
}

abbrev pub PermissionMap : Type 0
PermissionMap = Permission → Bool

-- `m[p] = b`
abbrev pub assign : PermissionMap → Permission → Bool → PermissionMap
assign m p b q = if q == p then b else m q

pub record RolePermissionState : Type 0 where
  pub permissions : PermissionMap
  pub revision : ℕ
  pub customized : Bool
  pub profile_exists : Bool

-- A row of `role_permission_profiles`; the columns that only a person reads are left out.
pub record Profile : Type 0 where
  pub customized : Bool
  pub revision : ℕ

-- The tables `role_permission_profiles` (its primary key is the role) and `role_permissions` (the
-- rows of a role in the order of the query), and the pairs (id, role) of `users`.
pub record Database : Type 0 where
  pub profiles : Role → Option Profile
  pub grants : Role → List (Permission × Bool)
  pub users : List (ℕ × Role)

-- The statements that can fail for a reason that the database alone knows.
pub data Statement : Type 0 where
  begin query_profile query_grants upsert_profile delete_grants insert_grants query_users commit :
      Statement

pub data LoadError : Type 0 where
  invalid_role : LoadError
  out_of_fuel : LoadError
  database_error : Statement → LoadError

pub data Loaded : Type 0 where
  state : RolePermissionState → Loaded
  failed : LoadError → Loaded

-- defaultRolePermissionState: the map has a key for each permission of the catalog.
unfoldable pub default_state : Role → RolePermissionState
default_state role = record {
  permissions = λ p. contains all_permissions p && has role p;
  revision = 0;
  customized = false;
  profile_exists = false;
}

-- `definition.Requires` all hold; a permission outside the catalog is not supported.
abbrev pub all_hold : PermissionMap → Option PermissionDefinition → Bool
all_hold m none = false
all_hold m (some d) = all m d.requires

unfoldable pub supported : PermissionMap → Permission → Bool
supported m p = all_hold m (permission_info p)

-- One pass of `for permission, allowed := range permissions`, along the order in which the runtime
-- happens to visit the keys. A key that is cleared is seen cleared by the rest of the pass.
unfoldable pub enforce_pass : List Permission → PermissionMap → Bool → PermissionMap × Bool
enforce_pass [] m changed = (m, changed)
enforce_pass (p ∷ ps) m changed =
    let dropped = m p && not (supported m p) in
    enforce_pass ps (if dropped then assign m p false else m) (changed || dropped)

-- enforcePermissionDependencies: `orders n` is the order of pass n; `none` is fuel used up.
unfoldable pub enforce : ℕ → (ℕ → List Permission) → PermissionMap → Option PermissionMap
enforce zero orders m = none
enforce (suc fuel) orders m =
    let pass = enforce_pass (orders 0) m false in
    let rest = enforce fuel (λ n. orders (suc n)) pass.0 in if pass.1 then rest else some pass.0

-- The loop over the rows of `role_permissions`.
unfoldable pub overlay : Role → List (Permission × Bool) → PermissionMap → PermissionMap
overlay role [] m = m
overlay role ((p, allowed) ∷ rows) m =
    overlay role rows
      (if valid_permission p && permission_assignable_to p role then assign m p allowed else m)

abbrev pub cleared : PermissionMap
cleared p = false

-- A pass that changes something drops one of the 25 permissions, so 26 passes are enough.
abbrev pub enforce_fuel : ℕ
enforce_fuel = 26

unfoldable pub customized_state : Profile → Option PermissionMap → Loaded
customized_state profile none = failed out_of_fuel
customized_state profile (some m) = state (record {
  permissions = m;
  revision = profile.revision;
  customized = true;
  profile_exists = true;
})

-- The part of loadRolePermissionState behind the query for the profile.
unfoldable pub load_profile :
    (Statement → Bool) → (ℕ → List Permission) → Database → Role → Option Profile → Loaded
unfolding default_state overlay customized_state
load_profile fault orders db role none = state (default_state role)
load_profile fault orders db role (some profile) =
    if not profile.customized
    then state (record (default_state role) { revision = profile.revision; profile_exists = true })
    else if fault query_grants
    then failed (database_error query_grants)
    else customized_state profile
        (enforce enforce_fuel orders (overlay role (db.grants role) cleared))

-- loadRolePermissionState
unfoldable pub load : (Statement → Bool) → (ℕ → List Permission) → Database → Role → Loaded
unfolding load_profile
load fault orders db role =
    if role == role_owner
    then state (default_state role)
    else if not (valid_role role)
    then failed invalid_role
    else if fault query_profile
    then failed (database_error query_profile)
    else load_profile fault orders db role (db.profiles role)

-- permissionList
unfoldable pub permission_list : RolePermissionState → List Permission
permission_list s = filter s.permissions all_permissions

-- hasPermission
unfoldable pub has_permission :
    (Statement → Bool) → (ℕ → List Permission) → Database → Role → Permission → Bool
has_permission fault orders db role p =
    valid_permission p
    && (elim (load fault orders db role) [ failed e ↦ false | state s ↦ s.permissions p ])
