-- ===== src/Roles/Tests.antt =====
-- Tests of the model of source/internal/app/role_permissions.go, and the theorems at concrete inputs.
use bonghos.Base.{
  eq_iff, if◌then◌else◌, ℕ, ◌≡◌, refl, pos, Bool, true, false, ◌⊎◌, List, [], ◌∷◌, none, some, ◌==◌,
  In, arith,
}
use bonghos.Authorization.{
  role_perms, has, contains, permission_assignable_to, permission_info, valid_permission,
  valid_role, role_owner, role_admin, role_viewer, Permission, all_permissions, perm_server_view,
  perm_console_use,
}
use bonghos.Roles.State.{
  supported, enforce_pass, default_state, PermissionMap, assign, cleared, RolePermissionState,
  Database, Statement, enforce, load,
}
use bonghos.Roles.Handler.{
  payload, granted, revoked, same_permissions, can_edit, check_requires, collect, Run, Environment,
  Actor, UpdateRequest, Audit, desired, validate_desired,
}
use bonghos.Roles.Update.{
  authorize, save, write, with_body, transaction, check_revision, row_affected, committed, answer,
  update, saved,
}
use bonghos.Roles.Dependencies.{IsGreatestClosed, enforce_from}
use bonghos.Roles.Effective.{VisitsAll, NoFault, IsCoherent, load-IsCoherent}
use bonghos.Roles.Outcome.{Kept, Written, update-all_or_nothing}
use bonghos.Roles.Success.{owner_update_saves, Reads, update-load}

abbrev no_fault : Statement → Bool
no_fault s = false

abbrev in_order : ℕ → List Permission
in_order n = all_permissions

abbrev quiet_run : Run
quiet_run = record { fault = no_fault; orders = in_order }

abbrev env : Environment
env = record {
  statements = no_fault;
  target_run = quiet_run;
  actor_run = quiet_run;
  payload_run = quiet_run;
}

-- An administrator's profile that lacks what its permission requires.
abbrev stored : List (Permission × Bool)
stored = (perm_console_use, true) ∷ (perm_server_view, true) ∷ []

abbrev db : Database
db = record {
  profiles =
      λ r. if r == role_admin then some (record { customized = true; revision = 3 }) else none;
  grants = λ r. if r == role_admin then stored else [];
  users = (1, role_owner) ∷ (2, role_viewer) ∷ (3, role_admin) ∷ [];
}

abbrev boss : Actor
boss = record { id = 1; role = role_owner }

abbrev request : UpdateRequest
request = record { permissions = perm_server_view ∷ []; revision = pos 0 }

visits : VisitsAll in_order
visits n p i = i

no_faults : NoFault no_fault
no_faults s = refl

abbrev only_view : PermissionMap
only_view = assign cleared perm_server_view true

only_view-key : (p : Permission) → only_view p ≡ true → In p (perm_server_view ∷ [])
only_view-key p h = ground (arith, eq_iff p perm_server_view, h)

enforce_from_example :
    (r : PermissionMap) × (enforce 2 (λ n. perm_server_view ∷ []) only_view ≡ some r)
    × IsGreatestClosed only_view r
enforce_from_example =
    enforce_from (perm_server_view ∷ []) 2 (λ n. perm_server_view ∷ []) only_view only_view-key
      (λ n. only_view-key) (omega arith)

validate_only_view : validate_desired role_viewer (perm_server_view ∷ []) ≡ desired only_view
unfolding validate_desired collect valid_permission permission_info permission_assignable_to
    contains check_requires
validate_only_view = refl

update-all_or_nothing_example :
    Kept db (update env db boss role_viewer (some request))
    ⊎ Written env db boss role_viewer (some request) (update env db boss role_viewer (some request))
update-all_or_nothing_example = update-all_or_nothing env db boss role_viewer (some request)

abbrev viewer_now : RolePermissionState
viewer_now = default_state role_viewer

-- The same request of an Owner through all of the handler.
owner_update_saves_example :
    (update env db boss role_viewer (some request)).db ≡ saved db role_viewer only_view 1
unfolding validate_desired can_edit load default_state same_permissions valid_role all_permissions
    contains has role_perms
owner_update_saves_example =
    owner_update_saves env db boss role_viewer request only_view viewer_now refl refl no_faults refl
      (validate_only_view) refl refl refl

load-IsCoherent_example : IsCoherent role_viewer viewer_now.permissions
unfolding load valid_role
load-IsCoherent_example = load-IsCoherent no_fault in_order db role_viewer viewer_now visits refl

abbrev entry : Audit
entry = record {
  revision = 1;
  granted = granted viewer_now.permissions only_view;
  revoked = revoked viewer_now.permissions only_view;
}

abbrev after : Database
after = (update env db boss role_viewer (some request)).db

update-load_example : Reads role_viewer (some request) db after entry no_fault in_order
unfolding update can_edit valid_role validate_desired collect valid_permission permission_info
    permission_assignable_to check_requires load authorize save same_permissions all_permissions has
    role_perms contains write with_body transaction check_revision default_state row_affected
    committed answer payload enforce enforce_pass supported
update-load_example =
    update-load env db boss role_viewer (some request) entry no_fault in_order refl no_faults visits
