-- ===== src/Authorization/Catalog.antt =====
-- The catalog of permissions of source/internal/authorization/authorization.go, and its lookups.
use bonghos.Base.{
  String, Bool, true, false, List, [], ◌∷◌, Option, none, some, map, ◌==◌, if◌then◌else◌, any,
  filter,
}
use bonghos.Authorization.Names.{
  Role, role_owner, role_admin, role_member, role_viewer, Permission, perm_server_view,
  perm_performance_view, perm_performance_test, perm_server_start, perm_server_stop,
  perm_server_restart, perm_server_force_stop, perm_console_view, perm_console_use,
  perm_players_view, perm_players_manage, perm_files_manage, perm_config_manage, perm_icon_manage,
  perm_import_manage, perm_backups_view, perm_backups_create, perm_backups_restore,
  perm_schedules_manage, perm_activity_view, perm_users_manage, perm_roles_manage,
  perm_playit_manage, perm_bots_manage, perm_host_view,
}

pub record PermissionDefinition : Type 0 where
  pub id : Permission
  pub group : String
  pub label : String
  pub description : String
  pub requires : List Permission
  pub assignable_to : List Role

abbrev view_assignable_roles : List Role
view_assignable_roles = role_admin ∷ role_member ∷ role_viewer ∷ []

abbrev action_assignable_roles : List Role
action_assignable_roles = role_admin ∷ role_member ∷ []

-- One row of the catalog literal.
abbrev definition :
    Permission → String → String → String → List Permission → List Role → PermissionDefinition
definition id group label description requires assignable_to = record {
  id = id;
  group = group;
  label = label;
  description = description;
  requires = requires;
  assignable_to = assignable_to;
}

unfoldable pub permission_catalog : List PermissionDefinition
permission_catalog =
    definition perm_server_view "Access" "View server" "See Overview, Servers, and live status." []
      view_assignable_roles
    ∷ definition perm_performance_view "Access" "View performance"
        "Open machine and Java performance telemetry." (perm_server_view ∷ []) view_assignable_roles
    ∷ definition perm_performance_test "Access" "Test internet speed"
        "Run a manual bandwidth test that can temporarily affect connected players."
        (perm_performance_view ∷ []) action_assignable_roles
    ∷ definition perm_server_start "Lifecycle" "Start server" "Start the active Minecraft server."
        (perm_server_view ∷ []) action_assignable_roles
    ∷ definition perm_server_stop "Lifecycle" "Stop server" "Request a clean server shutdown."
        (perm_server_view ∷ []) action_assignable_roles
    ∷ definition perm_server_restart "Lifecycle" "Restart server"
        "Stop and start the active server." (perm_server_view ∷ []) action_assignable_roles
    ∷ definition perm_server_force_stop "Lifecycle" "Force stop server"
        "Immediately terminate a stuck server process." (perm_server_view ∷ [])
        action_assignable_roles
    ∷ definition perm_console_view "Console and players" "View console"
        "Read server console output." (perm_server_view ∷ []) view_assignable_roles
    ∷ definition perm_console_use "Console and players" "Use console"
        "Send unrestricted Minecraft server commands." (perm_console_view ∷ [])
        action_assignable_roles
    ∷ definition perm_players_view "Console and players" "View players"
        "See online and known players." (perm_server_view ∷ []) view_assignable_roles
    ∷ definition perm_players_manage "Console and players" "Manage players"
        "Kick, ban, whitelist, or grant operator access to players." (perm_players_view ∷ [])
        action_assignable_roles
    ∷ definition perm_files_manage "Server files and configuration" "Manage files"
        "Read, upload, edit, move, and delete project files." (perm_server_view ∷ [])
        action_assignable_roles
    ∷ definition perm_config_manage "Server files and configuration" "Manage configuration"
        "Change launch settings and server properties." (perm_server_view ∷ [])
        action_assignable_roles
    ∷ definition perm_icon_manage "Server files and configuration" "Manage server icons"
        "Upload or remove project icons." (perm_server_view ∷ []) action_assignable_roles
    ∷ definition perm_import_manage "Server files and configuration" "Manage projects"
        "Import, duplicate, reset, or delete server projects." (perm_server_view ∷ [])
        action_assignable_roles
    ∷ definition perm_backups_view "Backups and automation" "View backups"
        "See backups and their storage location." (perm_server_view ∷ []) view_assignable_roles
    ∷ definition perm_backups_create "Backups and automation" "Manage backups"
        "Create, verify, protect, and delete backups." (perm_backups_view ∷ [])
        action_assignable_roles
    ∷ definition perm_backups_restore "Backups and automation" "Restore backups"
        "Replace server data from a backup." (perm_backups_view ∷ []) action_assignable_roles
    ∷ definition perm_schedules_manage "Backups and automation" "Manage schedules"
        "Create and run lifecycle, console, and backup automation."
        (perm_server_view ∷ perm_server_start ∷ perm_server_stop ∷ perm_server_restart
          ∷ perm_console_use ∷ perm_backups_create ∷ [])
        action_assignable_roles
    ∷ definition perm_activity_view "People and integrations" "View activity"
        "Review account and server administration history." [] view_assignable_roles
    ∷ definition perm_users_manage "People and integrations" "Manage users"
        "Invite users and manage lower-role accounts and sessions." []
        (role_admin ∷ role_member ∷ [])
    ∷ definition perm_roles_manage "People and integrations" "Manage role permissions"
        "Configure permissions for lower roles." [] (role_admin ∷ [])
    ∷ definition perm_playit_manage "People and integrations" "Manage Playit.gg"
        "Configure the public Minecraft tunnel and Playit agent." (perm_server_view ∷ [])
        (role_admin ∷ [])
    ∷ definition perm_bots_manage "People and integrations" "Manage notification bots"
        "Configure Discord and Telegram bots." (perm_server_view ∷ []) action_assignable_roles
    ∷ definition perm_host_view "System" "View host"
        "See Bonghos installation, listener, and service details." [] view_assignable_roles
    ∷ []

-- AllPermissions: the loop appends the identifiers in the order of the catalog.
unfoldable pub all_permissions : List Permission
unfolding permission_catalog
all_permissions = map (λ d. d.id) permission_catalog

abbrev admin_perms : List Permission
admin_perms =
    perm_server_view ∷ perm_performance_view ∷ perm_performance_test ∷ perm_server_start
    ∷ perm_server_stop ∷ perm_server_restart ∷ perm_server_force_stop ∷ perm_console_view
    ∷ perm_console_use ∷ perm_players_view ∷ perm_players_manage ∷ perm_files_manage
    ∷ perm_config_manage ∷ perm_icon_manage ∷ perm_import_manage ∷ perm_backups_view
    ∷ perm_backups_create ∷ perm_backups_restore ∷ perm_schedules_manage ∷ perm_activity_view
    ∷ perm_users_manage ∷ perm_bots_manage ∷ perm_host_view ∷ []

abbrev member_perms : List Permission
member_perms =
    perm_server_view ∷ perm_server_start ∷ perm_server_stop ∷ perm_server_restart
    ∷ perm_players_view ∷ []

abbrev viewer_perms : List Permission
viewer_perms = perm_server_view ∷ perm_players_view ∷ perm_console_view ∷ []

-- rolePerms: an unknown role has no entry, and the nil map answers `false` for every key.
unfoldable pub role_perms : Role → List Permission
unfolding all_permissions
role_perms r =
    if r == role_owner
    then all_permissions
    else if r == role_admin
    then admin_perms
    else if r == role_member
    then member_perms
    else if r == role_viewer
    then viewer_perms
    else []

unfoldable pub contains : List String → String → Bool
contains xs a = any (λ x. x == a) xs

-- The loop of PermissionInfo: the first definition with the identifier.
unfoldable pub find_definition :
    Permission → List PermissionDefinition → Option PermissionDefinition
find_definition p [] = none
find_definition p (d ∷ ds) = let rest = find_definition p ds in if d.id == p then some d else rest

unfoldable pub permission_info : Permission → Option PermissionDefinition
unfolding permission_catalog find_definition
permission_info p = find_definition p permission_catalog

unfoldable pub permission_assignable_to : Permission → Role → Bool
permission_assignable_to p role = elim (permission_info p) [
  | none ↦ false
  | some d ↦ contains d.assignable_to role
]

unfoldable pub valid_permission : Permission → Bool
valid_permission p = elim (permission_info p) [ none ↦ false | some d ↦ true ]

unfoldable pub has : Role → Permission → Bool
has role p = contains (role_perms role) p

unfoldable pub permissions : Role → List Permission
permissions role = filter (has role) all_permissions
