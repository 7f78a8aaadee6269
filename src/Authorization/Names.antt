-- ===== src/Authorization/Names.antt =====
-- The roles and the names of the permissions of source/internal/authorization/authorization.go.
use bonghos.Base.{String, Bool, ◌||◌, ◌==◌}

abbrev pub Role : Type 0
Role = String

abbrev pub role_owner : Role
role_owner = "owner"

abbrev pub role_admin : Role
role_admin = "admin"

abbrev pub role_member : Role
role_member = "member"

abbrev pub role_viewer : Role
role_viewer = "viewer"

unfoldable pub valid_role : Role → Bool
valid_role r = r == role_owner || (r == role_admin || (r == role_member || r == role_viewer))

abbrev pub Permission : Type 0
Permission = String

abbrev pub perm_server_view : Permission
perm_server_view = "server.view"

abbrev pub perm_performance_view : Permission
perm_performance_view = "server.performance.view"

abbrev pub perm_performance_test : Permission
perm_performance_test = "server.performance.test"

abbrev pub perm_server_start : Permission
perm_server_start = "server.start"

abbrev pub perm_server_stop : Permission
perm_server_stop = "server.stop"

abbrev pub perm_server_restart : Permission
perm_server_restart = "server.restart"

abbrev pub perm_server_force_stop : Permission
perm_server_force_stop = "server.force_stop"

abbrev pub perm_console_view : Permission
perm_console_view = "server.console.view"

abbrev pub perm_console_use : Permission
perm_console_use = "server.console.use"

abbrev pub perm_players_view : Permission
perm_players_view = "server.players.view"

abbrev pub perm_players_manage : Permission
perm_players_manage = "server.players.manage"

abbrev pub perm_files_manage : Permission
perm_files_manage = "server.files.manage"

abbrev pub perm_config_manage : Permission
perm_config_manage = "server.configuration.manage"

abbrev pub perm_icon_manage : Permission
perm_icon_manage = "server.icon.manage"

abbrev pub perm_import_manage : Permission
perm_import_manage = "server.import.manage"

abbrev pub perm_backups_view : Permission
perm_backups_view = "server.backups.view"

abbrev pub perm_backups_create : Permission
perm_backups_create = "server.backups.create"

abbrev pub perm_backups_restore : Permission
perm_backups_restore = "server.backups.restore"

abbrev pub perm_schedules_manage : Permission
perm_schedules_manage = "server.schedules.manage"

abbrev pub perm_activity_view : Permission
perm_activity_view = "activity.view"

abbrev pub perm_users_manage : Permission
perm_users_manage = "users.manage"

abbrev pub perm_roles_manage : Permission
perm_roles_manage = "roles.manage"

abbrev pub perm_playit_manage : Permission
perm_playit_manage = "playit.manage"

abbrev pub perm_bots_manage : Permission
perm_bots_manage = "bots.manage"

abbrev pub perm_host_view : Permission
perm_host_view = "host.view"
