-- ===== src/Lib.antt =====
-- Verification library of Bonghos, the manager of a Minecraft server.
--
-- The program is a Go service. Its Web application (source/internal/app) serves accounts with one of
-- four roles; source/internal/authorization holds the permissions that each role has by default and
-- the hierarchy of the roles; the application stores what an Owner or an administrator changed of a
-- role's permissions (source/internal/app/role_permissions.go); source/internal/auth keeps accounts,
-- sessions, invitations and the login; source/internal/supervisor starts the Minecraft process,
-- restarts it, and shares its console between the operators and the program's own polling;
-- source/internal/scheduler runs what was planned through the same process;
-- source/internal/websocket passes the state of all this on to the open pages. Archives that are imported
-- are unpacked by source/internal/files, backups kept and restored by source/internal/backup, and
-- what other packages do for long is recorded, and kept apart by a lock file, in
-- source/internal/operations. Every path that comes from outside goes through
-- source/internal/security, and every request through the wrappers of source/internal/app/http.go.
--
-- Which file models which part:
--   Authorization/Names, Catalog, Rank   source/internal/authorization/authorization.go: the roles and
--                         names; PermissionInfo, PermissionAssignableTo, Has; CanManageUser,
--                         CanInviteRole
--   Authorization/Hierarchy, Authorization/Defaults   theorems on it
--   Roles/State           source/internal/app/role_permissions.go: loadRolePermissionState and
--                         enforcePermissionDependencies, over the two tables of role permissions
--   Roles/Handler         validateDesiredPermissions, permissionChanges, rolePermissionsPayload
--   Roles/Update          handleRolePermissionsUpdate: its early returns and its transaction
--   Roles/Dependencies, Effective, Validate, Saved, Outcome, Success   theorems on them
--   Auth/State            the tables of source/internal/auth/store.go
--   Auth/Accounts         SetRole, SetDisabled, DeleteUser and guardLastOwner
--   Auth/Login            Login, rateLimited, recordAttempt, the recovery codes
--   Auth/Sessions         the sessions, and ChangePassword, ChangeTOTP of account_security.go
--   Auth/Invitations      CreateUser, CreateInvitation, CheckInvitation, ActivateInvitation
--   Auth/Totp             TOTPCode and VerifyTOTP of source/internal/auth/crypto.go
--   Auth/LastOwner, Race, LoginLaws, RateLimit, SessionLaws, InvitationLaws, InvitationRoles,
--   NameLaws              theorems on them
--   Supervisor/Run        source/internal/supervisor/supervisor.go: Run as a step function on the
--                         events that its goroutines see, Stop, Restart, ForceStop
--   Supervisor/History    broadcast, Subscribe and their internal counterparts
--   Supervisor/Suppress   suppressed, sendCommand, SendInternalCommand
--   Supervisor/ConsoleText   source/internal/supervisor/console_text.go: SanitizeLine
--   Supervisor/Console    readConsole, which puts the three together
--   Supervisor/RunLaws, SuppressLaws, ConsoleShows, ConsoleLaws, ConsoleReads   theorems on them
--   Scheduler/Actions     source/internal/scheduler/scheduler.go: runAction
--   Scheduler/Runs        lease, recordRun, execute, RunNow, and what tick does with a due schedule
--   Scheduler/Known, Once, Outcome   theorems on them
--   Scheduler/Times, Cron, Monthly, NextRun   parseHMS, parseHourly, cronField, nextCron and NextRun
--   Scheduler/TimesLaws, CronValues, CronLaws, MonthlyLaws, NextRunLaws, NextRunEnds   theorems on them
--   Hub/Clients           source/internal/websocket/hub.go: readLoop, Broadcast, broadcastDueAt
--   Hub/Laws, Cadence     theorems on them
--   Paths/Clean           Clean, Join, Rel, IsAbs and Dir of Go's path/filepath, as the code uses them
--   Paths/Root, Eval      source/internal/security/security.go: WithinRoot, SafeJoin, EvalWithinRoot;
--                         Manager.resolve of source/internal/files/manager.go
--   Paths/CleanLaws, RootLaws, DirLaws, EvalLaws   theorems on them
--   Archive/Entries, Extract   source/internal/files/archive.go: safeEntryPath, safeSymlink,
--                         writeLimited, extractZip, extractTarStream
--   Archive/Laws, Budget  theorems on them
--   Minecraft/Commands, Properties   source/internal/minecraft/players.go: PlayerCommand;
--                         ReadProperties, WriteProperty, WorldDir
--   Minecraft/CommandLaws, PlayerLaws, PropertyLaws, WriteLaws   theorems on them
--   Operations/Store, Lock   source/internal/operations/operations.go: the table of operations, and the
--                         processes that take the lock file
--   Operations/StoreLaws, LockLaws   theorems on them
--   Backup/Retention, Storage   source/internal/backup: Prune; the paths, storage roots and scopes
--   Backup/RetentionLaws, StorageLaws   theorems on them
--   Instance/Slug         source/internal/instance/instance.go: GenerateSlug, ValidateSlug and the
--                         directories of a slug
--   Instance/SlugLaws, SlugPaths   theorems on them
--   Http/Gate, GateLaws   source/internal/app/http.go: csrfProtect, requireAuth, requirePerm and the like,
--                         over Auth/Sessions and Roles/State
--   ConsolePages/History, Tail   source/internal/app/console_history.go: the kept lines and the page;
--                         tailLines
--   ConsolePages/TailLaws theorems on it
--   Base                  the names and lemmas that all share; Base/Text has texts as code points
--   */Tests               runs at concrete inputs
--
-- How state and operations correspond to the code. A table is a list of rows or a function of its
-- key; a method that writes is a function from the store to the store. What other requests do between
-- two statements of a method is an argument `between` of the model, so a theorem that quantifies over
-- it holds under every interleaving at that point. Statements that may fail are a parameter of the role
-- permission handler and of the scheduler's lease; all others are taken to succeed. The order in which
-- Go visits a map is an argument too. Times are seconds. Argon2, SHA-256, HMAC, base32 and the
-- encryption of secrets are fields of the records `Primitives` and `Mac`; nothing is assumed of them
-- but what a theorem names as its hypothesis. What the executor of the scheduler answers is an argument
-- of each run.
--
-- The file system is the list of the effects that an extraction has, or the answers of
-- filepath.EvalSymlinks, which are an argument. What a zone's clock shows, and a text that time.Parse
-- reads, are arguments of NextRun; its own arithmetic on dates is written out for a zone whose offset does
-- not change. The lock is a world of one file and any number of processes, each at a place of Acquire or
-- its release, and an order of their steps.
--
-- Bounds and fuel. enforce has the fuel 26: each pass that changes something clears one of the 25
-- permissions of the catalog, so the pass after the last one finds nothing to do. The loops of NextRun
-- have 2, 8 and 5 rounds, the search of nextCron one more than the limit counts seconds, the loop of
-- cronField 2 * end + 4, and EvalWithinRoot one more than the path has elements: the theorems listed below
-- show that no loop runs out of it. All other loops are structural. Go's integers are natural numbers where they
-- count rows, lines or seconds; the 64-bit additions of cronField and products of NextRun and Prune keep
-- their wrap-around.
--
-- Not modelled: HTTP, SQL and JSON as such, signals and /proc, the pseudo-terminal, the contents of files;
-- the bots, monitoring, passkeys, Playit, the detection of server packs, downloads, the command line and most
-- handlers of the application, which call the packages above.
mod Base
pub mod Authorization
pub mod Roles
pub mod Auth
pub mod Supervisor
pub mod Scheduler
pub mod Hub
pub mod Paths
pub mod Archive
pub mod Minecraft
pub mod Operations
pub mod Backup
pub mod Instance
pub mod Http
pub mod ConsolePages
