-- ===== src/Backup/Storage.antt =====
-- The paths and scopes of the backups: storageRoot, logicalStoragePath, archiveFullPath, scopeWants,
-- NormalizeScope and worldNames of source/internal/backup/backup.go, and ValidateStorageRoot of storage.go.
use bonghos.Base.{
  ℕ, Bool, true, false, ◌&&◌, ◌||◌, not, List, [], ◌∷◌, ◌++◌, Option, none, some, if◌then◌else◌,
  eqb, any,
}
use bonghos.Base.Text.{Text, text_eq, codes, trim_space, to_lower}
use bonghos.Paths.Clean.{is_abs, clean, render, join, rel, is_climbing, dir}
use bonghos.Paths.Root.{safe_join}

-- strings.HasPrefix
unfoldable pub has_prefix : Text → Text → Bool
has_prefix t [] = true
has_prefix [] (p ∷ ps) = false
has_prefix (c ∷ t) (p ∷ ps) = eqb c p && has_prefix t ps

-- strings.HasSuffix
unfoldable pub has_suffix : Text → Text → Bool
has_suffix [] s = text_eq [] s
has_suffix (c ∷ t) s = text_eq (c ∷ t) s || has_suffix t s

-- strings.TrimPrefix
unfoldable pub trim_prefix : Text → Text → Option Text
trim_prefix t [] = some t
trim_prefix [] (p ∷ ps) = none
trim_prefix (c ∷ t) (p ∷ ps) = let rest = trim_prefix t ps in if eqb c p then rest else none

abbrev pub dir_backups : Text
dir_backups = codes "backups"

unfoldable pub storage_root : Text → Text → Text
storage_root home root =
    if not (text_eq (trim_space root) [])
    then render (clean root)
    else join (home ∷ dir_backups ∷ [])

-- logicalStoragePath; `none` is its error.
unfoldable pub logical_storage_path : Text → Option Text
logical_storage_path path =
    let cleaned = render (clean (trim_space path)) in
    if text_eq cleaned dir_backups then some (codes ".") else trim_prefix cleaned (codes "backups/")

abbrev pub joined : Text → Option Text → Option Text
joined root none = none
joined root (some p) = safe_join root (p ∷ [])

unfoldable pub archive_full_path : Text → Text → Option Text
archive_full_path root path = joined root (logical_storage_path path)

-- The elements of a relative path that leads to another place below.
abbrev pub leads_below : Option (List Text) → Bool
leads_below none = false
leads_below (some []) = false
leads_below (some (w ∷ ws)) = not (is_climbing (w ∷ ws))

-- withinPath
unfoldable pub within_path : Text → Text → Bool
within_path root candidate = leads_below (rel root candidate)

pub data StorageError : Type 0 where
  not_absolute same_place file_system_root nested : StorageError

-- ValidateStorageRoot
unfoldable pub validate_storage_root : Text → Text → Option StorageError
validate_storage_root current target =
    let c = render (clean current) in
    let t = render (clean target) in
    if not (is_abs c) || not (is_abs t)
    then some not_absolute
    else if text_eq c t
    then some same_place
    else if text_eq (dir c) c || text_eq (dir t) t
    then some file_system_root
    else if within_path c t || within_path t c
    then some nested
    else none

pub data Scope : Type 0 where
  full_server world_only configuration_only : Scope

abbrev pub is_one_of : Text → List Text → Bool
is_one_of name names = any (λ n. text_eq name n) names

-- NormalizeScope
unfoldable pub normalize_scope : (ℕ → ℕ) → Text → Option Scope
normalize_scope beyond scope =
    let s = to_lower beyond (trim_space scope) in
    if is_one_of s ([] ∷ codes "full" ∷ codes "full_server" ∷ codes "all" ∷ [])
    then some full_server
    else if is_one_of s (codes "world" ∷ codes "world_only" ∷ codes "world_and_player_data" ∷ [])
    then some world_only
    else if is_one_of s (codes "config" ∷ codes "configuration" ∷ codes "configuration_only" ∷ [])
    then some configuration_only
    else none

abbrev pub is_world : Text → Text → Bool
is_world name w = text_eq name w || has_prefix name (w ++ b'_' ∷ [])

-- scopeWants
unfoldable pub scope_wants : Scope → Text → List Text → Bool
scope_wants world_only name worlds =
    any (is_world name) worlds
    || is_one_of name
        (codes "playerdata" ∷ codes "stats" ∷ codes "advancements" ∷ codes "usercache.json" ∷ [])
scope_wants configuration_only name worlds =
    is_one_of name (
      codes "server.properties"
      ∷ codes "eula.txt"
      ∷ codes "ops.json"
      ∷ codes "whitelist.json"
      ∷ codes "banned-players.json"
      ∷ codes "banned-ips.json"
      ∷ codes "server-icon.png"
      ∷ codes "user_jvm_args.txt"
      ∷ codes "config"
      ∷ codes "defaultconfigs"
      ∷ codes "kubejs"
      ∷ codes "scripts"
      ∷ [])
    || (has_suffix name (codes ".sh")
        || (has_suffix name (codes ".txt")
            || (has_suffix name (codes ".cfg") || has_suffix name (codes ".toml"))))
scope_wants full_server name worlds = true

abbrev pub add_world : Text → List Text → List Text
add_world name seen =
    if not (text_eq name []) && not (is_one_of name seen) then seen ++ name ∷ [] else seen

-- worldNames, of the two names that the properties give.
unfoldable pub world_names : Text → Text → List Text
world_names archive live = add_world (codes "world") (add_world live (add_world archive []))
