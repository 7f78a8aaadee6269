-- ===== src/Backup/Tests.antt =====
-- Tests of the backups.
use bonghos.Base.{
  ℕ, ◌+◌, ◌≤◌, ◌≡◌, refl, pos, Bool, true, false, List, [], ◌∷◌, none, some, String, All, In,
  length, arith,
}
use bonghos.Base.Text.{to_lower, trim_space, text_eq, codes}
use bonghos.Paths.Clean.{dir, rel, join_parts, keep_part, render, is_abs, clean}
use bonghos.Paths.RootLaws.{IsBelow}
use bonghos.Backup.Retention.{prune_from, Record, RetentionPolicy, prune}
use bonghos.Backup.RetentionLaws.{IsDeletable, prune_lem, prune_reaches_count}
use bonghos.Backup.Storage.{
  has_prefix, within_path, trim_prefix, logical_storage_path, archive_full_path,
  validate_storage_root, nested, file_system_root, normalize_scope, world_only, scope_wants,
  world_names,
}
use bonghos.Backup.StorageLaws.{validate_storage_root_lem}

abbrev backup : String → Bool → ℕ → Record
backup id protected at = record {
  backup_id = id;
  protected = protected;
  verification_status = "verified";
  created_at = at;
  compressed_size = 10;
}

abbrev three : List Record
three = backup "a" false 1 ∷ backup "b" true 2 ∷ backup "c" false 3 ∷ []

abbrev free : List Record
free = backup "a" false 1 ∷ backup "c" false 3 ∷ []

abbrev keep_one : RetentionPolicy
keep_one = record { max_count = pos 1; max_age_days = pos 0; max_storage_mb = pos 0 }

abbrev works : Record → Bool
works r = false

pruned_test : prune works keep_one 100 three ≡ backup "a" false 1 ∷ backup "c" false 3 ∷ []
unfolding prune prune_from
pruned_test = refl

last_kept : prune works keep_one 100 free ≡ backup "a" false 1 ∷ []
unfolding prune prune_from
last_kept = refl

prune_lem_example :
    All IsDeletable (prune works keep_one 100 three)
    × (All (λ d. In d three) (prune works keep_one 100 three)
        × (length (prune works keep_one 100 three) + 1 ≤ 3))
prune_lem_example = prune_lem works keep_one 100 three (omega arith)

prune_reaches_count_example : 2 ≤ length (prune works keep_one 100 free) + 1
prune_reaches_count_example = prune_reaches_count works keep_one 100 1 free refl (omega arith) (
  record { may = record { unprotected = refl; verified = refl }; works = refl },
  (record { may = record { unprotected = refl; verified = refl }; works = refl }, tt),
)

archive_escape : archive_full_path (codes "/b") (codes "backups/../../etc/passwd") ≡ none
unfolding archive_full_path logical_storage_path text_eq render clean trim_space keep_part
    join_parts trim_prefix
archive_escape = refl

nested_storage : validate_storage_root (codes "/b") (codes "/b/c/") ≡ some nested
unfolding validate_storage_root render clean text_eq join_parts keep_part dir within_path rel
nested_storage = refl

root_storage : validate_storage_root (codes "/b") (codes "/x/..") ≡ some file_system_root
unfolding validate_storage_root render clean text_eq join_parts keep_part dir
root_storage = refl

validate_storage_root_lem_example :
    (is_abs (codes "/b") ≡ true)
    × ((is_abs (codes "/c") ≡ true)
        × ((IsBelow (clean (codes "/b")).parts (clean (codes "/c")).parts → ⊥)
            × (IsBelow (clean (codes "/c")).parts (clean (codes "/b")).parts → ⊥)))
unfolding validate_storage_root render clean text_eq join_parts keep_part dir within_path rel
validate_storage_root_lem_example = validate_storage_root_lem (codes "/b") (codes "/c") refl

scope_alias : normalize_scope (λ c. c) (codes " World ") ≡ some world_only
unfolding normalize_scope text_eq to_lower trim_space
scope_alias = refl

nether : scope_wants world_only (codes "w_nether") (world_names (codes "w") (codes "w")) ≡ true
unfolding scope_wants world_names text_eq has_prefix
nether = refl

settings :
    scope_wants world_only (codes "server.properties") (world_names (codes "w") (codes "v")) ≡ false
unfolding scope_wants world_names text_eq has_prefix
settings = refl
