-- ===== src/Backup/Retention.antt =====
-- Which backups the retention policy deletes: Prune of source/internal/backup/backup.go. Times are seconds.
use bonghos.Base.{
  ℕ, ◌+◌, ◌-◌, ◌*◌, ◌%◌, ◌^◌, Bool, true, false, ◌&&◌, ◌||◌, not, List, [], ◌∷◌, if◌then◌else◌, ltb,
  count_if, length, String, ◌==◌, ℤ, pos, negsuc,
}

pub record Record : Type 0 where
  pub backup_id : String
  pub protected : Bool
  pub verification_status : String
  pub created_at : ℕ
  pub compressed_size : ℕ

pub record RetentionPolicy : Type 0 where
  pub max_count : ℤ
  pub max_age_days : ℤ
  pub max_storage_mb : ℤ

abbrev pub is_verified : Record → Bool
is_verified r = r.verification_status == "verified"

abbrev pub too_old : ℕ → ℤ → Record → Bool
too_old now (pos days) r = ltb 0 days && ltb (r.created_at + days * 86400) now
too_old now (negsuc days) r = false

abbrev pub too_many : ℤ → ℕ → Bool
too_many (pos n) remaining = ltb 0 n && ltb n remaining
too_many (negsuc n) remaining = false

-- `totalBytes > p.MaxStorageMB<<20`, of 64-bit integers
abbrev pub exceeds : ℕ → ℕ → Bool
exceeds shifted total = if ltb shifted (2 ^ 63) then ltb shifted total else true

abbrev pub too_large : ℤ → ℕ → Bool
too_large (pos mb) total = ltb 0 mb && exceeds ((mb * 2 ^ 20) % 2 ^ 64) total
too_large (negsuc mb) total = false

-- There is a reason to delete the record.
abbrev pub has_reason : RetentionPolicy → ℕ → ℕ → ℕ → Record → Bool
has_reason p now remaining total r =
    too_old now p.max_age_days r
    || (too_many p.max_count remaining || too_large p.max_storage_mb total)

abbrev pub deletable : ℕ → Record → Bool
deletable valid r = not (r.protected || not (is_verified r)) && ltb 1 valid

-- The loop over the records; `fails` are those that Delete cannot delete. The result are the deleted ones.
unfoldable pub prune_from :
    (Record → Bool) → RetentionPolicy → ℕ → ℕ → ℕ → ℕ → List Record → List Record
prune_from fails p now valid remaining total [] = []
prune_from fails p now valid remaining total (r ∷ rs) =
    let kept = prune_from fails p now valid remaining total rs in
    let deleted =
      r ∷ prune_from fails p now (valid - 1) (remaining - 1) (total - r.compressed_size) rs in
    if not (has_reason p now remaining total r) || not (deletable valid r)
    then kept
    else if fails r
    then kept
    else deleted

unfoldable pub total_size : List Record → ℕ
total_size [] = 0
total_size (r ∷ rs) = r.compressed_size + total_size rs

-- Prune, on the records sorted from the oldest to the newest.
unfoldable pub prune : (Record → Bool) → RetentionPolicy → ℕ → List Record → List Record
unfolding total_size
prune fails p now recs =
    prune_from fails p now (count_if is_verified recs) (length recs) (total_size recs) recs
