-- ===== src/Backup/RetentionLaws.antt =====
-- Prune of source/internal/backup/backup.go never deletes a protected backup nor the last valid one.
use bonghos.Base.{
  ℕ, ◌+◌, ◌-◌, ◌≤◌, ◌<◌, pos, ◌≡◌, refl, inl, inr, Bool, true, false, ◌||◌, not, List, [], ◌∷◌,
  if-elim, ltb, count_if, length, All, In, Bool-cases, arith,
}
use bonghos.Backup.Retention.{
  Record, RetentionPolicy, is_verified, has_reason, deletable, prune_from, total_size, prune,
}

-- A record that may be deleted.
pub record IsDeletable (r : Record) : Type 0 where
  pub unprotected : r.protected ≡ false
  pub verified : is_verified r ≡ true

deletable-IsDeletable : (valid : ℕ) (r : Record) → deletable valid r ≡ true → IsDeletable r
deletable-IsDeletable valid r h = record {
  unprotected = ground (arith, h);
  verified = ground (arith, h);
}

module _ (fails : Record → Bool) (p : RetentionPolicy) (now : ℕ) where
  -- A record is kept or, if it may be deleted and is not the last valid one, deleted.
  pruned :
      (Q : List Record → Type 0) (valid remaining total : ℕ) (r : Record) (rs : List Record)
      → Q (prune_from fails p now valid remaining total rs)
      → (deletable valid r ≡ true
          → has_reason p now remaining total r ≡ true
          → Q (
              r
              ∷ prune_from fails p now (valid - 1) (remaining - 1) (total - r.compressed_size) rs))
      → Q (prune_from fails p now valid remaining total (r ∷ rs))
  unfolding prune_from
  pruned Q valid remaining total r rs k d =
      if-elim Q (not (has_reason p now remaining total r) || not (deletable valid r)) _ _ (λ _. k)
        λ e. if-elim Q (fails r) _ _ (λ _. k) (λ _. d (ground (arith, e)) (ground (arith, e)))

  prune_from-IsDeletable :
      (valid remaining total : ℕ) (rs : List Record)
      → All IsDeletable (prune_from fails p now valid remaining total rs)
  prune_from-IsDeletable valid remaining total [] = unfold prune_from in tt
  prune_from-IsDeletable valid remaining total (r ∷ rs) =
      pruned (All IsDeletable) valid remaining total r rs
        (prune_from-IsDeletable valid remaining total rs)
        (λ d h. (
          deletable-IsDeletable valid r d,
          prune_from-IsDeletable (valid - 1) (remaining - 1) (total - r.compressed_size) rs,
        ))

  -- Fewer are deleted than are valid.
  prune_from-length :
      (valid remaining total : ℕ) (rs : List Record)
      → 1 ≤ valid
      → length (prune_from fails p now valid remaining total rs) + 1 ≤ valid
  prune_from-length valid remaining total [] h = unfold prune_from in h
  prune_from-length valid remaining total (r ∷ rs) h =
      pruned (λ (ds : List Record). length ds + 1 ≤ valid) valid remaining total r rs
        (prune_from-length valid remaining total rs h)
        (λ d e.
          let v : 2 ≤ valid = ground (arith, d) in
          let l =
            prune_from-length (valid - 1) (remaining - 1) (total - r.compressed_size) rs
              (omega arith) in
          omega arith)

  prune_from-In :
      (valid remaining total : ℕ) (rs : List Record)
      → All (λ d. In d rs) (prune_from fails p now valid remaining total rs)
  prune_from-In valid remaining total [] = unfold prune_from in tt
  prune_from-In valid remaining total (r ∷ rs) =
      pruned (All (λ d. In d (r ∷ rs))) valid remaining total r rs
        (later _ (prune_from-In valid remaining total rs))
        (λ d h. (
          inl refl,
          later _ (prune_from-In (valid - 1) (remaining - 1) (total - r.compressed_size) rs),
        ))
    where
      later : (ds : List Record) → All (λ d. In d rs) ds → All (λ d. In d (r ∷ rs)) ds
      later [] h = tt
      later (d ∷ ds) h = (inr h.0, later ds h.1)

-- When there is a verified backup, Prune deletes, whatever the policy, only records of its list that are
-- verified and not protected, and fewer than there are verified ones.
pub prune_lem :
    (fails : Record → Bool) (p : RetentionPolicy) (now : ℕ) (recs : List Record)
    → 1 ≤ count_if is_verified recs
    → All IsDeletable (prune fails p now recs)
      × (All (λ d. In d recs) (prune fails p now recs)
          × (length (prune fails p now recs) + 1 ≤ count_if is_verified recs))
unfolding prune
prune_lem fails p now recs h = (
  prune_from-IsDeletable fails p now (count_if is_verified recs) (length recs) (total_size recs)
      recs,
  (
    prune_from-In fails p now (count_if is_verified recs) (length recs) (total_size recs) recs,
    prune_from-length fails p now (count_if is_verified recs) (length recs) (total_size recs) recs
        h,
  ),
)

-- A record that nothing keeps from being deleted.
pub record IsFree (fails : Record → Bool) (r : Record) : Type 0 where
  pub may : IsDeletable r
  pub works : fails r ≡ false

module _ (fails : Record → Bool) (p : RetentionPolicy) (now n : ℕ) (limit : p.max_count ≡ pos n)
    (one : 1 ≤ n) where
  one_deleted :
      (k total : ℕ) (r : Record) (rs : List Record)
      → IsFree fails r
      → n < k
      → prune_from fails p now k k total (r ∷ rs)
        ≡ r ∷ prune_from fails p now (k - 1) (k - 1) (total - r.compressed_size) rs
  unfolding prune_from
  one_deleted k total r rs f h =
      let d : deletable k r ≡ true =
        let a = f.may.unprotected in let b = f.may.verified in ground arith in
      let c : has_reason p now k total r ≡ true = rw limit (ground arith) in rw (c, d, f.works) refl

  few_left :
      (k total : ℕ) (rs : List Record)
      → All (IsFree fails) rs
      → k ≤ length rs + n
      → k ≤ length (prune_from fails p now k k total rs) + n
  few_left k total [] f h = unfold prune_from in h
  few_left k total (r ∷ rs) f h = elim (Bool-cases (ltb n k)) [
    | inr e ↦ ground (arith, e)
    | inl e ↦
        let l = few_left (k - 1) (total - r.compressed_size) rs f.1 (omega arith) in
        rw (one_deleted k total r rs f.0 (ground (arith, e)))
          (let g : n < k = ground (arith, e) in omega arith)
  ]

count_if-IsFree :
    (fails : Record → Bool) (rs : List Record)
    → All (IsFree fails) rs
    → count_if is_verified rs ≡ length rs
count_if-IsFree fails [] f = refl
count_if-IsFree fails (r ∷ rs) f = rw (f.0.may.verified, count_if-IsFree fails rs f.1) (omega arith)

-- With a limit on the count, and every backup verified, unprotected and possible to delete, Prune leaves at
-- most as many backups as the limit says.
pub prune_reaches_count :
    (fails : Record → Bool) (p : RetentionPolicy) (now n : ℕ) (recs : List Record)
    → p.max_count ≡ pos n
    → 1 ≤ n
    → All (IsFree fails) recs
    → length recs ≤ length (prune fails p now recs) + n
unfolding prune
prune_reaches_count fails p now n recs limit one f =
    rw (count_if-IsFree fails recs f)
      (few_left fails p now n limit one (length recs) (total_size recs) recs f (omega arith))
