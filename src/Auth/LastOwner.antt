-- ===== src/Auth/LastOwner.antt =====
-- At least one active Owner remains: guardLastOwner and its callers in store.go.
use bonghos.Base.{
  ℕ, ◌+◌, ◌≤◌, ◌<◌, ◌≡◌, refl, ◌⊎◌, inl, inr, Bool, true, false, not, List, [], ◌∷◌, Option, none,
  some, ◌==◌, eqb, if◌then◌else◌, count_if, filter, arith, if-elim, Bool-cases,
}
use bonghos.Authorization.{Role, role_owner, valid_role}
use bonghos.Auth.State.{User, Store, Error}
use bonghos.Auth.Accounts.{
  is_active_owner, count_active_owners, find_user, update_user, guard_found, guard_last_owner,
  write_role, write_disabled, erase_user, revoke_all_sessions, guarded, set_role, set_disabled,
  delete_user, Change, role_change, disabled_change, deletion, apply, apply_all,
}

abbrev has_id : ℕ → User → Bool
has_id i u = eqb u.id i

-- The primary key: no two rows of `users` have one id.
abbrev pub UniqueIds : List User → Type 0
UniqueIds us = (i : ℕ) → count_if (has_id i) us ≤ 1

-- A change of the rows with one id loses at most as many active Owners as there are such rows.
count_update :
    (i : ℕ) (f : User → User) (us : List User)
    → count_if is_active_owner us
      ≤ count_if is_active_owner (update_user i f us) + count_if (has_id i) us
unfolding update_user
count_update i f [] = omega arith
count_update i f (u ∷ us) = ground (arith, count_update i f us)

count_erase :
    (i : ℕ) (us : List User)
    → count_if is_active_owner us
      ≤ count_if is_active_owner (filter (λ u. not (eqb u.id i)) us) + count_if (has_id i) us
count_erase i [] = omega arith
count_erase i (u ∷ us) = ground (arith, count_erase i us)

-- If the row that the guard read is no active Owner, then no row with its id is one.
inactive_update :
    (i : ℕ) (f : User → User) (us : List User) (u : User)
    → count_if (has_id i) us ≤ 1
    → find_user i us ≡ some u
    → is_active_owner u ≡ false
    → count_if is_active_owner us ≤ count_if is_active_owner (update_user i f us)
unfolding find_user update_user
inactive_update i f [] u n e a = cc
inactive_update i f (x ∷ us) u n e a = ground (arith, count_update i f us, inactive_update i f us u)

inactive_erase :
    (i : ℕ) (us : List User) (u : User)
    → count_if (has_id i) us ≤ 1
    → find_user i us ≡ some u
    → is_active_owner u ≡ false
    → count_if is_active_owner us ≤ count_if is_active_owner (filter (λ v. not (eqb v.id i)) us)
unfolding find_user
inactive_erase i [] u n e a = cc
inactive_erase i (x ∷ us) u n e a = ground (arith, count_erase i us, inactive_erase i us u)

-- What the guard found when it let the change go on.
guard_passes :
    (s : Store) (i : ℕ)
    → guard_last_owner s i ≡ none
    → (u : User) × (find_user i s.users ≡ some u)
      × ((is_active_owner u ≡ false) ⊎ (1 < count_active_owners s))
unfolding guard_last_owner guard_found
guard_passes s i h = found (find_user i s.users) refl
  where
    found :
        (o : Option User)
        → find_user i s.users ≡ o
        → (u : User) × (find_user i s.users ≡ some u)
          × ((is_active_owner u ≡ false) ⊎ (1 < count_active_owners s))
    found none e = absurd (ground (arith, e))
    found (some u) e = (u, e, ground (arith, e))

-- Behind the guard, a statement that touches only the rows with the id leaves an active Owner.
module _ (s : Store) (i : ℕ) (unique : UniqueIds s.users)
    (passed : guard_last_owner s i ≡ none) where
  guarded_update :
      (f : User → User)
      → 1 ≤ count_active_owners s
      → 1 ≤ count_if is_active_owner (update_user i f s.users)
  unfolding count_active_owners
  guarded_update f h =
      let (u, e, o) = guard_passes s i passed in
      ground (arith, o, e, unique i, count_update i f s.users, inactive_update i f s.users u)

  guarded_erase :
      1 ≤ count_active_owners s
      → 1 ≤ count_if is_active_owner (filter (λ v. not (eqb v.id i)) s.users)
  unfolding count_active_owners
  guarded_erase h =
      let (u, e, o) = guard_passes s i passed in
      ground (arith, o, e, unique i, count_erase i s.users, inactive_erase i s.users u)

-- A change that makes no active Owner inactive.
raising_update :
    (i : ℕ) (f : User → User) (us : List User)
    → ((u : User) → is_active_owner u ≡ true → is_active_owner (f u) ≡ true)
    → count_if is_active_owner us ≤ count_if is_active_owner (update_user i f us)
unfolding update_user
raising_update i f [] r = omega arith
raising_update i f (u ∷ us) r = ground (arith, r u, raising_update i f us r)

ids_update :
    (i j : ℕ) (f : User → User) (us : List User)
    → ((u : User) → (f u).id ≡ u.id)
    → count_if (has_id j) (update_user i f us) ≡ count_if (has_id j) us
unfolding update_user
ids_update i j f [] k = refl
ids_update i j f (u ∷ us) k = ground (arith, k u, ids_update i j f us k)

ids_erase :
    (i j : ℕ) (us : List User)
    → count_if (has_id j) (filter (λ v. not (eqb v.id i)) us) ≤ count_if (has_id j) us
ids_erase i j [] = omega arith
ids_erase i j (u ∷ us) = ground (arith, ids_erase i j us)

-- Someone can administrate, and ids are a key.
pub record IsManaged (s : Store) : Type 0 where
  pub owned : 1 ≤ count_active_owners s
  pub unique : UniqueIds s.users

abbrev Managed : Store × Option Error → Type 0
Managed r = IsManaged r.0

write_role-IsManaged :
    (s : Store) (i : ℕ) (role : Role)
    → IsManaged s
    → (if not (role == role_owner) then guard_last_owner s i else none) ≡ none
    → IsManaged (write_role s i role)
unfolding write_role count_active_owners
write_role-IsManaged s i role m h = record {
  owned = elim (Bool-cases (role == role_owner)) [
    | inl o ↦ omega (
      arith,
      m.owned,
      raising_update i (λ u. record u { role = role }) s.users (λ u a. ground (arith, o)),
    )
    | inr o ↦
        guarded_update s i m.unique (ground (arith, o, h)) (λ u. record u { role = role }) m.owned
  ];
  unique = λ j.
      omega (arith, m.unique j, ids_update i j (λ u. record u { role = role }) s.users (λ u. refl));
}

write_disabled-IsManaged :
    (s : Store) (i : ℕ)
    → IsManaged s
    → guard_last_owner s i ≡ none
    → IsManaged (revoke_all_sessions (write_disabled s i true) i)
unfolding revoke_all_sessions write_disabled count_active_owners
write_disabled-IsManaged s i m h = record {
  owned = guarded_update s i m.unique h (λ u. record u { disabled = true }) m.owned;
  unique = λ j.
      omega
        (arith, m.unique j, ids_update i j (λ u. record u { disabled = true }) s.users (λ u. refl));
}

write_enabled-IsManaged : (s : Store) (i : ℕ) → IsManaged s → IsManaged (write_disabled s i false)
unfolding write_disabled count_active_owners
write_enabled-IsManaged s i m = record {
  owned = omega (
    arith,
    m.owned,
    raising_update i (λ u. record u { disabled = false }) s.users (λ u a. ground arith),
  );
  unique = λ j.
      omega (
        arith,
        m.unique j,
        ids_update i j (λ u. record u { disabled = false }) s.users (λ u. refl),
      );
}

erase_user-IsManaged :
    (s : Store) (i : ℕ) → IsManaged s → guard_last_owner s i ≡ none → IsManaged (erase_user s i)
unfolding erase_user count_active_owners
erase_user-IsManaged s i m h = record {
  owned = guarded_erase s i m.unique h m.owned;
  unique = λ j. omega (arith, m.unique j, ids_erase i j s.users);
}

guarded-IsManaged :
    (o : Option Error) (s done : Store)
    → IsManaged s
    → (o ≡ none → IsManaged done)
    → Managed (guarded o s done)
guarded-IsManaged none s done m k = k refl
guarded-IsManaged (some e) s done m k = m

apply-IsManaged : (s : Store) (c : Change) → IsManaged s → IsManaged (apply s c).0
unfolding apply set_role set_disabled delete_user
apply-IsManaged s (role_change i role) m =
    if-elim Managed (not (valid_role role)) _ _ (λ _. m)
      λ _.
        guarded-IsManaged (if not (role == role_owner) then guard_last_owner s i else none) s
          (write_role s i role) m (write_role-IsManaged s i role m)
apply-IsManaged s (disabled_change i true) m =
    guarded-IsManaged (guard_last_owner s i) s (revoke_all_sessions (write_disabled s i true) i) m
      (write_disabled-IsManaged s i m)
apply-IsManaged s (disabled_change i false) m = write_enabled-IsManaged s i m
apply-IsManaged s (deletion i) m =
    guarded-IsManaged (guard_last_owner s i) s (erase_user s i) m (erase_user-IsManaged s i m)

-- From a store with an active Owner and unique ids, any calls of SetRole, SetDisabled and
-- DeleteUser, one after another, leave an active Owner.
pub apply_all-IsManaged : (s : Store) (cs : List Change) → IsManaged s → IsManaged (apply_all s cs)
unfolding apply_all
apply_all-IsManaged s [] m = m
apply_all-IsManaged s (c ∷ cs) m = apply_all-IsManaged (apply s c).0 cs (apply-IsManaged s c m)
