-- ===== src/Auth/Race.antt =====
-- Two demotions at once. guardLastOwner of store.go reads and SetRole then writes, in statements of
-- their own with no transaction round them, so a second request's guard can run in between.
use bonghos.Base.{
  ℕ, ◌+◌, ◌≤◌, ◌≡◌, ◌≢◌, refl, ◌∙◌, Bool, true, false, List, [], ◌∷◌, none, some, ◌==◌, eqb,
  count_if, arith,
}
use bonghos.Authorization.{Role, role_owner}
use bonghos.Auth.State.{User, Store}
use bonghos.Auth.Accounts.{
  is_active_owner, count_active_owners, find_user, update_user, guard_found, guard_last_owner,
  write_role,
}
use bonghos.Auth.LastOwner.{UniqueIds}

abbrev lower : Role → User → User
lower role u = record u { role = role }

-- No row has the id: the statement changes nothing that counts.
demote_absent :
    (i : ℕ) (role : Role) (us : List User)
    → count_if (λ u. eqb u.id i) us ≡ 0
    → count_if is_active_owner (update_user i (lower role) us) ≡ count_if is_active_owner us
unfolding update_user
demote_absent i role [] n = refl
demote_absent i role (u ∷ us) n = ground (arith, demote_absent i role us)

demote_found :
    (i : ℕ) (role : Role) (us : List User) (u : User)
    → (role == role_owner) ≡ false
    → count_if (λ v. eqb v.id i) us ≤ 1
    → find_user i us ≡ some u
    → is_active_owner u ≡ true
    → count_if is_active_owner us ≡ count_if is_active_owner (update_user i (lower role) us) + 1
unfolding find_user update_user
demote_found i role [] u r n e a = cc
demote_found i role (x ∷ us) u r n e a =
    ground (arith, demote_absent i role us, demote_found i role us u)

find_other :
    (i j : ℕ) (role : Role) (us : List User)
    → i ≢ j
    → find_user j (update_user i (lower role) us) ≡ find_user j us
unfolding find_user update_user
find_other i j role [] n = refl
find_other i j role (u ∷ us) n = ground (arith, find_other i j role us n)

ids_kept :
    (i j : ℕ) (role : Role) (us : List User)
    → count_if (λ v. eqb v.id j) (update_user i (lower role) us) ≡ count_if (λ v. eqb v.id j) us
unfolding update_user
ids_kept i j role [] = refl
ids_kept i j role (u ∷ us) = ground (arith, ids_kept i j role us)

-- One of two requests to demote an account: its guard, and later its write.
pub data Step (role : Role) (i : ℕ) : Bool → Store → Bool → Store → Type 0 where
  check : (s : Store) → guard_last_owner s i ≡ none → Step role i false s true s
  demote : (s : Store) → Step role i true s true (write_role s i role)

-- Interleavings of the two requests: which guards have passed, and the store.
pub data Run (role : Role) (i j : ℕ) (s : Store) : Bool → Bool → Store → Type 0 where
  start : Run role i j s false false s
  first :
      {a b c : Bool} {t u : Store}
      → Run role i j s a b t
      → Step role i a t c u
      → Run role i j s c b u
  second :
      {a b c : Bool} {t u : Store}
      → Run role i j s a b t
      → Step role j b t c u
      → Run role i j s a c u

-- An account that counts as an active Owner.
pub record IsOwnerAt (s : Store) (i : ℕ) : Type 0 where
  pub user : User
  pub found : find_user i s.users ≡ some user
  pub active : is_active_owner user ≡ true

guard_of_two :
    (s : Store) (i : ℕ) → count_active_owners s ≡ 2 → IsOwnerAt s i → guard_last_owner s i ≡ none
unfolding guard_last_owner guard_found
guard_of_two s i two o = rw (o.found, guard_found) (ground (arith, o.active, two))

-- With exactly two active Owners, the two requests that demote them can both pass their guards and
-- both write, and then no active Owner is left.
pub two_demotions_race :
    (s : Store) (i j : ℕ) (role : Role)
    → i ≢ j
    → (role == role_owner) ≡ false
    → UniqueIds s.users
    → count_active_owners s ≡ 2
    → IsOwnerAt s i
    → IsOwnerAt s j
    → (t : Store) × Run role i j s true true t × (count_active_owners t ≡ 0)
two_demotions_race s i j role n r unique two oi oj = (
  write_role (write_role s i role) j role,
  second
      (first
        (second (first start (check s (guard_of_two s i two oi)))
          (check s (guard_of_two s j two oj)))
        (demote s))
      (demote (write_role s i role)),
  none_left,
)
  where
    second_unique : count_if (λ v. eqb v.id j) (update_user i (lower role) s.users) ≤ 1
    second_unique = omega (arith, unique j, ids_kept i j role s.users)

    second_found : find_user j (update_user i (lower role) s.users) ≡ some oj.user
    second_found = find_other i j role s.users n ∙ oj.found

    two' : count_if is_active_owner s.users ≡ 2
    two' = unfold count_active_owners in two

    none_left : count_active_owners (write_role (write_role s i role) j role) ≡ 0
    none_left =
        unfold count_active_owners write_role in
        omega (
          arith,
          two',
          demote_found i role s.users oi.user r (unique i) oi.found oi.active,
          demote_found j role (update_user i (lower role) s.users) oj.user r (second_unique)
              second_found oj.active,
        )
