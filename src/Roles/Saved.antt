-- ===== src/Roles/Saved.antt =====
-- What handleRolePermissionsUpdate of role_permissions.go leaves in the tables, and what a later
-- loadRolePermissionState reads from them.
use bonghos.Base.{
  ℕ, ◌≡◌, refl, subst, ap, ◌∙◌, fun_ext, Bool, true, false, ◌&&◌, not, List, [], ◌∷◌, Option, none,
  some, map, ◌==◌, eq_iff, eq_refl, if◌then◌else◌, any, In, arith, String,
}
use bonghos.Authorization.{
  Role, role_owner, valid_role, Permission, all_permissions, permission_assignable_to,
  valid_permission,
}
use bonghos.Authorization.Defaults.{In-all_permissions, assignable-valid}
use bonghos.Roles.State.{
  database_error, invalid_role, default_state, PermissionMap, assign, cleared, RolePermissionState,
  Profile, Database, Statement, state, failed, load, load_profile, customized_state, overlay,
  enforce, enforce_fuel, query_profile, query_grants,
}
use bonghos.Roles.Update.{saved}
use bonghos.Roles.Dependencies.{IsClosed, IsGreatestClosed}
use bonghos.Roles.Effective.{VisitsAll, NoFault, enforce-overlay}
use bonghos.Roles.Validate.{IsAccepted}

-- The rows that the transaction inserts, read back by the loop of loadRolePermissionState.
overlay_rows :
    (target : Role) (m start : PermissionMap) (ks : List Permission) (q : Permission)
    → overlay target (map (λ p. (p, m p)) ks) start q ≡ (
        if any (λ p. q == p) ks && permission_assignable_to q target && valid_permission q
        then m q
        else start q)
unfolding overlay
overlay_rows target m start [] q = refl
overlay_rows target m start (k ∷ ks) q =
    overlay_rows target m
      (if valid_permission k && permission_assignable_to k target
        then assign start k (m k)
        else start)
      ks q
    ∙ ground
        (arith, eq_iff q k, ap m, ap (λ x. permission_assignable_to x target), ap valid_permission)

In-any : (q : Permission) (ks : List Permission) → In q ks → any (λ p. q == p) ks ≡ true
In-any q [] i = absurd i
In-any q (k ∷ ks) i = ground (arith, eq_iff q k, In-any q ks)

overlay-saved :
    (target : Role) (requested : List String) (m : PermissionMap)
    → IsAccepted target requested m
    → overlay target (map (λ p. (p, m p)) all_permissions) cleared ≡ m
overlay-saved target requested m a =
    fun_ext λ q. overlay_rows target m cleared all_permissions q ∙ settle q (m q) refl
  where
    settle :
        (q : Permission) (b : Bool)
        → m q ≡ b
        → (if any (λ p. q == p) all_permissions
              && permission_assignable_to q target
              && valid_permission q
            then m q
            else false)
          ≡ m q
    settle q false e = ground arith
    settle q true e =
        let g = a.assignable q e in
        let v = assignable-valid q target g in
        rw (In-any q all_permissions (In-all_permissions q v), g, v)

greatest-closed_self : (m r : PermissionMap) → IsClosed m → IsGreatestClosed m r → r ≡ m
greatest-closed_self m r c g =
    fun_ext λ p. both (r p) (m p) (g.below p) (g.greatest m c (λ q h. h) p)
  where
    both : (x y : Bool) → (x ≡ true → y ≡ true) → (y ≡ true → x ≡ true) → x ≡ y
    both x y f h = ground (arith, f, h)

abbrev pub saved_state : PermissionMap → ℕ → RolePermissionState
saved_state m revision = record {
  permissions = m;
  revision = revision;
  customized = true;
  profile_exists = true;
}

module _ (db : Database) (target : Role) (m : PermissionMap) (revision : ℕ) where
  abbrev saved_profile : Profile
  saved_profile = record { customized = true; revision = revision }

  profiles-saved : (saved db target m revision).profiles target ≡ some saved_profile
  unfolding saved
  profiles-saved = rw (eq_refl target)

  grants-saved : (saved db target m revision).grants target ≡ map (λ p. (p, m p)) all_permissions
  unfolding saved
  grants-saved = rw (eq_refl target)

  module _ (other : Role) (e : (other == target) ≡ false) where
    profiles-saved_other : (saved db target m revision).profiles other ≡ db.profiles other
    unfolding saved
    profiles-saved_other = rw e

    grants-saved_other : (saved db target m revision).grants other ≡ db.grants other
    unfolding saved
    grants-saved_other = rw e

load_profile-customized :
    (fault : Statement → Bool) (orders : ℕ → List Permission) (db : Database) (role : Role)
    (revision : ℕ) (m r : PermissionMap)
    → fault query_grants ≡ false
    → enforce enforce_fuel orders (overlay role (db.grants role) cleared) ≡ some r
    → load_profile fault orders db role (some (record { customized = true; revision = revision }))
      ≡ state (saved_state r revision)
unfolding load_profile customized_state
load_profile-customized fault orders db role revision m r n e = rw (n, e)

load_profile-grants :
    (fault : Statement → Bool) (orders : ℕ → List Permission) (db db' : Database) (role : Role)
    (o : Option Profile)
    → db.grants role ≡ db'.grants role
    → load_profile fault orders db role o ≡ load_profile fault orders db' role o
unfolding load_profile
load_profile-grants fault orders db db' role none e = refl
load_profile-grants fault orders db db' role (some profile) e = rw e

-- What the transaction saves is what a later load answers with.
pub load-saved :
    (fault : Statement → Bool) (orders : ℕ → List Permission) (db : Database) (target : Role)
    (requested : List String) (m : PermissionMap) (revision : ℕ)
    → NoFault fault
    → VisitsAll orders
    → (target == role_owner) ≡ false
    → valid_role target ≡ true
    → IsAccepted target requested m
    → load fault orders (saved db target m revision) target ≡ state (saved_state m revision)
unfolding load
load-saved fault orders db target requested m revision n v o k a =
    let (r, e, g) = enforce-overlay target orders (map (λ p. (p, m p)) all_permissions) v in
    let same : overlay target (map (λ p. (p, m p)) all_permissions) cleared ≡ m =
      overlay-saved target requested m a in
    let whole : r ≡ m =
      greatest-closed_self m r a.closed (subst (λ x. IsGreatestClosed x r) same g) in
    rw (o, k, n query_profile, profiles-saved db target m revision)
      (load_profile-customized fault orders (saved db target m revision) target revision m r
          (n query_grants) (rw (grants-saved db target m revision) e)
        ∙ ap (λ x. state (saved_state x revision)) whole)

-- The load of another role reads none of the rows that were written.
pub load-saved_other :
    (fault : Statement → Bool) (orders : ℕ → List Permission) (db : Database) (target other : Role)
    (m : PermissionMap) (revision : ℕ)
    → (other == target) ≡ false
    → load fault orders (saved db target m revision) other ≡ load fault orders db other
unfolding load
load-saved_other fault orders db target other m revision e =
    rw (profiles-saved_other db target m revision other e) (
      ap
        (λ x.
          if other == role_owner
          then state (default_state other)
          else if not (valid_role other)
          then failed invalid_role
          else if fault query_profile
          then failed (database_error query_profile)
          else x)
        (load_profile-grants fault orders (saved db target m revision) db other (db.profiles other)
          (grants-saved_other db target m revision other e)))
