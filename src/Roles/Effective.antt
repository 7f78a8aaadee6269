-- ===== src/Roles/Effective.antt =====
-- The permissions that loadRolePermissionState and hasPermission of role_permissions.go answer with.
use bonghos.Base.{
  if-elim, ℕ, ◌≤◌, ◌≡◌, subst, ap, ◌⊎◌, inr, Bool, true, false, ◌&&◌, not, List, [], ◌∷◌, Option,
  none, some, ◌==◌, eq_iff, if◌then◌else◌, In, In-all, count_if, length, arith,
}
use bonghos.Authorization.{
  Role, role_owner, valid_role, Permission, all_permissions, contains, permission_assignable_to,
  valid_permission, has,
}
use bonghos.Authorization.Defaults.{
  length-all_permissions, default_grants_coherent, has-listed, In-all_permissions, assignable-valid,
}
use bonghos.Roles.State.{
  PermissionMap, assign, supported, enforce, overlay, cleared, enforce_fuel, Profile, Database,
  Statement, RolePermissionState, Loaded, state, failed, default_state, customized_state,
  load_profile, load, query_profile, query_grants,
}
use bonghos.Roles.Dependencies.{IsClosed, IsGreatestClosed, enforce_from}

-- Every pass over the map visits every key.
abbrev pub VisitsAll : (ℕ → List Permission) → Type 0
VisitsAll orders = (n : ℕ) (p : Permission) → In p all_permissions → In p (orders n)

-- No statement fails.
abbrev pub NoFault : (Statement → Bool) → Type 0
NoFault fault = (s : Statement) → fault s ≡ false

abbrev Assignable : Role → PermissionMap → Type 0
Assignable role m = (p : Permission) → m p ≡ true → permission_assignable_to p role ≡ true

pub overlay-Assignable :
    (role : Role) (rows : List (Permission × Bool)) (m : PermissionMap)
    → Assignable role m
    → Assignable role (overlay role rows m)
unfolding overlay
overlay-Assignable role [] m a = a
overlay-Assignable role ((p, allowed) ∷ rows) m a =
    overlay-Assignable role rows
      (if valid_permission p && permission_assignable_to p role then assign m p allowed else m)
      (λ q h. ground (arith, eq_iff q p, a q, ap (λ x. permission_assignable_to x role)))

count_if-le-length : (m : PermissionMap) (ks : List Permission) → count_if m ks ≤ length ks
count_if-le-length m [] = omega arith
count_if-le-length m (k ∷ ks) = ground (arith, count_if-le-length m ks)

-- What a customized profile holds: the greatest closed part of the rows that may be assigned.
pub enforce-overlay :
    (role : Role) (orders : ℕ → List Permission) (rows : List (Permission × Bool))
    → VisitsAll orders
    → (r : PermissionMap) × (enforce enforce_fuel orders (overlay role rows cleared) ≡ some r)
      × IsGreatestClosed (overlay role rows cleared) r
enforce-overlay role orders rows v =
    enforce_from all_permissions enforce_fuel orders (overlay role rows cleared) (λ p t. known p t)
      (λ n p t. v n p (known p t))
      (omega (
        arith,
        count_if-le-length (overlay role rows cleared) all_permissions,
        length-all_permissions,
      ))
  where
    known : (p : Permission) → overlay role rows cleared p ≡ true → In p all_permissions
    known p t =
        In-all_permissions p
          (assignable-valid p role (overlay-Assignable role rows cleared (λ q h. cc) p t))

-- What a role's permissions are worth: each is in the catalog, may be assigned to the role, and
-- comes with every permission that it requires.
pub record IsCoherent (role : Role) (m : PermissionMap) : Type 0 where
  pub assignable :
      (p : Permission) → m p ≡ true → (role ≡ role_owner) ⊎ (permission_assignable_to p role ≡ true)
  pub closed : IsClosed m

supported_default :
    (role : Role) (p : Permission)
    → has role p ≡ true
    → supported (default_state role).permissions p ≡ true
unfolding supported default_state
supported_default role p h =
    let (d, e, a, c) = default_grants_coherent role p h in
    rw e (
      In-all (default_state role).permissions d.requires
        (λ q i. rw (has-listed role q (c q i), c q i)))

default-IsCoherent : (role : Role) → IsCoherent role (default_state role).permissions
unfolding default_state
default-IsCoherent role = record {
  assignable = λ p h. (default_grants_coherent role p (held p h)).2;
  closed = λ p h. supported_default role p (held p h);
}
  where
    held : (p : Permission) → (contains all_permissions p && has role p) ≡ true → has role p ≡ true
    held p h = ground arith

customized-IsCoherent :
    (role : Role) (rows : List (Permission × Bool)) (r : PermissionMap)
    → IsGreatestClosed (overlay role rows cleared) r
    → IsCoherent role r
customized-IsCoherent role rows r g = record {
  assignable = λ p h. inr (overlay-Assignable role rows cleared (λ q e. cc) p (g.below p h));
  closed = g.closed;
}

-- A predicate on the state that a load answers with, if it answers with one.
abbrev pub Answers : (RolePermissionState → Type 0) → Loaded → Type 0
Answers P (state s) = P s
Answers P (failed e) = Unit

abbrev Coherently : Role → Loaded → Type 0
Coherently role = Answers (λ s. IsCoherent role s.permissions)

module _ (fault : Statement → Bool) (orders : ℕ → List Permission) (v : VisitsAll orders)
    (db : Database) (role : Role) where
  customized_state-Coherently :
      (profile : Profile)
      → Coherently role (
          customized_state profile
            (enforce enforce_fuel orders (overlay role (db.grants role) cleared)))
  unfolding customized_state
  customized_state-Coherently profile =
      let (r, e, g) = enforce-overlay role orders (db.grants role) v in
      rw e (customized-IsCoherent role (db.grants role) r g)

  load_profile-Coherently :
      (o : Option Profile) → Coherently role (load_profile fault orders db role o)
  unfolding load_profile
  load_profile-Coherently none = default-IsCoherent role
  load_profile-Coherently (some profile) =
      if-elim (Coherently role) (not profile.customized) _ _ (λ _. default-IsCoherent role)
        λ _.
          if-elim (Coherently role) (fault query_grants) _ _ (λ _. tt)
            (λ _. customized_state-Coherently profile)

  load-Coherently : Coherently role (load fault orders db role)
  unfolding load
  load-Coherently =
      if-elim (Coherently role) (role == role_owner) _ _ (λ _. default-IsCoherent role)
        λ _.
          if-elim (Coherently role) (not (valid_role role)) _ _ (λ _. tt)
            λ _.
              if-elim (Coherently role) (fault query_profile) _ _ (λ _. tt)
                (λ _. load_profile-Coherently (db.profiles role))

-- Whatever rows the tables hold, whatever statements fail, and in whatever order each pass visits all
-- permissions: the permissions that loadRolePermissionState answers with are in the catalog, may be
-- assigned to the role unless it is Owner, and come with every permission that they require.
pub load-IsCoherent :
    (fault : Statement → Bool) (orders : ℕ → List Permission) (db : Database) (role : Role)
    (s : RolePermissionState)
    → VisitsAll orders
    → load fault orders db role ≡ state s
    → IsCoherent role s.permissions
load-IsCoherent fault orders db role s v e =
    subst (Coherently role) e (load-Coherently fault orders v db role)
