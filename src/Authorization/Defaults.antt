-- ===== src/Authorization/Defaults.antt =====
-- The shipped role defaults against the permission catalog: `rolePerms` and `permissionCatalog` of
-- authorization.go.
use bonghos.Base.{
  length, String, ◌≡◌, refl, sym, subst, ◌⊎◌, inl, inr, Bool, true, false, ◌||◌, Option, none, some,
  arith, ◌==◌, eq_iff, List, [], ◌∷◌, all, In, all-In, Bool-cases, Option-cases, map,
}
use bonghos.Authorization.Names.{Role, role_owner, role_admin, role_member, role_viewer, Permission}
use bonghos.Authorization.Catalog.{
  permission_catalog, all_permissions, find_definition, valid_permission, PermissionDefinition,
  role_perms, contains, permission_info, permission_assignable_to, has,
}

pub contains→In : (xs : List String) (a : String) → contains xs a ≡ true → In a xs
unfolding contains
contains→In [] a h = cc
contains→In (x ∷ xs) a h = ground (arith, eq_iff x a, contains→In xs a)

pub In→contains : (xs : List String) (a : String) → In a xs → contains xs a ≡ true
unfolding contains
In→contains [] a h = absurd h
In→contains (x ∷ xs) a h = ground (arith, eq_iff x a, In→contains xs a)

-- A default grant is recognised and has every permission that it requires.
grant_closed : Role → Permission → Bool
unfolding permission_info has
grant_closed r p = elim (permission_info p) [ none ↦ false | some d ↦ all (has r) d.requires ]

grant_assignable : Role → Permission → Bool
grant_assignable r p = r == role_owner || permission_assignable_to p r

-- A role is one of the four, or it has no default grant.
data RoleKind (r : Role) : Type 0 where
  owner_kind : r ≡ role_owner → RoleKind r
  admin_kind : r ≡ role_admin → RoleKind r
  member_kind : r ≡ role_member → RoleKind r
  viewer_kind : r ≡ role_viewer → RoleKind r
  no_kind : role_perms r ≡ [] → RoleKind r

no_row :
    (r : Role)
    → (r == role_owner) ≡ false
    → (r == role_admin) ≡ false
    → (r == role_member) ≡ false
    → (r == role_viewer) ≡ false
    → role_perms r ≡ []
unfolding role_perms
no_row r o a m v = rw (o, a, m, v)

kind : (r : Role) → RoleKind r
kind r = elim (Bool-cases (r == role_owner)) [
  | inl o ↦ owner_kind ((eq_iff r role_owner).0 o)
  | inr o ↦ elim (Bool-cases (r == role_admin)) [
    | inl a ↦ admin_kind ((eq_iff r role_admin).0 a)
    | inr a ↦ elim (Bool-cases (r == role_member)) [
      | inl m ↦ member_kind ((eq_iff r role_member).0 m)
      | inr m ↦ elim (Bool-cases (r == role_viewer)) [
        | inl v ↦ viewer_kind ((eq_iff r role_viewer).0 v)
        | inr v ↦ no_kind (no_row r o a m v)
      ]
    ]
  ]
]

module _ (p : Role → Permission → Bool) where
  abbrev RowPasses : Role → Type 0
  RowPasses r = all (p r) (role_perms r) ≡ true

  row_passes :
      RowPasses role_owner
      → RowPasses role_admin
      → RowPasses role_member
      → RowPasses role_viewer
      → (r : Role) → RoleKind r
      → RowPasses r
  row_passes o a m v r (owner_kind e) = subst RowPasses (sym e) o
  row_passes o a m v r (admin_kind e) = subst RowPasses (sym e) a
  row_passes o a m v r (member_kind e) = subst RowPasses (sym e) m
  row_passes o a m v r (viewer_kind e) = subst RowPasses (sym e) v
  row_passes o a m v r (no_kind e) = rw e

  -- A test that passes along the four rows passes at every grant of every role.
  grants_pass :
      RowPasses role_owner
      → RowPasses role_admin
      → RowPasses role_member
      → RowPasses role_viewer
      → (r : Role) (x : Permission) → has r x ≡ true
      → p r x ≡ true
  unfolding has
  grants_pass o a m v r x h =
      all-In (p r) (role_perms r) (row_passes o a m v r (kind r)) x (contains→In (role_perms r) x h)

all_closed : (r : Role) (p : Permission) → has r p ≡ true → grant_closed r p ≡ true
unfolding contains
all_closed =
    grants_pass grant_closed (unfold role_perms has contains permission_info grant_closed in refl)
      (unfold role_perms has contains permission_info grant_closed in refl)
      (unfold role_perms grant_closed in refl)
      (unfold role_perms has contains permission_info grant_closed in refl)

all_assignable : (r : Role) (p : Permission) → has r p ≡ true → grant_assignable r p ≡ true
all_assignable =
    grants_pass grant_assignable (unfold role_perms grant_assignable in refl)
      (unfold role_perms permission_assignable_to permission_info contains grant_assignable in refl)
      (unfold role_perms permission_assignable_to permission_info contains grant_assignable in refl)
      (unfold role_perms permission_assignable_to permission_info contains grant_assignable in refl)

closed_info :
    (r : Role) (p : Permission)
    → grant_closed r p ≡ true
    → (o : Option PermissionDefinition) → permission_info p ≡ o
    → (d : PermissionDefinition) × (permission_info p ≡ some d)
      × ((q : Permission) → In q d.requires → has r q ≡ true)
unfolding grant_closed
closed_info r p h none e = absurd (let b : false ≡ true = rw (e, grant_closed) at h in cc)
closed_info r p h (some d) e = (d, e, all-In (has r) d.requires (rw (e, grant_closed) at h))

-- Whatever the role, each permission that it holds by default is in the catalog, may be assigned to
-- that role unless the role is Owner, and comes with every permission that it requires.
pub default_grants_coherent :
    (r : Role) (p : Permission)
    → has r p ≡ true
    → (d : PermissionDefinition) × (permission_info p ≡ some d)
      × ((r ≡ role_owner) ⊎ (permission_assignable_to p r ≡ true))
      × ((q : Permission) → In q d.requires → has r q ≡ true)
default_grants_coherent r p h =
    let (d, e, closed) = closed_info r p (all_closed r p h) (permission_info p) refl in
    (d, e, assignable, closed)
  where
    allowed : (r == role_owner || permission_assignable_to p r) ≡ true
    allowed = unfold grant_assignable in all_assignable r p h

    assignable : (r ≡ role_owner) ⊎ (permission_assignable_to p r ≡ true)
    assignable = ground (arith, eq_iff r role_owner, allowed)

In-find_definition :
    (ds : List PermissionDefinition) (p : Permission) (d : PermissionDefinition)
    → find_definition p ds ≡ some d
    → In p (map (λ x. x.id) ds)
unfolding find_definition
In-find_definition [] p d h = cc
In-find_definition (x ∷ ds) p d h = ground (arith, eq_iff x.id p, In-find_definition ds p d)

-- The permissions that PermissionInfo knows are those of AllPermissions.
pub In-all_permissions : (p : Permission) → valid_permission p ≡ true → In p all_permissions
unfolding valid_permission permission_info all_permissions
In-all_permissions p h = elim (Option-cases (find_definition p permission_catalog)) [
  | inl e ↦ absurd (let b : false ≡ true = rw (e, valid_permission, permission_info) at h in cc)
  | inr (d, e) ↦ In-find_definition permission_catalog p d e
]

pub listed_valid : (p : Permission) → In p all_permissions → valid_permission p ≡ true
unfolding valid_permission permission_info all_permissions find_definition
listed_valid p i = all-In valid_permission all_permissions listed p i
  where
    listed : all valid_permission all_permissions ≡ true
    listed = refl

pub valid_permission-info :
    (p : Permission) (d : PermissionDefinition)
    → permission_info p ≡ some d
    → valid_permission p ≡ true
unfolding valid_permission
valid_permission-info p d e = rw (valid_permission, e)

pub assignable-valid :
    (p : Permission) (r : Role) → permission_assignable_to p r ≡ true → valid_permission p ≡ true
unfolding permission_assignable_to valid_permission
assignable-valid p r h = ground arith

listed : Role → Permission → Bool
listed r p = contains all_permissions p

-- A default grant is a permission of the catalog.
pub has-listed : (r : Role) (p : Permission) → has r p ≡ true → contains all_permissions p ≡ true
unfolding listed
has-listed =
    grants_pass listed
      (unfold role_perms contains listed all_permissions permission_catalog in refl)
      (unfold role_perms contains listed all_permissions permission_catalog in refl)
      (unfold role_perms contains listed all_permissions permission_catalog in refl)
      (unfold role_perms contains listed all_permissions permission_catalog in refl)

pub length-all_permissions : length all_permissions ≡ 25
unfolding all_permissions permission_catalog
length-all_permissions = refl
