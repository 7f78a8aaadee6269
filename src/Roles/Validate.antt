-- ===== src/Roles/Validate.antt =====
-- validateDesiredPermissions of role_permissions.go against what it is to accept.
use bonghos.Base.{
  ◌≡◌, refl, sym, subst, ◌⊎◌, inl, inr, ◌↔◌, true, false, List, [], ◌∷◌, eq_iff, all, In, arith,
  Bool-cases, String,
}
use bonghos.Authorization.{
  Role, Permission, permission_info, permission_assignable_to, valid_permission,
}
use bonghos.Roles.State.{PermissionMap, assign, cleared, supported}
use bonghos.Roles.Handler.{
  missing_requirement, Validated, desired, rejected, collect, check_requires, validate_desired,
  required_by,
}
use bonghos.Roles.Dependencies.{IsClosed}

-- The permissions that a role may be given as they are requested.
abbrev pub IsRequested : List String → PermissionMap → Type 0
IsRequested requested m = (p : Permission) → (m p ≡ true) ↔ In p requested

abbrev IsGrantable : Role → List String → Type 0
IsGrantable target [] = Unit
IsGrantable target (p ∷ ps) =
    (valid_permission p ≡ true) × (permission_assignable_to p target ≡ true) × IsGrantable target ps

collect_step :
    (target : Role) (p : String) (ps : List String) (start m : PermissionMap)
    → collect target (p ∷ ps) start ≡ desired m
    → (valid_permission p ≡ true)
      × (permission_assignable_to p target ≡ true)
      × (collect target ps (assign start p true) ≡ desired m)
unfolding collect
collect_step target p ps start m h = ground arith

-- What the first loop adds to the map that it starts from.
collect_lem :
    (target : Role) (ps : List String) (start m : PermissionMap)
    → collect target ps start ≡ desired m
    → IsGrantable target ps
      × ((q : Permission) → m q ≡ true → (start q ≡ true) ⊎ In q ps)
      × ((q : Permission) → (start q ≡ true) ⊎ In q ps → m q ≡ true)
unfolding collect
collect_lem target [] start m h =
    let e : start ≡ m = cc in
    (tt, λ q t. inl (subst (λ x. x q ≡ true) (sym e) t), λ q o. from_start e q o)
  where
    from_start : start ≡ m → (q : Permission) → (start q ≡ true) ⊎ ⊥ → m q ≡ true
    from_start e q (inl t) = subst (λ x. x q ≡ true) e t
    from_start e q (inr f) = absurd f
collect_lem target (p ∷ ps) start m h =
    let (v, a, rest) = collect_step target p ps start m h in
    let (g, up, down) = collect_lem target ps (assign start p true) m rest in
    (
      (v, a, g),
      λ q t. ground (arith, eq_iff q p, up q t),
      λ q o. ground (arith, eq_iff q p, down q, o),
    )

check_lem :
    (ps : List Permission) (d m : PermissionMap)
    → check_requires ps d ≡ desired m
    → (d ≡ m) × ((p : Permission) → In p ps → all m (required_by (permission_info p)) ≡ true)
unfolding check_requires
check_lem [] d m h = (cc, λ p i. absurd i)
check_lem (x ∷ ps) d m h = elim (Bool-cases (all d (required_by (permission_info x)))) [
  | inr bad ↦
      absurd
        (let e : rejected (missing_requirement x) ≡ desired m = rw (check_requires, bad) at h in cc)
  | inl good ↦
      let rest : check_requires ps d ≡ desired m = rw (check_requires, good) at h in
      let ih = check_lem ps d m rest in (ih.0, λ p i. member ih.0 good ih.1 p i)
]
  where
    member :
        d ≡ m
        → all d (required_by (permission_info x)) ≡ true
        → ((p : Permission) → In p ps → all m (required_by (permission_info p)) ≡ true)
        → (p : Permission) → In p (x ∷ ps)
        → all m (required_by (permission_info p)) ≡ true
    member e good rest p (inl q) =
        subst (λ y. all m (required_by (permission_info y)) ≡ true) (sym q)
          (subst (λ z. all z (required_by (permission_info x)) ≡ true) e good)
    member e good rest p (inr i) = rest p i

supported-required_by :
    (m : PermissionMap) (p : Permission)
    → valid_permission p ≡ true
    → all m (required_by (permission_info p)) ≡ true
    → supported m p ≡ true
unfolding supported valid_permission
supported-required_by m p v h = ground arith

IsGrantable-In :
    (target : Role) (ps : List String) (p : String)
    → IsGrantable target ps
    → In p ps
    → (valid_permission p ≡ true) × (permission_assignable_to p target ≡ true)
IsGrantable-In target [] p g i = absurd i
IsGrantable-In target (x ∷ ps) p g (inl e) =
    subst (λ y. (valid_permission y ≡ true) × (permission_assignable_to y target ≡ true)) (sym e)
      (g.0, g.1)
IsGrantable-In target (x ∷ ps) p g (inr i) = IsGrantable-In target ps p g.2 i

-- What an accepted request amounts to.
pub record IsAccepted (target : Role) (requested : List String) (m : PermissionMap) : Type 0 where
  pub exact : IsRequested requested m
  pub assignable : (p : Permission) → m p ≡ true → permission_assignable_to p target ≡ true
  pub closed : IsClosed m

validated :
    (target : Role) (requested : List String) (m : PermissionMap) (v : Validated)
    → collect target requested cleared ≡ v
    → validate_desired target requested ≡ desired m
    → IsAccepted target requested m
unfolding validate_desired
validated target requested m (rejected e) c h =
    absurd (let b : rejected e ≡ desired m = rw c at h in cc)
validated target requested m (desired d) c h =
    let checked : check_requires requested d ≡ desired m = rw c at h in
    let (same, required) = check_lem requested d m checked in
    let (g, up, down) = collect_lem target requested cleared d c in
    let asked : (p : Permission) → m p ≡ true → In p requested =
      λ p t. from_empty p (up p (subst (λ x. x p ≡ true) (sym same) t)) in
    record {
      exact = λ p. (asked p, λ i. subst (λ x. x p ≡ true) same (down p (inr i)));
      assignable = λ p t. (IsGrantable-In target requested p g (asked p t)).1;
      closed = λ p t.
          supported-required_by m p (IsGrantable-In target requested p g (asked p t)).0
            (required p (asked p t));
    }
  where
    from_empty : (p : Permission) → (false ≡ true) ⊎ In p requested → In p requested
    from_empty p (inl e) = cc
    from_empty p (inr i) = i

-- A request that validateDesiredPermissions accepts stands for exactly the permissions that it
-- lists; each of them is in the catalog, may be assigned to the role, and has all that it requires
-- in the list.
pub validate_desired-IsAccepted :
    (target : Role) (requested : List String) (m : PermissionMap)
    → validate_desired target requested ≡ desired m
    → IsAccepted target requested m
validate_desired-IsAccepted target requested m h =
    validated target requested m (collect target requested cleared) refl h
