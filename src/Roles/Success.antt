-- ===== src/Roles/Success.antt =====
-- When handleRolePermissionsUpdate of role_permissions.go does save, and what is read afterwards.
use bonghos.Base.{
  ℕ, ◌+◌, ◌≡◌, refl, subst, ap, ◌∙◌, inl, inr, Bool, true, false, not, List, Option, none, some,
  ◌==◌, if-elim, arith, equals_nat, is_negative, eqb_refl,
}
use bonghos.Authorization.{Role, role_owner, valid_role, Permission}
use bonghos.Roles.State.{
  PermissionMap, RolePermissionState, Database, Profile, Statement, state, load, load_profile,
  customized_state, default_state, enforce, enforce_fuel, overlay, cleared, begin, upsert_profile,
  delete_grants, insert_grants, query_users, commit, query_profile, query_grants,
}
use bonghos.Roles.Handler.{
  can_edit, desired, validate_desired, Actor, UpdateRequest, Environment, same_permissions, Audit,
}
use bonghos.Roles.Update.{
  saved, row_affected, write, save, authorize, check_revision, transaction, with_body, committed,
  answer, update,
}
use bonghos.Roles.Validate.{IsAccepted, validate_desired-IsAccepted}
use bonghos.Roles.Effective.{VisitsAll, NoFault, Answers}
use bonghos.Roles.Saved.{saved_state, load-saved, load-saved_other}
use bonghos.Roles.Outcome.{update-all_or_nothing}

-- A state that was loaded says of the profile's row what the row says.
abbrev InStep : Option Profile → RolePermissionState → Type 0
InStep o s = row_affected s.profile_exists s.revision o ≡ true

load_profile-InStep :
    (fault : Statement → Bool) (orders : ℕ → List Permission) (db : Database) (role : Role)
    (o : Option Profile)
    → Answers (InStep o) (load_profile fault orders db role o)
unfolding load_profile row_affected default_state
load_profile-InStep fault orders db role none = refl
load_profile-InStep fault orders db role (some profile) =
    if-elim (Answers (InStep (some profile))) (not profile.customized) _ _
      (λ _. eqb_refl profile.revision)
      λ _.
        if-elim (Answers (InStep (some profile))) (fault query_grants) _ _ (λ _. tt)
          λ _. customized (enforce enforce_fuel orders (overlay role (db.grants role) cleared))
  where
    customized :
        (m : Option PermissionMap) → Answers (InStep (some profile)) (customized_state profile m)
    customized none = tt
    customized (some m) = eqb_refl profile.revision

load-InStep :
    (fault : Statement → Bool) (orders : ℕ → List Permission) (db : Database) (role : Role)
    (s : RolePermissionState)
    → (role == role_owner) ≡ false
    → load fault orders db role ≡ state s
    → InStep (db.profiles role) s
unfolding load
load-InStep fault orders db role s o e = subst (Answers (InStep (db.profiles role))) e found
  where
    found : Answers (InStep (db.profiles role)) (load fault orders db role)
    found = rw o (
        if-elim (Answers (InStep (db.profiles role))) (not (valid_role role)) _ _ (λ _. tt)
          λ _.
            if-elim (Answers (InStep (db.profiles role))) (fault query_profile) _ _ (λ _. tt)
              λ _. load_profile-InStep fault orders db role (db.profiles role))

can_edit-target :
    (actor target : Role)
    → can_edit actor target ≡ true
    → ((target == role_owner) ≡ false) × (valid_role target ≡ true)
unfolding can_edit
can_edit-target actor target h = ground arith

module _ (env : Environment) (db : Database) (actor : Actor) (target : Role)
    (request : UpdateRequest) (m : PermissionMap) (current : RolePermissionState)
    (editable : can_edit actor.role target ≡ true)
    (loaded : load env.target_run.fault env.target_run.orders db target ≡ state current) where
  write_succeeds :
      NoFault env.statements
      → write env db actor target current m ≡ committed env db actor target current m
  unfolding write
  write_succeeds n = rw (
    n upsert_profile,
    load-InStep env.target_run.fault env.target_run.orders db target current
        (can_edit-target actor.role target editable).0 loaded,
    n delete_grants,
    n insert_grants,
    n query_users,
    n commit,
  )

  -- An Owner's accepted request at the stored revision that changes something is saved, if no
  -- statement fails.
  pub owner_update_saves :
      NoFault env.statements
      → (actor.role == role_owner) ≡ true
      → validate_desired target request.permissions ≡ desired m
      → is_negative request.revision ≡ false
      → equals_nat request.revision current.revision ≡ true
      → same_permissions current.permissions m ≡ false
      → (update env db actor target (some request)).db ≡ saved db target m (current.revision + 1)
  unfolding update with_body transaction check_revision authorize save
  owner_update_saves n o accepted positive fresh changed =
      rw
        (
          editable,
          with_body,
          positive,
          accepted,
          transaction,
          n begin,
          loaded,
          check_revision,
          fresh,
          authorize,
          o,
          save,
          changed,
          write_succeeds n,
        )
        saved_db
    where
      saved_db :
          (committed env db actor target current m).db ≡ saved db target m (current.revision + 1)
      saved_db = unfold committed answer in ground arith

-- What a later load answers with after an update that was audited.
pub record Reads (target : Role) (body : Option UpdateRequest) (db db' : Database) (a : Audit)
    (fault : Statement → Bool) (orders : ℕ → List Permission) : Type 0 where
  pub request : UpdateRequest
  pub m : PermissionMap
  pub sent : body ≡ some request
  pub accepted : IsAccepted target request.permissions m
  pub reads : load fault orders db' target ≡ state (saved_state m a.revision)
  pub others :
      (other : Role)
      → (other == target) ≡ false
      → load fault orders db' other ≡ load fault orders db other

-- After an audited update, a load in which no statement fails answers, for the role, with exactly
-- the requested permissions at the audited revision, and for any other role as before.
pub update-load :
    (env : Environment) (db : Database) (actor : Actor) (target : Role)
    (body : Option UpdateRequest) (a : Audit) (fault : Statement → Bool)
    (orders : ℕ → List Permission)
    → (update env db actor target body).audit ≡ some a
    → NoFault fault
    → VisitsAll orders
    → Reads target body db (update env db actor target body).db a fault orders
update-load env db actor target body a fault orders h n v =
    elim (update-all_or_nothing env db actor target body) [
      | inl kept ↦ absurd (cc (kept.silent))
      | inr w ↦
          let acc = validate_desired-IsAccepted target w.request.permissions w.m w.accepted in
          let edit = can_edit-target actor.role target w.editable in
          let next : w.current.revision + 1 ≡ a.revision = cc (w.audited) in
          record {
            request = w.request;
            m = w.m;
            sent = w.sent;
            accepted = acc;
            reads =
                ap (λ d. load fault orders d target) w.tables
                ∙ load-saved fault orders db target w.request.permissions w.m
                    (w.current.revision + 1) n v edit.0 edit.1 acc
                ∙ ap (λ r. state (saved_state w.m r)) next;
            others = λ other e.
                ap (λ d. load fault orders d other) w.tables
                ∙ load-saved_other fault orders db target other w.m (w.current.revision + 1) e;
          }
    ]
