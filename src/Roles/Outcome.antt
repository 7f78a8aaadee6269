-- ===== src/Roles/Outcome.antt =====
-- What handleRolePermissionsUpdate of role_permissions.go can do, whoever calls it with whatever
-- body and whichever statement fails.
use bonghos.Base.{
  ◌+◌, ◌≡◌, refl, sym, subst, ◌⊎◌, inl, inr, Bool, true, false, ◌||◌, not, List, [], ◌∷◌, Option,
  none, some, ◌==◌, eq_iff, if-elim, In, arith, equals_nat, is_negative,
}
use bonghos.Authorization.{Role, role_owner, Permission, perm_roles_manage}
use bonghos.Roles.State.{
  PermissionMap, RolePermissionState, Database, Loaded, state, failed, load, begin, upsert_profile,
  delete_grants, insert_grants, query_users, commit,
}
use bonghos.Roles.Handler.{
  can_edit, Validated, desired, rejected, validate_desired, granted, revoked, Response, Actor,
  UpdateRequest, Environment, Status, refuse, payload, same_permissions, RolePayload,
}
use bonghos.Roles.Update.{
  row_affected, saved, users_of, write, save, grants_too_much, authorize, authorize_delegate,
  check_revision, transaction, with_body, unchanged, committed, answer, update,
}
use bonghos.Roles.Validate.{IsAccepted, validate_desired-IsAccepted}

-- Nothing happened beyond the answer.
pub record Kept (db : Database) (r : Response) : Type 0 where
  pub tables : r.db ≡ db
  pub connected : r.disconnected ≡ []
  pub silent : r.audit ≡ none

-- Why the actor may give the target the permissions of `m`: as Owner, or as a holder of
-- roles.manage to whom, or to the target, each of them belongs already.
abbrev pub Authority : Environment → Database → Actor → RolePermissionState → PermissionMap → Type 0
Authority env db actor current m =
    (actor.role ≡ role_owner)
    ⊎ ((a : RolePermissionState) × (load env.actor_run.fault env.actor_run.orders db actor.role
          ≡ state a)
        × (a.permissions perm_roles_manage ≡ true)
        × ((p : Permission)
            → m p ≡ true
            → (a.permissions p ≡ true) ⊎ (current.permissions p ≡ true)))

-- The whole update happened.
pub record Written (env : Environment) (db : Database) (actor : Actor) (target : Role)
    (body : Option UpdateRequest) (r : Response) : Type 0 where
  pub request : UpdateRequest
  pub m : PermissionMap
  pub current : RolePermissionState
  pub sent : body ≡ some request
  pub editable : can_edit actor.role target ≡ true
  pub accepted : validate_desired target request.permissions ≡ desired m
  pub loaded : load env.target_run.fault env.target_run.orders db target ≡ state current
  pub fresh : equals_nat request.revision current.revision ≡ true
  pub authority : Authority env db actor current m
  pub tables : r.db ≡ saved db target m (current.revision + 1)
  pub disconnects : r.disconnected ≡ users_of target db.users
  pub audited :
      r.audit
      ≡ some (record {
        revision = current.revision + 1;
        granted = granted current.permissions m;
        revoked = revoked current.permissions m;
      })

refuse-Kept : (db : Database) (status : Status) → Kept db (refuse db status)
unfolding refuse
refuse-Kept db status = record { tables = refl; connected = refl; silent = refl }

answer-Kept :
    (db : Database) (r : Response) (o : Option (List RolePayload))
    → Kept db r
    → Kept db (answer r o)
unfolding answer
answer-Kept db r none k = record { tables = k.tables; connected = k.connected; silent = k.silent }
answer-Kept db r (some b) k = record {
  tables = k.tables;
  connected = k.connected;
  silent = k.silent;
}

not-false : (b : Bool) → not b ≡ false → b ≡ true
not-false b h = ground arith

not_too_much :
    (a current : RolePermissionState) (ps : List Permission)
    → grants_too_much a current ps ≡ false
    → (p : Permission) → In p ps
    → (a.permissions p ≡ true) ⊎ (current.permissions p ≡ true)
unfolding grants_too_much
not_too_much a current [] h p i = absurd i
not_too_much a current (x ∷ ps) h p (inl e) =
    subst (λ y. (a.permissions y ≡ true) ⊎ (current.permissions y ≡ true)) (sym e) (ground arith)
not_too_much a current (x ∷ ps) h p (inr i) = not_too_much a current ps (ground arith) p i

module _ (env : Environment) (db : Database) (actor : Actor) (target : Role)
    (body : Option UpdateRequest) where
  abbrev Outcome : Response → Type 0
  Outcome r = Kept db r ⊎ Written env db actor target body r

  refused : (status : Status) → Outcome (refuse db status)
  refused status = inl (refuse-Kept db status)

  module _ (request : UpdateRequest) (m : PermissionMap) (current : RolePermissionState)
      (sent : body ≡ some request) (editable : can_edit actor.role target ≡ true)
      (accepted : validate_desired target request.permissions ≡ desired m)
      (loaded : load env.target_run.fault env.target_run.orders db target ≡ state current)
      (fresh : equals_nat request.revision current.revision ≡ true) where
    committed-Outcome :
        Authority env db actor current m → Outcome (committed env db actor target current m)
    unfolding committed answer
    committed-Outcome authority = inr (record {
      request = request;
      m = m;
      current = current;
      sent = sent;
      editable = editable;
      accepted = accepted;
      loaded = loaded;
      fresh = fresh;
      authority = authority;
      tables = ground arith;
      disconnects = ground arith;
      audited = ground arith;
    })

    save-Outcome : Authority env db actor current m → Outcome (save env db actor target current m)
    unfolding save write unchanged
    save-Outcome authority =
        if-elim Outcome (same_permissions current.permissions m) _ _
          (λ _. inl (
            answer-Kept db (refuse db Status.ok) (payload env.payload_run db actor.role)
              (refuse-Kept db Status.ok)))
          λ _.
            if-elim Outcome (env.statements upsert_profile) _ _ (λ _. refused _)
              λ _.
                if-elim Outcome
                  (not (row_affected current.profile_exists current.revision (db.profiles target)))
                  _ _ (λ _. refused _)
                  λ _.
                    if-elim Outcome (env.statements delete_grants || env.statements insert_grants) _
                      _ (λ _. refused _)
                      λ _.
                        if-elim Outcome (env.statements query_users || env.statements commit) _ _
                          (λ _. refused _) (λ _. committed-Outcome authority)

    delegate-Outcome :
        (l : Loaded)
        → load env.actor_run.fault env.actor_run.orders db actor.role ≡ l
        → Outcome (authorize_delegate env db actor target current request.permissions m l)
    unfolding authorize_delegate
    delegate-Outcome (failed e) h = refused _
    delegate-Outcome (state a) h =
        if-elim Outcome (not (a.permissions perm_roles_manage)) _ _ (λ _. refused _)
          λ manages.
            if-elim Outcome (grants_too_much a current request.permissions) _ _ (λ _. refused _)
              λ modest. save-Outcome (inr (a, h, not-false _ manages, covered a modest))
      where
        accepted' : IsAccepted target request.permissions m
        accepted' = validate_desired-IsAccepted target request.permissions m accepted

        covered :
            (a : RolePermissionState)
            → grants_too_much a current request.permissions ≡ false
            → (p : Permission) → m p ≡ true
            → (a.permissions p ≡ true) ⊎ (current.permissions p ≡ true)
        covered a modest p t =
            not_too_much a current request.permissions modest p ((accepted'.exact p).0 t)

    authorize-Outcome : Outcome (authorize env db actor target current request.permissions m)
    unfolding authorize
    authorize-Outcome =
        if-elim Outcome (not (actor.role == role_owner)) _ _
          (λ _. delegate-Outcome (load env.actor_run.fault env.actor_run.orders db actor.role) refl)
          (λ o. save-Outcome (inl ((eq_iff actor.role role_owner).0 (not-false _ o))))

  check-Outcome :
      (request : UpdateRequest) (m : PermissionMap) (l : Loaded)
      → body ≡ some request
      → can_edit actor.role target ≡ true
      → validate_desired target request.permissions ≡ desired m
      → load env.target_run.fault env.target_run.orders db target ≡ l
      → Outcome (check_revision env db actor target request m l)
  unfolding check_revision
  check-Outcome request m (failed e) sent editable accepted h = refused _
  check-Outcome request m (state current) sent editable accepted h =
      if-elim Outcome (not (equals_nat request.revision current.revision)) _ _ (λ _. refused _)
        λ fresh. authorize-Outcome request m current sent editable accepted h (not-false _ fresh)

  transaction-Outcome :
      (request : UpdateRequest) (v : Validated)
      → body ≡ some request
      → can_edit actor.role target ≡ true
      → validate_desired target request.permissions ≡ v
      → Outcome (transaction env db actor target request v)
  unfolding transaction
  transaction-Outcome request (rejected e) sent editable h = refused _
  transaction-Outcome request (desired m) sent editable h =
      if-elim Outcome (env.statements begin) _ _ (λ _. refused _)
        λ _.
          check-Outcome request m (load env.target_run.fault env.target_run.orders db target) sent
            editable h refl

  body-Outcome :
      (b : Option UpdateRequest)
      → body ≡ b
      → can_edit actor.role target ≡ true
      → Outcome (with_body env db actor target b)
  unfolding with_body
  body-Outcome none sent editable = refused _
  body-Outcome (some request) sent editable =
      if-elim Outcome (is_negative request.revision) _ _ (λ _. refused _)
        λ _.
          transaction-Outcome request (validate_desired target request.permissions) sent editable
            refl

-- Every request either leaves the tables as they were, disconnects nobody and audits nothing, or
-- it does all of this: the actor may edit the role, the request is accepted and at the stored
-- revision, the actor is an Owner or holds roles.manage and grants only what the actor or the role
-- had; the tables then hold exactly the requested permissions at the next revision, every user of
-- the role is disconnected, and the audit entry has the granted and the revoked ones.
pub update-all_or_nothing :
    (env : Environment) (db : Database) (actor : Actor) (target : Role)
    (body : Option UpdateRequest)
    → Kept db (update env db actor target body)
      ⊎ Written env db actor target body (update env db actor target body)
unfolding update
update-all_or_nothing env db actor target body =
    if-elim (Outcome env db actor target body) (not (can_edit actor.role target)) _ _
      (λ _. refused env db actor target body _)
      λ e. body-Outcome env db actor target body body refl (not-false _ e)
