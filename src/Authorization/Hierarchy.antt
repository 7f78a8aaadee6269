-- ===== src/Authorization/Hierarchy.antt =====
-- The fixed role hierarchy: CanManageUser and CanInviteRole of authorization.go.
use bonghos.Base.{
  ℕ, ◌≤◌, ◌<◌, ◌≡◌, refl, subst, ◌≢◌, ◌↔◌, ◌⊎◌, true, Option, none, some, arith, eq_iff,
}
use bonghos.Authorization.Names.{Role, role_owner, valid_role}
use bonghos.Authorization.Rank.{role_rank, can_manage_user, can_invite_role}

-- A role is recognised exactly when it has a rank.
pub valid_role_iff-role_rank : (r : Role) → (valid_role r ≡ true) ↔ (0 < role_rank r)
unfolding valid_role role_rank
valid_role_iff-role_rank r = ground arith

pub role_rank-le : (r : Role) → role_rank r ≤ 4
unfolding role_rank
role_rank-le r = ground arith

pub owner-role_rank : (r : Role) → (r ≡ role_owner) ↔ (role_rank r ≡ 4)
unfolding role_rank
owner-role_rank r = ground (arith, eq_iff r role_owner)

-- What the hierarchy promises, stated without the order of the tests.
pub record MayManage (actor : Role) (actor_id : ℕ) (target : Role) (target_id : ℕ)
    (new : Option Role) : Type 0 where
  pub actor_known : valid_role actor ≡ true
  pub target_known : valid_role target ≡ true
  pub above : (actor ≡ role_owner) ⊎ (role_rank target < role_rank actor)
  pub not_self : (r : Role) → new ≡ some r → actor_id ≡ target_id → r ≡ target
  pub known : (r : Role) → new ≡ some r → valid_role r ≡ true
  pub no_promotion :
      (r : Role) → new ≡ some r → (actor ≡ role_owner) ⊎ (role_rank r < role_rank actor)

module _ (actor : Role) (actor_id : ℕ) (target : Role) (target_id : ℕ) where
  allowed_none :
      can_manage_user actor actor_id target target_id none ≡ true
      → MayManage actor actor_id target target_id none
  unfolding can_manage_user
  allowed_none h = record {
    actor_known = ground arith;
    target_known = ground arith;
    above = ground (arith, eq_iff actor role_owner);
    not_self = λ r e. cc;
    known = λ r e. cc;
    no_promotion = λ r e. cc;
  }

  none_allowed :
      MayManage actor actor_id target target_id none
      → can_manage_user actor actor_id target target_id none ≡ true
  unfolding can_manage_user
  none_allowed m = ground (arith, eq_iff actor role_owner)

  module _ (s : Role) where
    -- The tests that a change of role passes, read off one by one.
    allowed_tests :
        can_manage_user actor actor_id target target_id (some s) ≡ true
        → (valid_role actor ≡ true)
          × (valid_role target ≡ true)
          × ((actor ≡ role_owner) ⊎ (role_rank target < role_rank actor))
          × (actor_id ≡ target_id → s ≡ target)
          × (valid_role s ≡ true)
          × ((actor ≡ role_owner) ⊎ (role_rank s < role_rank actor))
    unfolding can_manage_user
    allowed_tests h = ground (arith, eq_iff actor role_owner, eq_iff s target)

    allowed_some :
        can_manage_user actor actor_id target target_id (some s) ≡ true
        → MayManage actor actor_id target target_id (some s)
    allowed_some h =
        let t = allowed_tests h in
        record {
          actor_known = t.0;
          target_known = t.1;
          above = t.2;
          not_self = λ r e i. cc (t.3 i);
          known = λ r e. let q : s ≡ r = cc in subst (λ x. valid_role x ≡ true) q t.4;
          no_promotion = λ r e.
              let q : s ≡ r = cc in
              subst (λ x. (actor ≡ role_owner) ⊎ (role_rank x < role_rank actor)) q t.5;
        }

    some_allowed :
        MayManage actor actor_id target target_id (some s)
        → can_manage_user actor actor_id target target_id (some s) ≡ true
    unfolding can_manage_user
    some_allowed m = ground (
      arith,
      eq_iff actor role_owner,
      eq_iff s target,
      m.not_self s refl,
      m.known s refl,
      m.no_promotion s refl,
    )

-- CanManageUser answers `true` exactly when both roles are recognised, the actor is an Owner or
-- ranks above the target, nobody changes the role of their own account, and the new role, if one is
-- given, is recognised and, for an actor who is no Owner, below the actor's own.
pub can_manage_user_iff-MayManage :
    (actor : Role) (actor_id : ℕ) (target : Role) (target_id : ℕ) (new : Option Role)
    → (can_manage_user actor actor_id target target_id new ≡ true)
      ↔ MayManage actor actor_id target target_id new
can_manage_user_iff-MayManage actor actor_id target target_id none =
    (allowed_none actor actor_id target target_id, none_allowed actor actor_id target target_id)
can_manage_user_iff-MayManage actor actor_id target target_id (some s) =
    (allowed_some actor actor_id target target_id s, some_allowed actor actor_id target target_id s)

-- An invitation is allowed exactly for a recognised role below Owner, by an Owner or by a
-- recognised role that ranks above it.
pub can_invite_role_iff :
    (actor invited : Role)
    → (can_invite_role actor invited ≡ true)
      ↔ (valid_role invited ≡ true)
        × (invited ≢ role_owner)
        × ((actor ≡ role_owner) ⊎ (role_rank invited < role_rank actor))
unfolding can_invite_role
can_invite_role_iff actor invited = ground (
  arith,
  eq_iff actor role_owner,
  eq_iff invited role_owner,
  valid_role_iff-role_rank actor,
  (owner-role_rank actor).0,
)
