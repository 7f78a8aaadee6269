-- ===== src/Authorization/Rank.antt =====
-- The hierarchy of roles of source/internal/authorization/authorization.go.
use bonghos.Base.{
  ℕ, Bool, true, false, ◌&&◌, ◌||◌, not, Option, none, some, ◌==◌, ltb, leb, eqb, if◌then◌else◌,
}
use bonghos.Authorization.Names.{Role, role_owner, role_admin, role_member, role_viewer, valid_role}

unfoldable pub role_rank : Role → ℕ
role_rank r =
    if r == role_owner
    then 4
    else if r == role_admin
    then 3
    else if r == role_member
    then 2
    else if r == role_viewer
    then 1
    else 0

-- The identifiers are Go int64 values, of which only equality is used.
self_change : Role → ℕ → ℕ → Option Role → Bool
self_change target actor_id target_id none = false
self_change target actor_id target_id (some r) = eqb actor_id target_id && not (r == target)

new_role_valid : Option Role → Bool
new_role_valid none = true
new_role_valid (some r) = valid_role r

new_role_below : Role → Option Role → Bool
new_role_below actor none = true
new_role_below actor (some r) = valid_role r && ltb (role_rank r) (role_rank actor)

-- CanManageUser; `newRole *Role` is an `Option Role`.
unfoldable pub can_manage_user : Role → ℕ → Role → ℕ → Option Role → Bool
unfolding self_change new_role_valid new_role_below
can_manage_user actor actor_id target target_id new_role =
    if not (valid_role actor) || not (valid_role target)
    then false
    else if self_change target actor_id target_id new_role
    then false
    else if actor == role_owner
    then new_role_valid new_role
    else if leb (role_rank actor) (role_rank target)
    then false
    else new_role_below actor new_role

unfoldable pub can_invite_role : Role → Role → Bool
can_invite_role actor invited =
    if not (valid_role actor) || (not (valid_role invited) || invited == role_owner)
    then false
    else actor == role_owner || ltb (role_rank invited) (role_rank actor)
