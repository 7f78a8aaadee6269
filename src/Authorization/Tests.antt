-- ===== src/Authorization/Tests.antt =====
-- The theorems on source/internal/authorization at concrete inputs.
use bonghos.Base.{◌≡◌, refl, true, some}
use bonghos.Authorization.Names.{role_admin, role_member, role_viewer, valid_role}
use bonghos.Authorization.Rank.{role_rank, can_manage_user}

can_manage_user_test : can_manage_user role_admin 2 role_viewer 3 (some role_member) ≡ true
unfolding can_manage_user valid_role role_rank
can_manage_user_test = refl
