-- ===== src/Auth/InvitationRoles.antt =====
-- What role an invited account has: CreateInvitation and ActivateInvitation of store.go.
use bonghos.Base.{
  inr, inl, ℕ, ◌≡◌, ◌≢◌, refl, sym, subst, ◌∙◌, String, true, not, List, [], ◌∷◌, Option, none,
  some, ◌==◌, eq_iff, eqb, if-elim, any, count_if, All, arith, Bool-cases,
}
use bonghos.Base.Text.{Text}
use bonghos.Authorization.{Role, role_owner, valid_role}
use bonghos.Auth.State.{User, Invitation, Store, Error}
use bonghos.Auth.Totp.{verify_totp}
use bonghos.Auth.Login.{Primitives, same_username}
use bonghos.Auth.Sessions.{valid_password}
use bonghos.Auth.Invitations.{
  valid_username, Created, created, rejected, create_user, create_invitation, find_invitation,
  open_invitation, check_invitation, is_claimable, claim_invitation, finish_activation,
  activate_checked, activate_invitation,
}

abbrev InvitableAt : Option Invitation → Type 0
InvitableAt none = Unit
InvitableAt (some x) = (x.role ≢ role_owner) × (valid_role x.role ≡ true)

module _ (lib : Primitives) where
  -- No stored invitation is for an Owner or for an unknown role.
  abbrev pub Invitable : Store → Type 0
  Invitable s = All (λ i. (i.role ≢ role_owner) × (valid_role i.role ≡ true)) s.invitations

  -- CreateInvitation keeps it so that no stored invitation is for an Owner or for an unknown role.
  pub create_invitation-Invitable :
      (now ttl : ℕ) (role : Role) (token : Text) (s : Store)
      → Invitable s
      → Invitable (create_invitation lib now ttl role token s).0
  unfolding create_invitation
  create_invitation-Invitable now ttl role token s a =
      if-elim (λ (r : Store × Option Error). Invitable r.0) (role == role_owner) _ _ (λ _. a)
        λ o.
          if-elim (λ (r : Store × Option Error). Invitable r.0) (not (valid_role role)) _ _ (λ _. a)
            λ v. ((λ e. ground (arith, eq_iff role role_owner, e), ground arith), a)

  abbrev HasRole : Role → Created → Type 0
  HasRole role (created u) = u.role ≡ role
  HasRole role (rejected e) = Unit

  create_user-HasRole :
      (name password : Text) (secret : String) (role : Role) (fresh : List Text) (s : Store)
      → HasRole role (create_user lib name password secret role fresh s).1
  unfolding create_user
  create_user-HasRole name password secret role fresh s =
      if-elim (λ (r : Store × Created). HasRole role r.1) (not (valid_username name)) _ _ (λ _. tt)
        λ _.
          if-elim (λ (r : Store × Created). HasRole role r.1) (not (valid_password password)) _ _
            (λ _. tt)
            λ _.
              if-elim (λ (r : Store × Created). HasRole role r.1) (not (valid_role role)) _ _
                (λ _. tt)
                λ _.
                  if-elim (λ (r : Store × Created). HasRole role r.1)
                    (any (λ u. same_username u.username name) s.users) _ _ (λ _. tt) (λ _. refl)

  finish-HasRole :
      (between : Store → Store) (id : ℕ) (role : Role) (r : Store × Created)
      → HasRole role r.1
      → HasRole role (finish_activation lib between id r).1
  unfolding finish_activation claim_invitation
  finish-HasRole between id role (s, rejected e) h = tt
  finish-HasRole between id role (s, created u) h =
      if-elim (λ (r : Store × Created). HasRole role r.1)
        (eqb (count_if (is_claimable id) (between s).invitations) 1) _ _ (λ _. h) (λ _. tt)

  activated-HasRole :
      (now : ℕ) (between : Store → Store) (name password : Text) (secret : String) (code : Text)
      (fresh : List Text) (s : Store) (i : Invitation)
      → HasRole i.role
          (activate_checked lib now between name password secret code fresh s (some i)).1
  unfolding activate_checked
  activated-HasRole now between name password secret code fresh s i =
      if-elim (λ (r : Store × Created). HasRole i.role r.1)
        (not (verify_totp lib.mac secret code now)) _ _ (λ _. tt)
        (λ _.
          finish-HasRole between i.id i.role (create_user lib name password secret i.role fresh s)
            (create_user-HasRole name password secret i.role fresh s))

  found-role :
      (h : String) (rows : List Invitation) (i : Invitation)
      → All (λ x. (x.role ≢ role_owner) × (valid_role x.role ≡ true)) rows
      → find_invitation h rows ≡ some i
      → (i.role ≢ role_owner) × (valid_role i.role ≡ true)
  unfolding find_invitation
  found-role h [] i a e = cc
  found-role h (x ∷ rows) i a e = elim (Bool-cases (x.token_hash == h)) [
    | inl t ↦
        let same : some x ≡ some i = rw (find_invitation, t) at e in
        subst (λ o. InvitableAt o) same a.0
    | inr t ↦ found-role h rows i a.1 (rw (find_invitation, t) at e)
  ]

  checked-found :
      (now : ℕ) (o : Option Invitation) (i : Invitation)
      → open_invitation now o ≡ some i
      → o ≡ some i
  unfolding open_invitation
  checked-found now none i h = cc
  checked-found now (some x) i h = ground arith

  -- While no stored invitation is for an Owner or an unknown role, an activation creates only
  -- accounts with the role of the invitation that it checked, which is recognised and not Owner.
  pub activate-role :
      (now : ℕ) (between : Store → Store) (token name password : Text) (secret : String)
      (code : Text) (fresh : List Text) (s : Store) (u : User)
      → Invitable s
      → (activate_invitation lib now between token name password secret code fresh s).1 ≡ created u
      → (i : Invitation) × (check_invitation lib now token s ≡ some i)
        × (u.role ≡ i.role)
        × (u.role ≢ role_owner)
        × (valid_role u.role ≡ true)
  unfolding activate_invitation
  activate-role now between token name password secret code fresh s u a h =
      checked (check_invitation lib now token s) refl h
    where
      checked :
          (o : Option Invitation)
          → check_invitation lib now token s ≡ o
          → (activate_checked lib now between name password secret code fresh s o).1 ≡ created u
          → (i : Invitation) × (check_invitation lib now token s ≡ some i)
            × (u.role ≡ i.role)
            × (u.role ≢ role_owner)
            × (valid_role u.role ≡ true)
      checked none c g = absurd (unfold activate_checked in cc g)
      checked (some i) c g =
          let r : u.role ≡ i.role =
            subst (HasRole i.role) g
              (activated-HasRole now between name password secret code fresh s i) in
          let f = found-role (lib.hash_token token) s.invitations i a (
            unfold check_invitation in
            checked-found now (find_invitation (lib.hash_token token) s.invitations) i c) in
          (i, c, r, λ e. f.0 (sym r ∙ e), subst (λ x. valid_role x ≡ true) (sym r) f.1)
