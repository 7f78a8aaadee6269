-- ===== src/Auth/InvitationLaws.antt =====
-- One invitation makes one account: ActivateInvitation of store.go.
use bonghos.Base.{
  inr, inl, ℕ, ◌≡◌, refl, String, not, List, [], ◌∷◌, some, map, eqb, if-elim, count_if, arith,
  Bool-cases,
}
use bonghos.Base.Text.{Text}
use bonghos.Auth.State.{code_mismatch, User, Invitation, Store, Error, invitation_used}
use bonghos.Auth.Accounts.{erase_user}
use bonghos.Auth.Totp.{verify_totp}
use bonghos.Auth.Login.{Primitives}
use bonghos.Auth.Invitations.{
  Created, created, rejected, create_user, check_invitation, is_claimable, claim, claim_invitation,
  finish_activation, activate_checked, activate_invitation,
}

claimed-count :
    (id user : ℕ) (rows : List Invitation)
    → count_if (is_claimable id) (map (claim id user) rows) ≡ 0
claimed-count id user [] = refl
claimed-count id user (i ∷ rows) = ground (arith, claimed-count id user rows)

abbrev pub IsRejected : Created → Type 0
IsRejected c = (e : Error) × (c ≡ rejected e)

module _ (lib : Primitives) where
  claim-count :
      (id : ℕ) (u v : User) (s : Store)
      → (claim_invitation lib id u s).1 ≡ created v
      → count_if (is_claimable id) (claim_invitation lib id u s).0.invitations ≡ 0
  unfolding claim_invitation erase_user
  claim-count id u v s h = elim (Bool-cases (eqb (count_if (is_claimable id) s.invitations) 1)) [
    | inl e ↦ rw e (claimed-count id u.id s.invitations)
    | inr e ↦ rw e (claimed-count id u.id s.invitations)
  ]

  claim_again :
      (id : ℕ) (u : User) (s : Store)
      → count_if (is_claimable id) s.invitations ≡ 0
      → (claim_invitation lib id u s).1 ≡ rejected invitation_used
  unfolding claim_invitation
  claim_again id u s h = rw h

  finish_again :
      (id : ℕ) (t : Store) (r : Store × Created)
      → count_if (is_claimable id) t.invitations ≡ 0
      → IsRejected (finish_activation lib (λ x. t) id r).1
  unfolding finish_activation
  finish_again id t (s, rejected e) h = (e, refl)
  finish_again id t (s, created u) h = (invitation_used, claim_again id u t h)

  finish-count :
      (id : ℕ) (between : Store → Store) (r : Store × Created) (u : User)
      → (finish_activation lib between id r).1 ≡ created u
      → count_if (is_claimable id) (finish_activation lib between id r).0.invitations ≡ 0
  unfolding finish_activation
  finish-count id between (s, rejected e) u h = cc
  finish-count id between (s, created v) u h = claim-count id v u (between s) h

  activated-count :
      (now : ℕ) (between : Store → Store) (username password : Text) (secret : String) (code : Text)
      (fresh : List Text) (s : Store) (i : Invitation) (u : User)
      → (activate_checked lib now between username password secret code fresh s (some i)).1
        ≡ created u
      → count_if
          (is_claimable i.id)
          (activate_checked lib now between username password secret code fresh s
            (some i)).0.invitations
        ≡ 0
  unfolding activate_checked
  activated-count now between username password secret code fresh s i u h =
      elim (Bool-cases (not (verify_totp lib.mac secret code now))) [
        | inl e ↦ absurd (let b : rejected code_mismatch ≡ created u = rw e at h in cc)
        | inr e ↦ rw e (
            finish-count i.id between (create_user lib username password secret i.role fresh s) u
              (rw e at h))
      ]

  -- After an activation that made an account, another activation of the same invitation that goes on
  -- to its claim in the store which the first one left makes none, even if its check of the invitation
  -- came before; whatever other requests did in the middle of the first one.
  pub activate_once :
      (now now2 : ℕ) (between : Store → Store) (token token2 name name2 password password2 : Text)
      (secret secret2 : String) (code code2 : Text) (fresh fresh2 : List Text) (s s2 : Store)
      (i j : Invitation) (u : User)
      → check_invitation lib now token s ≡ some i
      → check_invitation lib now2 token2 s2 ≡ some j
      → j.id ≡ i.id
      → (activate_invitation lib now between token name password secret code fresh s).1 ≡ created u
      → IsRejected
          (activate_invitation lib now2
            (λ x. (activate_invitation lib now between token name password secret code fresh s).0)
            token2
            name2
            password2
            secret2
            code2
            fresh2
            s2).1
  unfolding activate_invitation
  activate_once now now2 between token token2 name name2 password password2 secret secret2 code
        code2 fresh fresh2 s s2 i j u c c2 same h =
      let t = (activate_checked lib now between name password secret code fresh s (some i)).0 in
      let none_left : count_if (is_claimable i.id) t.invitations ≡ 0 =
        activated-count now between name password secret code fresh s i u (rw c at h) in
      rw (c, c2) (late t (rw same none_left))
    where
      late :
          (t : Store)
          → count_if (is_claimable j.id) t.invitations ≡ 0
          → IsRejected
              (activate_checked lib now2
                (λ x. t)
                name2
                password2
                secret2
                code2
                fresh2
                s2
                (some j)).1
      late t n =
          unfold activate_checked in
          if-elim (λ (r : Store × Created). IsRejected r.1)
            (not (verify_totp lib.mac secret2 code2 now2)) _ _ (λ _. (code_mismatch, refl))
            (λ _. finish_again j.id t (create_user lib name2 password2 secret2 j.role fresh2 s2) n)
