-- ===== src/Roles/Dependencies.antt =====
-- enforcePermissionDependencies of role_permissions.go keeps the greatest part of the map that is
-- closed under the catalog's requirements, whatever the order in which the runtime visits the keys.
use bonghos.Base.{
  ℕ, zero, suc, ◌≤◌, ◌<◌, ◌≡◌, refl, sym, subst, ap, ◌∙◌, inl, inr, Bool, true, false, ◌&&◌, ◌||◌,
  not, List, [], ◌∷◌, Option, none, some, eq_iff, if◌then◌else◌, In, all-In, In-all, count_if,
  arith, Bool-cases,
}
use bonghos.Authorization.{Permission, PermissionDefinition, permission_info}
use bonghos.Roles.State.{PermissionMap, assign, all_hold, supported, enforce_pass, enforce}

abbrev pub Below : PermissionMap → PermissionMap → Type 0
Below s m = (p : Permission) → s p ≡ true → m p ≡ true

-- Each permission that the map holds is in the catalog, and the map holds all that it requires.
abbrev pub IsClosed : PermissionMap → Type 0
IsClosed m = (p : Permission) → m p ≡ true → supported m p ≡ true

all_hold_mono :
    (s m : PermissionMap) (o : Option PermissionDefinition)
    → Below s m
    → all_hold s o ≡ true
    → all_hold m o ≡ true
all_hold_mono s m none b h = h
all_hold_mono s m (some d) b h = In-all m d.requires (λ q i. b q (all-In s d.requires h q i))

pub supported_mono :
    (s m : PermissionMap) (p : Permission) → Below s m → supported s p ≡ true → supported m p ≡ true
unfolding supported
supported_mono s m p b h = all_hold_mono s m (permission_info p) b h

assign-Below : (m : PermissionMap) (p : Permission) → Below (assign m p false) m
assign-Below m p q h = ground arith

-- What one visit leaves of the map.
abbrev visit : PermissionMap → Permission → PermissionMap
visit m p = if m p && not (supported m p) then assign m p false else m

visit-Below : (m : PermissionMap) (p : Permission) → Below (visit m p) m
visit-Below m p q h = ground arith

visit_keeps : (s m : PermissionMap) (p : Permission) → IsClosed s → Below s m → Below s (visit m p)
visit_keeps s m p c b q h = ground (arith, eq_iff q p, b q h, supported_mono s m q b (c q h))

pass-Below : (ps : List Permission) (m : PermissionMap) (c : Bool) → Below (enforce_pass ps m c).0 m
unfolding enforce_pass
pass-Below [] m c q h = h
pass-Below (p ∷ ps) m c q h =
    visit-Below m p q (pass-Below ps (visit m p) (c || m p && not (supported m p)) q h)

pass_keeps :
    (ps : List Permission) (s m : PermissionMap) (c : Bool)
    → IsClosed s
    → Below s m
    → Below s (enforce_pass ps m c).0
unfolding enforce_pass
pass_keeps [] s m c k b = b
pass_keeps (p ∷ ps) s m c k b =
    pass_keeps ps s (visit m p) (c || m p && not (supported m p)) k (visit_keeps s m p k b)

or_false : (c d : Bool) → (c || d) ≡ false → d ≡ false
or_false c d h = ground arith

or_false_left : (c d : Bool) → (c || d) ≡ false → c ≡ false
or_false_left c d h = ground arith

visit_same :
    (m : PermissionMap) (p : Permission) → (m p && not (supported m p)) ≡ false → visit m p ≡ m
visit_same m p d = rw d

test_passes : (held ok : Bool) → (held && not ok) ≡ false → held ≡ true → ok ≡ true
test_passes held ok d t = ground arith

-- A pass that reports no change found every key that it visited supported.
pass_stable :
    (ps : List Permission) (m : PermissionMap) (c : Bool)
    → (enforce_pass ps m c).1 ≡ false
    → (c ≡ false)
      × ((enforce_pass ps m c).0 ≡ m)
      × ((p : Permission) → In p ps → m p ≡ true → supported m p ≡ true)
unfolding enforce_pass
pass_stable [] m c h = (h, refl, λ p i. absurd i)
pass_stable (p ∷ ps) m c h =
    let d = m p && not (supported m p) in
    let ih = pass_stable ps (visit m p) (c || d) h in
    let kept : d ≡ false = or_false c d ih.0 in
    let same : visit m p ≡ m = visit_same m p kept in
    (or_false_left c d ih.0, ih.1 ∙ same, found d kept same ih.2)
  where
    found :
        (d : Bool)
        → (m p && not (supported m p)) ≡ false
        → visit m p ≡ m
        → ((q : Permission) → In q ps → visit m p q ≡ true → supported (visit m p) q ≡ true)
        → (q : Permission) → In q (p ∷ ps)
        → m q ≡ true
        → supported m q ≡ true
    found d kept same below q (inl e) t =
        subst (λ x. supported m x ≡ true) (sym e)
          (test_passes (m p) (supported m p) kept (subst (λ x. m x ≡ true) e t))
    found d kept same below q (inr i) t =
        subst (λ x. supported x q ≡ true) same (below q i (subst (λ x. x q ≡ true) (sym same) t))

-- A pass that reports a change holds fewer of the keys.
module _ (keys : List Permission) where
  count_mono :
      (s m : PermissionMap) (ks : List Permission) → Below s m → count_if s ks ≤ count_if m ks
  count_mono s m [] b = omega arith
  count_mono s m (k ∷ ks) b = ground (arith, b k, count_mono s m ks b)

  count_drop :
      (m : PermissionMap) (p : Permission) (ks : List Permission)
      → m p ≡ true
      → In p ks
      → count_if (assign m p false) ks < count_if m ks
  count_drop m p [] t i = absurd i
  count_drop m p (k ∷ ks) t (inl e) =
      ground
        (arith, eq_iff k p, sym e, ap m e, count_mono (assign m p false) m ks (assign-Below m p))
  count_drop m p (k ∷ ks) t (inr i) = ground (arith, count_drop m p ks t i, assign-Below m p k)

  pass_changes :
      (ps : List Permission) (m : PermissionMap)
      → ((p : Permission) → m p ≡ true → In p keys)
      → (enforce_pass ps m false).1 ≡ true
      → count_if (enforce_pass ps m false).0 keys < count_if m keys
  unfolding enforce_pass
  pass_changes [] m k h = cc
  pass_changes (p ∷ ps) m k h = elim (Bool-cases (m p && not (supported m p))) [
    | inl d ↦
        rw (enforce_pass, d)
          (omega (
            arith,
            count_mono (enforce_pass ps (assign m p false) true).0 (assign m p false) keys
                (pass-Below ps (assign m p false) true),
            count_drop m p keys (held d) (k p (held d)),
          ))
    | inr d ↦ rw (enforce_pass, d) (pass_changes ps m k (rw (enforce_pass, d) at h))
  ]
    where
      held : (m p && not (supported m p)) ≡ true → m p ≡ true
      held d = ground arith

-- What enforcePermissionDependencies is to compute: the greatest closed map below `m`.
pub record IsGreatestClosed (m r : PermissionMap) : Type 0 where
  pub below : Below r m
  pub closed : IsClosed r
  pub greatest : (s : PermissionMap) → IsClosed s → Below s m → Below s r

-- If `keys` has every permission that the map holds, every pass visits all of those, and there is more
-- fuel than the map holds permissions, then enforcePermissionDependencies ends and answers with the
-- greatest map below the given one that is closed under requirements.
pub enforce_from :
    (keys : List Permission) (fuel : ℕ) (orders : ℕ → List Permission) (m : PermissionMap)
    → ((p : Permission) → m p ≡ true → In p keys)
    → ((n : ℕ) (p : Permission) → m p ≡ true → In p (orders n))
    → count_if m keys < fuel
    → (r : PermissionMap) × (enforce fuel orders m ≡ some r) × IsGreatestClosed m r
unfolding enforce
enforce_from keys zero orders m k o f = absurd (omega arith)
enforce_from keys (suc fuel) orders m k o f =
    elim (Bool-cases (enforce_pass (orders 0) m false).1) [
      | inr stable ↦
          let q = pass_stable (orders 0) m false stable in
          (
            m,
            rw stable (ap some q.1),
            record { below = λ p t. t; closed = λ p t. q.2 p (o 0 p t) t; greatest = λ s c b. b },
          )
      | inl changed ↦
          let m' = (enforce_pass (orders 0) m false).0 in
          let b : Below m' m = pass-Below (orders 0) m false in
          let (r, e, g) =
            enforce_from keys fuel (λ n. orders (suc n)) m' (λ p t. k p (b p t))
              (λ n p t. o (suc n) p (b p t))
              (omega (arith, pass_changes keys (orders 0) m k changed)) in
          (
            r,
            rw changed e,
            record {
              below = λ p t. b p (g.below p t);
              closed = g.closed;
              greatest = λ s c l. g.greatest s c (pass_keeps (orders 0) s m false c l);
            },
          )
    ]
