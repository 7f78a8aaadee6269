-- ===== src/Paths/RootLaws.antt =====
-- Which candidates WithinRoot accepts, and what SafeJoin and the like can answer.
use bonghos.Base.{
  ◌≡◌, ◌↔◌, refl, sym, ap, subst, ◌∙◌, ◌⊎◌, inl, inr, Bool, true, false, not, List, [], ◌∷◌, ◌++◌,
  none, some, if◌then◌else◌, if-elim, All, Bool-cases, arith,
}
use bonghos.Base.Text.{Text, text_eq, text_eq→eq, text_eq_refl}
use bonghos.Paths.Clean.{dot_dot, is_abs, clean, render, join, rel_parts, rel, same_bool}
use bonghos.Paths.CleanLaws.{
  IsKept, kept_of, kept_of-IsKept, clean-parts, clean-rooted, clean-render, All-rev_append,
}
use bonghos.Paths.Root.{stays, within_root, safe_join}

-- The second path lies below the first, or is it.
abbrev pub IsBelow : List Text → List Text → Type 0
IsBelow root target = (rest : List Text) × (target ≡ root ++ rest)

abbrev pub NotUp : Text → Type 0
NotUp w = text_eq w dot_dot ≡ false

pub kept-NotUp : (kept : List Text) → IsKept true kept → All NotUp kept
kept-NotUp [] h = tt
kept-NotUp (w ∷ kept) (inl (p, k)) = (p.not_up, kept-NotUp kept k)
kept-NotUp (w ∷ kept) (inr (u, (r, k))) = cc r

pub rooted-NotUp : (t : Text) → is_abs t ≡ true → All NotUp (clean t).parts
rooted-NotUp t a = rw (clean-parts t) (
    All-rev_append NotUp (kept_of t) []
      (kept-NotUp (kept_of t) (subst (λ r. IsKept r (kept_of t)) a (kept_of-IsKept t))) tt)

pub rel_parts-IsBelow : (b t : List Text) → stays (rel_parts b t) ≡ true → IsBelow b t
unfolding rel_parts
rel_parts-IsBelow [] t h = (t, refl)
rel_parts-IsBelow (b ∷ bs) [] h = absurd (let f : false ≡ true = unfold text_eq in h in cc f)
rel_parts-IsBelow (b ∷ bs) (t ∷ ts) h = elim (Bool-cases (text_eq b t)) [
  | inl e ↦
      let below = rel_parts-IsBelow bs ts (ground (arith, h, e)) in
      (below.0, both below.0 (text_eq→eq b t e) below.1)
  | inr e ↦ absurd (apart e (Bool-cases (text_eq b dot_dot)))
]
  where
    both :
        (rest : List Text)
        → b ≡ t
        → ts ≡ bs ++ rest
        → ◌≡◌ {A = List Text} (t ∷ ts) (b ∷ (bs ++ rest))
    both rest e q = rw (e, q) refl

    apart : text_eq b t ≡ false → (text_eq b dot_dot ≡ true) ⊎ (text_eq b dot_dot ≡ false) → ⊥
    apart e (inl u) = let f : false ≡ true = rw (e, u) at h in cc f
    apart e (inr u) =
        let f : not (text_eq dot_dot dot_dot) ≡ true = rw (e, u) at h in
        let g : false ≡ true = unfold text_eq in f in cc g

pub IsBelow-rel_parts :
    (b rest : List Text) → All NotUp rest → stays (rel_parts b (b ++ rest)) ≡ true
unfolding rel_parts
IsBelow-rel_parts [] [] h = refl
IsBelow-rel_parts [] (r ∷ rest) h = rw h.0 refl
IsBelow-rel_parts (b ∷ bs) rest h = rw (text_eq_refl b) (IsBelow-rel_parts bs rest h)

-- Rel from an absolute path.
pub rel-absolute :
    (base target : Text)
    → is_abs base ≡ true
    → rel base target
      ≡ (if is_abs target then rel_parts (clean base).parts (clean target).parts else none)
unfolding rel
rel-absolute base target a =
    ap
      (λ r.
        if same_bool r (is_abs target)
        then rel_parts (clean base).parts (clean target).parts
        else none)
      a

-- WithinRoot, for an absolute root.
pub within_root-IsBelow :
    (root candidate : Text)
    → is_abs root ≡ true
    → within_root root candidate ≡ true
    → (is_abs candidate ≡ true) × IsBelow (clean root).parts (clean candidate).parts
unfolding within_root
within_root-IsBelow root candidate a h =
    elim (Bool-cases (text_eq (render (clean candidate)) (render (clean root)))) [
      | inl e ↦
          let same : clean candidate ≡ clean root =
            sym (clean-render candidate) ∙ (ap clean (text_eq→eq _ _ e) ∙ clean-render root) in
          (
            sym (clean-rooted candidate) ∙ (ap (λ p. p.rooted) same ∙ (clean-rooted root ∙ a)),
            ([], ap (λ p. p.parts) same ∙ sym (append_nil (clean root).parts)),
          )
      | inr e ↦
          let r : stays (rel root candidate) ≡ true = rw e at h in
          let t : stays (
                if is_abs candidate
                then rel_parts (clean root).parts (clean candidate).parts
                else none)
              ≡ true =
            ap stays (sym (rel-absolute root candidate a)) ∙ r in
          decided (is_abs candidate) t
    ]
  where
    append_nil : (xs : List Text) → xs ++ [] ≡ xs
    append_nil [] = refl
    append_nil (x ∷ xs) = ap (λ l. x ∷ l) (append_nil xs)

    decided :
        (b : Bool)
        → stays (if b then rel_parts (clean root).parts (clean candidate).parts else none) ≡ true
        → (b ≡ true) × IsBelow (clean root).parts (clean candidate).parts
    decided true t = (refl, rel_parts-IsBelow (clean root).parts (clean candidate).parts t)
    decided false t = cc t

below-NotUp : (b rest : List Text) → All NotUp (b ++ rest) → All NotUp rest
below-NotUp [] rest h = h
below-NotUp (b ∷ bs) rest h = below-NotUp bs rest h.1

pub IsBelow-within_root :
    (root candidate : Text)
    → is_abs root ≡ true
    → is_abs candidate ≡ true
    → IsBelow (clean root).parts (clean candidate).parts
    → within_root root candidate ≡ true
unfolding within_root
IsBelow-within_root root candidate a c (rest, q) =
    let up : All NotUp ((clean root).parts ++ rest) =
      subst (All NotUp) q (rooted-NotUp candidate c) in
    let inside : stays (rel_parts (clean root).parts (clean candidate).parts) ≡ true =
      rw q (IsBelow-rel_parts (clean root).parts rest (below-NotUp (clean root).parts rest up)) in
    if-elim (λ b. b ≡ true) (text_eq (render (clean candidate)) (render (clean root))) _ _
      (λ _. refl) (λ _. rw (rel-absolute root candidate a, c) inside)

-- For an absolute root, WithinRoot accepts exactly the absolute candidates whose cleaned elements
-- continue those of the root.
pub within_root_iff-IsBelow :
    (root candidate : Text)
    → is_abs root ≡ true
    → (within_root root candidate ≡ true)
      ↔ (is_abs candidate ≡ true) × IsBelow (clean root).parts (clean candidate).parts
within_root_iff-IsBelow root candidate a =
    (within_root-IsBelow root candidate a, λ p. IsBelow-within_root root candidate a p.0 p.1)

-- Whatever the parts, a path that SafeJoin answers with lies in the absolute root.
pub safe_join-IsBelow :
    (root out : Text) (parts : List Text)
    → is_abs root ≡ true
    → safe_join root parts ≡ some out
    → (is_abs out ≡ true) × IsBelow (clean root).parts (clean out).parts
unfolding safe_join
safe_join-IsBelow root out parts a h = elim (Bool-cases (within_root root (join (root ∷ parts)))) [
  | inl w ↦
      let e : join (root ∷ parts) ≡ out = ground (arith, h, w) in
      subst (λ t. (is_abs t ≡ true) × IsBelow (clean root).parts (clean t).parts) e
        (within_root-IsBelow root (join (root ∷ parts)) a w)
  | inr w ↦ absurd (ground (arith, h, w))
]
