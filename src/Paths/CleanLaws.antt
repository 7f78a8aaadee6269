-- ===== src/Paths/CleanLaws.antt =====
-- What filepath.Clean leaves, and that it leaves that alone.
use bonghos.Base.{
  ◌≡◌, refl, sym, ap, ◌∙◌, ◌⊎◌, inl, inr, Bool, true, false, ◌||◌, List, [], ◌∷◌, ◌++◌, if-elim,
  eqb, any, All, arith,
}
use bonghos.Base.Text.{Text, text_eq}
use bonghos.Paths.Clean.{
  slash, dot, dot_dot, is_abs, push_rune, split, climb, keep_part, keep_parts, rev_append, clean,
  join_parts, render,
}

-- An element that Clean keeps as it is.
pub record IsPlain (w : Text) : Type 0 where
  pub no_slash : any (λ c. eqb c slash) w ≡ false
  pub not_empty : text_eq w [] ≡ false
  pub not_dot : text_eq w dot ≡ false
  pub not_up : text_eq w dot_dot ≡ false

abbrev pub IsUp : Text → Type 0
IsUp w = w ≡ dot_dot

abbrev pub NoSlash : Text → Type 0
NoSlash w = any (λ c. eqb c slash) w ≡ false

-- The elements that are kept, the last one first: plain ones, and before them, in a path without a root,
-- any number of `..`.
abbrev pub IsKept : Bool → List Text → Type 0
IsKept rooted [] = Unit
IsKept rooted (w ∷ kept) =
    (IsPlain w × IsKept rooted kept) ⊎ (IsUp w × ((rooted ≡ false) × All IsUp kept))

ups-IsKept : (kept : List Text) → All IsUp kept → IsKept false kept
ups-IsKept [] h = tt
ups-IsKept (w ∷ kept) h = inr (h.0, (refl, h.1))

split-NoSlash : (t : Text) → All NoSlash (split t)
unfolding split
split-NoSlash [] = (refl, tt)
split-NoSlash (c ∷ t) =
    if-elim (All NoSlash) (eqb c slash) _ _ (λ e. (refl, split-NoSlash t))
      (λ e. pushed (split t) e (split-NoSlash t))
  where
    pushed : (ws : List Text) → eqb c slash ≡ false → All NoSlash ws → All NoSlash (push_rune c ws)
    pushed [] e h = (ground arith, tt)
    pushed (w ∷ ws) e h = (ground (arith, h.0), h.1)

climb-IsKept :
    (rooted : Bool) (kept : List Text) → IsKept rooted kept → IsKept rooted (climb rooted kept)
climb-IsKept true [] h = tt
climb-IsKept false [] h = inr (refl, (refl, tt))
climb-IsKept rooted (top ∷ kept) (inl (p, k)) = rw p.not_up k
climb-IsKept rooted (top ∷ kept) (inr (u, (r, k))) =
    if-elim (IsKept rooted) (text_eq top dot_dot) _ _ (λ _. inr (refl, (r, (u, k))))
      (λ _. rw r (ups-IsKept kept k))

keep_part-IsKept :
    (rooted : Bool) (part : Text) (kept : List Text)
    → NoSlash part
    → IsKept rooted kept
    → IsKept rooted (keep_part rooted part kept)
unfolding keep_part
keep_part-IsKept rooted part kept n h =
    if-elim (IsKept rooted) (text_eq part [] || text_eq part dot) _ _ (λ _. h)
      λ e.
        if-elim (IsKept rooted) (text_eq part dot_dot) _ _ (λ _. climb-IsKept rooted kept h)
          λ u. inl (
            record { no_slash = n; not_empty = ground arith; not_dot = ground arith; not_up = u },
            h,
          )

pub keep_parts-IsKept :
    (rooted : Bool) (parts kept : List Text)
    → All NoSlash parts
    → IsKept rooted kept
    → IsKept rooted (keep_parts rooted parts kept)
unfolding keep_parts
keep_parts-IsKept rooted [] kept n h = h
keep_parts-IsKept rooted (part ∷ parts) kept n h =
    keep_parts-IsKept rooted parts (keep_part rooted part kept) n.1
      (keep_part-IsKept rooted part kept n.0 h)

-- An element that is kept is kept again.
keep_part-again :
    (rooted : Bool) (w : Text) (kept : List Text)
    → IsKept rooted (w ∷ kept)
    → keep_part rooted w kept ≡ w ∷ kept
unfolding keep_part
keep_part-again rooted w kept (inl (p, k)) = rw (p.not_empty, p.not_dot, p.not_up) refl
keep_part-again rooted w kept (inr (u, (r, k))) = rw (u, r) (climbing kept k)
  where
    climbing : (ks : List Text) → All IsUp ks → keep_part false dot_dot ks ≡ dot_dot ∷ ks
    climbing [] h = unfold keep_part text_eq in refl
    climbing (k ∷ ks) h = unfold keep_part text_eq in rw (h.0) refl

pub tail-IsKept :
    (rooted : Bool) (w : Text) (kept : List Text) → IsKept rooted (w ∷ kept) → IsKept rooted kept
tail-IsKept rooted w kept (inl (p, k)) = k
tail-IsKept rooted w kept (inr (u, (r, k))) = rw r (ups-IsKept kept k)

pub keep_parts-rev_append :
    (rooted : Bool) (kept rest : List Text)
    → IsKept rooted kept
    → keep_parts rooted (rev_append kept rest) [] ≡ keep_parts rooted rest kept
unfolding rev_append
keep_parts-rev_append rooted [] rest h = refl
keep_parts-rev_append rooted (w ∷ kept) rest h =
    keep_parts-rev_append rooted kept (w ∷ rest) (tail-IsKept rooted w kept h)
    ∙ (unfold keep_parts in ap (keep_parts rooted rest) (keep_part-again rooted w kept h))

-- Writing out and splitting again.
pub split-slash : (w t : Text) → NoSlash w → split (w ++ slash ∷ t) ≡ w ∷ split t
unfolding split
split-slash [] t h = refl
split-slash (c ∷ w) t h =
    let e : eqb c slash ≡ false = ground arith in rw (e, split-slash w t (ground arith)) refl

pub split-word : (w : Text) → NoSlash w → split w ≡ w ∷ []
unfolding split
split-word [] h = refl
split-word (c ∷ w) h =
    let e : eqb c slash ≡ false = ground arith in rw (e, split-word w (ground arith)) refl

pub split-join_parts :
    (w : Text) (ws : List Text) → All NoSlash (w ∷ ws) → split (join_parts (w ∷ ws)) ≡ w ∷ ws
unfolding join_parts
split-join_parts w [] h = split-word w h.0
split-join_parts w (v ∷ ws) h =
    split-slash w (join_parts (v ∷ ws)) h.0 ∙ ap (λ l. w ∷ l) (split-join_parts v ws h.1)

-- An element that survives writing out and splitting.
pub record IsWord (w : Text) : Type 0 where
  pub no_slash : NoSlash w
  pub not_empty : text_eq w [] ≡ false

pub kept-IsWord : (rooted : Bool) (kept : List Text) → IsKept rooted kept → All IsWord kept
kept-IsWord rooted [] h = tt
kept-IsWord rooted (w ∷ kept) (inl (p, k)) =
    (record { no_slash = p.no_slash; not_empty = p.not_empty }, kept-IsWord rooted kept k)
kept-IsWord rooted (w ∷ kept) (inr (u, (r, k))) = (up w u, ups kept k)
  where
    up : (v : Text) → IsUp v → IsWord v
    up v e = unfold text_eq in record { no_slash = rw e refl; not_empty = rw e refl }

    ups : (vs : List Text) → All IsUp vs → All IsWord vs
    ups [] h = tt
    ups (v ∷ vs) h = (up v h.0, ups vs h.1)

pub All-rev_append :
    (P : Text → Type 0) (xs ys : List Text) → All P xs → All P ys → All P (rev_append xs ys)
unfolding rev_append
All-rev_append P [] ys h k = k
All-rev_append P (x ∷ xs) ys h k = All-rev_append P xs (x ∷ ys) h.1 (h.0, k)

word-slash : (ws : List Text) → All IsWord ws → All NoSlash ws
word-slash [] h = tt
word-slash (w ∷ ws) h = (h.0.no_slash, word-slash ws h.1)

pub kept-again :
    (rooted : Bool) (kept : List Text)
    → IsKept rooted kept
    → keep_parts rooted (rev_append kept []) [] ≡ kept
kept-again rooted kept h = keep_parts-rev_append rooted kept [] h ∙ (unfold keep_parts in refl)

-- Splitting what was written out: the elements, or one that Clean skips.
split-kept :
    (rooted : Bool) (ws : List Text)
    → All IsWord ws
    → keep_parts rooted (split (join_parts ws)) [] ≡ keep_parts rooted ws []
split-kept rooted [] h = unfold join_parts split keep_parts keep_part text_eq in refl
split-kept rooted (w ∷ ws) h =
    ap (λ l. keep_parts rooted l []) (split-join_parts w ws (word-slash (w ∷ ws) h))

relative : (w : Text) (ws : List Text) → IsWord w → is_abs (join_parts (w ∷ ws)) ≡ false
unfolding join_parts text_eq
relative [] ws h = absurd (let b : true ≡ false = h.not_empty in cc)
relative (c ∷ w) [] h = let n = h.no_slash in ground arith
relative (c ∷ w) (v ∷ ws) h = let n = h.no_slash in ground arith

pub render-parts :
    (rooted : Bool) (ws : List Text)
    → All IsWord ws
    → clean (render (record { rooted = rooted; parts = ws }))
      ≡ record { rooted = rooted; parts = rev_append (keep_parts rooted ws []) [] }
unfolding clean render
render-parts true ws h =
    ap (λ l. record { rooted = true; parts = rev_append l [] })
      (rooted_split ∙ split-kept true ws h)
  where
    rooted_split :
        keep_parts true (split (slash ∷ join_parts ws)) []
        ≡ keep_parts true (split (join_parts ws)) []
    rooted_split = unfold split keep_parts keep_part text_eq in refl
render-parts false [] h = unfold split keep_parts keep_part text_eq rev_append in refl
render-parts false (w ∷ ws) h =
    rw (relative w ws h.0)
      (ap (λ l. record { rooted = false; parts = rev_append l [] }) (split-kept false (w ∷ ws) h))

-- What Clean keeps of a path.
pub kept_of : Text → List Text
kept_of t = keep_parts (is_abs t) (split t) []

pub kept_of-IsKept : (t : Text) → IsKept (is_abs t) (kept_of t)
unfolding kept_of
kept_of-IsKept t = keep_parts-IsKept (is_abs t) (split t) [] (split-NoSlash t) tt

pub clean-parts : (t : Text) → (clean t).parts ≡ rev_append (kept_of t) []
unfolding clean kept_of
clean-parts t = refl

pub clean-rooted : (t : Text) → (clean t).rooted ≡ is_abs t
unfolding clean
clean-rooted t = refl

-- Clean leaves a path that it has cleaned as it is.
pub clean-render : (t : Text) → clean (render (clean t)) ≡ clean t
clean-render t =
    let k = kept_of-IsKept t in
    let ws = All-rev_append IsWord (kept_of t) [] (kept-IsWord (is_abs t) (kept_of t) k) tt in
    ap (λ p. clean (render p)) (shape t)
    ∙ (render-parts (is_abs t) (rev_append (kept_of t) []) ws
        ∙ (ap (λ l. record { rooted = is_abs t; parts = rev_append l [] })
              (kept-again (is_abs t) (kept_of t) k)
            ∙ sym (shape t)))
  where
    shape : (u : Text) → clean u ≡ record { rooted = is_abs u; parts = rev_append (kept_of u) [] }
    shape u = unfold clean kept_of in refl
