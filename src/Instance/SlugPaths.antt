-- ===== src/Instance/SlugPaths.antt =====
-- Where the directories of a valid name lie: RelativeDirFor of source/internal/instance/instance.go.
use bonghos.Base.{◌≡◌, refl, ap, ◌∙◌, true, false, ◌||◌, List, [], ◌∷◌, ◌++◌, eqb, any, arith}
use bonghos.Base.Text.{Text, text_eq, codes}
use bonghos.Paths.Clean.{
  slash, dot, dot_dot, is_abs, keep_part, keep_parts, rev_append, clean, join_parts, join, render,
}
use bonghos.Paths.CleanLaws.{NoSlash, split-slash, split-word, clean-render}
use bonghos.Instance.Slug.{validate_slug, relative_dir_for, backup_dir_for}

-- A valid name is a single element of a path.
record IsElement (s : Text) : Type 0 where
  no_slash : NoSlash s
  not_empty : text_eq s [] ≡ false
  not_dot : text_eq s dot ≡ false
  not_up : text_eq s dot_dot ≡ false

any-slash : (s : Text) → any (λ c. eqb c 0x2f || eqb c 0x5c) s ≡ false → NoSlash s
any-slash [] h = refl
any-slash (c ∷ s) h = ground (arith, h, any-slash s)

valid-IsElement : (s : Text) → validate_slug s ≡ true → IsElement s
unfolding validate_slug
valid-IsElement s h = record {
  no_slash = any-slash s (ground (arith, h));
  not_empty = ground (arith, h);
  not_dot = ground (arith, h);
  not_up = ground (arith, h);
}

kept-element : (s : Text) (kept : List Text) → IsElement s → keep_part false s kept ≡ s ∷ kept
unfolding keep_part
kept-element s kept h = rw (h.not_empty, h.not_dot, h.not_up) refl

-- Four elements, joined and cleaned.
four_elements :
    (a b c s : Text)
    → IsElement a
    → IsElement b
    → IsElement c
    → IsElement s
    → is_abs (a ++ slash ∷ (b ++ slash ∷ (c ++ slash ∷ s))) ≡ false
    → (clean (a ++ slash ∷ (b ++ slash ∷ (c ++ slash ∷ s)))).parts ≡ a ∷ b ∷ c ∷ s ∷ []
unfolding clean
four_elements a b c s i j k l r =
    rw
      (
        r,
        split-slash a (b ++ slash ∷ (c ++ slash ∷ s)) i.no_slash,
        split-slash b (c ++ slash ∷ s) j.no_slash,
        split-slash c s k.no_slash,
        split-word s l.no_slash,
      )
      (unfold keep_parts rev_append in
        rw
          (
            kept-element a [] i,
            kept-element b (a ∷ []) j,
            kept-element c (b ∷ a ∷ []) k,
            kept-element s (c ∷ b ∷ a ∷ []) l,
          )
          refl)

element :
    (w : Text)
    → NoSlash w
    → text_eq w [] || (text_eq w dot || text_eq w dot_dot) ≡ false
    → IsElement w
element w n h = record {
  no_slash = n;
  not_empty = ground (arith, h);
  not_dot = ground (arith, h);
  not_up = ground (arith, h);
}

-- Below one of the two trees, the elements of a valid name's directory.
below :
    (tree s : Text)
    → IsElement tree
    → IsElement s
    → is_abs (tree ++ slash ∷ (codes "minecraft-java/modded" ++ slash ∷ s)) ≡ false
    → (clean (render (clean (tree ++ slash ∷ (codes "minecraft-java/modded" ++ slash ∷ s))))).parts
      ≡ tree ∷ codes "minecraft-java" ∷ codes "modded" ∷ s ∷ []
below tree s i l r =
    ap (λ p. p.parts) (clean-render (tree ++ slash ∷ (codes "minecraft-java/modded" ++ slash ∷ s)))
    ∙ four_elements tree (codes "minecraft-java") (codes "modded") s i
        (element (codes "minecraft-java") refl (unfold text_eq in refl))
        (element (codes "modded") refl (unfold text_eq in refl)) l r

-- The server directory and the backup directory of a valid name are exactly the directory of that name below
-- the two trees.
pub relative_dir_for-parts :
    (s : Text)
    → validate_slug s ≡ true
    → ((clean (relative_dir_for s)).parts
        ≡ codes "servers" ∷ codes "minecraft-java" ∷ codes "modded" ∷ s ∷ [])
      × ((clean (backup_dir_for s)).parts
          ≡ codes "backups" ∷ codes "minecraft-java" ∷ codes "modded" ∷ s ∷ [])
unfolding relative_dir_for backup_dir_for join
relative_dir_for-parts [] h = let b : false ≡ true = unfold validate_slug text_eq in h in cc b
relative_dir_for-parts (c ∷ s) h =
    unfold join_parts in
    (
      below (codes "servers") (c ∷ s) (element (codes "servers") refl (unfold text_eq in refl))
          (valid-IsElement (c ∷ s) h) refl,
      below (codes "backups") (c ∷ s) (element (codes "backups") refl (unfold text_eq in refl))
          (valid-IsElement (c ∷ s) h) refl,
    )
