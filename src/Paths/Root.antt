-- ===== src/Paths/Root.antt =====
-- WithinRoot and SafeJoin of source/internal/security/security.go.
use bonghos.Base.{
  Bool, true, false, ◌||◌, not, List, ◌∷◌, Option, none, some, if◌then◌else◌, eqb, any,
}
use bonghos.Base.Text.{Text, text_eq}
use bonghos.Paths.Clean.{is_abs, clean, render, join, rel, is_climbing}

abbrev pub stays : Option (List Text) → Bool
stays none = false
stays (some r) = not (is_climbing r)

-- WithinRoot
unfoldable pub within_root : Text → Text → Bool
unfolding render
within_root root candidate =
    if text_eq (render (clean candidate)) (render (clean root))
    then true
    else stays (rel root candidate)

abbrev pub has_nul : Text → Bool
has_nul t = any (λ c. eqb c 0) t

-- SafeJoin; `none` is ErrPathEscape.
unfoldable pub safe_join : Text → List Text → Option Text
safe_join root parts =
    if any (λ p. is_abs p || has_nul p) parts
    then none
    else if not (within_root root (join (root ∷ parts)))
    then none
    else some (join (root ∷ parts))
