-- ===== src/Paths/Tests.antt =====
-- Tests of the path functions.
use bonghos.Base.{if◌then◌else◌, ◌≡◌, refl, true, false, [], ◌∷◌, none}
use bonghos.Base.Text.{trim_space, text_eq, Text, codes}
use bonghos.Paths.Clean.{is_abs, rel, keep_part, join_parts, clean, render, join, dir}
use bonghos.Paths.Root.{within_root, safe_join}
use bonghos.Paths.Eval.{
  base, climb_from, Resolved, resolved, missing, inside, escape, eval_within_root, resolve,
}
use bonghos.Paths.RootLaws.{IsBelow, within_root_iff-IsBelow}

cleaned : render (clean (codes "/a/./b//../c/")) ≡ codes "/a/c"
unfolding render clean join_parts keep_part text_eq
cleaned = refl

above_root : render (clean (codes "/../../a")) ≡ codes "/a"
unfolding render clean join_parts keep_part text_eq
above_root = refl

relative_up : render (clean (codes "../a/../..")) ≡ codes "../.."
unfolding render clean keep_part text_eq join_parts
relative_up = refl

nothing : render (clean []) ≡ codes "."
unfolding render clean keep_part text_eq
nothing = refl

parent : dir (codes "/srv/data/file") ≡ codes "/srv/data"
unfolding dir clean join_parts keep_part text_eq
parent = refl

joined : join (codes "/srv" ∷ [] ∷ codes "../etc" ∷ []) ≡ codes "/etc"
unfolding join render clean join_parts keep_part text_eq
joined = refl

sibling_prefix : within_root (codes "/srv/data") (codes "/srv/data2") ≡ false
unfolding within_root text_eq clean join_parts keep_part rel
sibling_prefix = refl

escape_refused : safe_join (codes "/srv") (codes "../etc" ∷ []) ≡ none
unfolding safe_join within_root text_eq clean join join_parts keep_part rel
escape_refused = refl

within_root_iff-IsBelow_example :
    (is_abs (codes "/srv/a") ≡ true)
    × IsBelow (clean (codes "/srv")).parts (clean (codes "/srv/a")).parts
unfolding within_root text_eq clean join_parts keep_part rel
within_root_iff-IsBelow_example =
    (within_root_iff-IsBelow (codes "/srv") (codes "/srv/a") refl).0 refl

-- `/srv` is a directory, and `/srv/l` a link to `/etc`.
abbrev links : Text → Resolved
links t =
    if text_eq t (codes "/srv")
    then resolved (codes "/srv")
    else if text_eq t (codes "/srv/l")
    then resolved (codes "/etc")
    else missing

through_link : eval_within_root links (codes "/") (codes "/srv") (codes "/srv/l/passwd") ≡ escape
unfolding eval_within_root text_eq render clean join_parts keep_part climb_from dir within_root join
    base rel
through_link = refl

new_file :
    eval_within_root links (codes "/") (codes "/srv") (codes "/srv/a/b") ≡ inside (codes "/srv/a/b")
unfolding eval_within_root text_eq render clean join_parts keep_part climb_from dir within_root join
    base rel
new_file = refl

resolve_test :
    resolve links (codes "/") (codes "/srv") (codes " /a/../b ") ≡ inside (codes "/srv/b")
unfolding resolve safe_join trim_space within_root text_eq clean join join_parts keep_part rel
    climb_from dir base
resolve_test = refl
