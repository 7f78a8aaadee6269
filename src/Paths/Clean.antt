-- ===== src/Paths/Clean.antt =====
-- The parts of Go's path/filepath (on Unix) that source/internal/security/security.go and
-- source/internal/files/archive.go stand on: Clean, Join, Rel, IsAbs and Dir. A path is the list of its bytes.
use bonghos.Base.{
  ℕ, Bool, true, false, ◌||◌, not, List, [], ◌∷◌, ◌++◌, Option, none, some, map, if◌then◌else◌, eqb,
}
use bonghos.Base.Text.{Text, text_eq}

abbrev pub slash : ℕ
slash = 0x2f

abbrev pub dot : Text
dot = 0x2e ∷ []

abbrev pub dot_dot : Text
dot_dot = 0x2e ∷ 0x2e ∷ []

-- filepath.IsAbs
abbrev pub is_abs : Text → Bool
is_abs [] = false
is_abs (c ∷ t) = eqb c slash

abbrev pub push_rune : ℕ → List Text → List Text
push_rune c [] = (c ∷ []) ∷ []
push_rune c (w ∷ ws) = (c ∷ w) ∷ ws

-- The elements between slashes, the empty ones too.
unfoldable pub split : Text → List Text
split [] = [] ∷ []
split (c ∷ t) = let rest = split t in if eqb c slash then [] ∷ rest else push_rune c rest

-- A cleaned path: whether it begins with a slash, and its elements.
pub record CleanPath : Type 0 where
  pub rooted : Bool
  pub parts : List Text

-- `..` behind the elements kept so far, the last one first.
abbrev pub climb : Bool → List Text → List Text
climb true [] = []
climb false [] = dot_dot ∷ []
climb rooted (top ∷ kept) = if text_eq top dot_dot then dot_dot ∷ top ∷ kept else kept

unfoldable pub keep_part : Bool → Text → List Text → List Text
keep_part rooted part kept =
    if text_eq part [] || text_eq part dot
    then kept
    else if text_eq part dot_dot
    then climb rooted kept
    else part ∷ kept

unfoldable pub keep_parts : Bool → List Text → List Text → List Text
keep_parts rooted [] kept = kept
keep_parts rooted (part ∷ parts) kept = keep_parts rooted parts (keep_part rooted part kept)

unfoldable pub rev_append : List Text → List Text → List Text
rev_append [] ys = ys
rev_append (x ∷ xs) ys = rev_append xs (x ∷ ys)

-- filepath.Clean, before it is written out.
unfoldable pub clean : Text → CleanPath
unfolding split keep_parts rev_append
clean t = record { rooted = is_abs t; parts = rev_append (keep_parts (is_abs t) (split t) []) [] }

unfoldable pub join_parts : List Text → Text
join_parts [] = []
join_parts (w ∷ []) = w
join_parts (w ∷ v ∷ ws) = w ++ slash ∷ join_parts (v ∷ ws)

abbrev pub or_dot : List Text → Text
or_dot [] = dot
or_dot (w ∷ ws) = join_parts (w ∷ ws)

-- The text of a cleaned path.
unfoldable pub render : CleanPath → Text
render p = if p.rooted then slash ∷ join_parts p.parts else or_dot p.parts

abbrev pub drop_empty : List Text → List Text
drop_empty [] = []
drop_empty ([] ∷ ws) = drop_empty ws
drop_empty ((c ∷ w) ∷ ws) = (c ∷ w) ∷ ws

abbrev clean_joined : List Text → Text
clean_joined [] = []
clean_joined (w ∷ ws) = render (clean (join_parts (w ∷ ws)))

-- filepath.Join
unfoldable pub join : List Text → Text
join elements = clean_joined (drop_empty elements)

-- filepath.Rel of cleaned elements: `none` is its error.
unfoldable pub rel_parts : List Text → List Text → Option (List Text)
rel_parts [] target = some target
rel_parts (b ∷ base) [] = some (map (λ w. dot_dot) (b ∷ base))
rel_parts (b ∷ base) (t ∷ target) =
    let rest = rel_parts base target in
    if text_eq b t
    then rest
    else if text_eq b dot_dot
    then none
    else some (map (λ w. dot_dot) (b ∷ base) ++ t ∷ target)

abbrev pub same_bool : Bool → Bool → Bool
same_bool true b = b
same_bool false b = not b

unfoldable pub rel : Text → Text → Option (List Text)
unfolding clean rel_parts
rel base target =
    if same_bool (clean base).rooted (clean target).rooted
    then rel_parts (clean base).parts (clean target).parts
    else none

-- `rel == ".." || strings.HasPrefix(rel, "../")`
abbrev pub is_climbing : List Text → Bool
is_climbing [] = false
is_climbing (w ∷ ws) = text_eq w dot_dot

unfoldable pub but_last : List Text → List Text
but_last [] = []
but_last (w ∷ []) = []
but_last (w ∷ v ∷ ws) = w ∷ but_last (v ∷ ws)

-- filepath.Dir of a cleaned path.
unfoldable pub dir : Text → Text
unfolding render but_last
dir t = render (record { rooted = (clean t).rooted; parts = but_last (clean t).parts })
