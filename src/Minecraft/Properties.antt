-- ===== src/Minecraft/Properties.antt =====
-- server.properties: ReadProperties, WriteProperty and WorldDir of source/internal/minecraft/players.go, on
-- the content of the file.
use bonghos.Base.{
  ℕ, Bool, false, ◌&&◌, ◌||◌, not, List, [], ◌∷◌, ◌++◌, Option, none, some, map, if◌then◌else◌, eqb,
  any,
}
use bonghos.Base.Text.{Text, text_eq, codes, trim_space}
use bonghos.Base.Parse.{split_on, cut_at}
use bonghos.Paths.Clean.{is_abs}

abbrev pub newline : ℕ
newline = 10

abbrev pub is_comment : Text → Bool
is_comment [] = false
is_comment (c ∷ t) = eqb c b'#'

abbrev pub trimmed_pair : Option (Text × Text) → Option (Text × Text)
trimmed_pair none = none
trimmed_pair (some p) = some (trim_space p.0, trim_space p.1)

-- The assignment on a line.
unfoldable pub read_line : Text → Option (Text × Text)
read_line line =
    let t = trim_space line in
    if text_eq t [] || is_comment t then none else trimmed_pair (cut_at b'=' t)

abbrev pub add_assignment : Option (Text × Text) → List (Text × Text) → List (Text × Text)
add_assignment none rest = rest
add_assignment (some p) rest = p ∷ rest

unfoldable pub read_lines : List Text → List (Text × Text)
unfolding read_line
read_lines [] = []
read_lines (line ∷ lines) = add_assignment (read_line line) (read_lines lines)

-- ReadProperties: the assignments to the map, in order.
unfoldable pub read_properties : Text → List (Text × Text)
unfolding read_lines
read_properties content = read_lines (split_on newline content)

-- What the map holds: of the assignments to a key the last one counts.
unfoldable pub lookup : Text → List (Text × Text) → Option Text
lookup key [] = none
lookup key (p ∷ ps) = elim (lookup key ps) [
  | some v ↦ some v
  | none ↦ if text_eq p.0 key then some p.1 else none
]

abbrev pub has_key : Text → Option (Text × Text) → Bool
has_key key none = false
has_key key (some p) = text_eq (trim_space p.0) key

-- A line that WriteProperty replaces.
unfoldable pub assigns : Text → Text → Bool
assigns key line = let t = trim_space line in not (is_comment t) && has_key key (cut_at b'=' t)

abbrev pub assignment : Text → Text → Text
assignment key value = key ++ b'=' ∷ value

abbrev pub write_line : Text → Text → Text → Text
write_line key value line = if assigns key line then assignment key value else line

unfoldable pub write_lines : Text → Text → List Text → List Text
write_lines key value lines =
    let changed = map (write_line key value) lines in
    if any (assigns key) lines then changed else changed ++ assignment key value ∷ []

unfoldable pub join_lines : List Text → Text
join_lines [] = []
join_lines (w ∷ []) = w
join_lines (w ∷ v ∷ ws) = w ++ newline ∷ join_lines (v ∷ ws)

-- WriteProperty
unfoldable pub write_property : Text → Text → Text → Text
unfolding write_lines join_lines
write_property key value content = join_lines (write_lines key value (split_on newline content))

-- `strings.Contains(lv, "..")`
unfoldable pub has_dots : Text → Bool
has_dots [] = false
has_dots (c ∷ []) = false
has_dots (c ∷ d ∷ t) = (eqb c b'.' && eqb d b'.') || has_dots (d ∷ t)

abbrev pub world_of : Option Text → Text
world_of none = codes "world"
world_of (some lv) =
    if not (text_eq lv []) && (not (has_dots lv) && not (is_abs lv)) then lv else codes "world"

-- WorldDir; `none` is a file that cannot be read.
unfoldable pub world_dir : Option Text → Text
world_dir none = codes "world"
world_dir (some content) = world_of (lookup (codes "level-name") (read_properties content))
