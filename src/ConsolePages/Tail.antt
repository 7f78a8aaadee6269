-- ===== src/ConsolePages/Tail.antt =====
-- tailLines of source/internal/app/console_history.go: the last lines of a file, which is read from its end
-- in chunks. The content is a list of bytes, and the file can be read.
use bonghos.Base.{
  ◌||◌, ℕ, zero, suc, ◌+◌, ◌-◌, min, Bool, false, ◌&&◌, List, [], ◌∷◌, Option, none, some, map,
  if◌then◌else◌, eqb, ltb, leb, length, drop, take, count_if,
}
use bonghos.Base.Text.{Text, text_eq}
use bonghos.Base.Parse.{split_on}

abbrev pub line_feed : ℕ
line_feed = 10

abbrev pub return : ℕ
return = 13

abbrev pub breaks : Text → ℕ
breaks t = count_if (λ c. eqb c line_feed) t

abbrev pub next_is_break : Text → Bool
next_is_break [] = false
next_is_break (c ∷ t) = eqb c line_feed

-- `strings.ReplaceAll(text, "\r\n", "\n")`
unfoldable pub join_breaks : Text → Text
join_breaks [] = []
join_breaks (c ∷ t) =
    let rest = join_breaks t in if eqb c return && next_is_break t then rest else c ∷ rest

-- `strings.ReplaceAll(text, "\r", "\n")`
abbrev pub break_of : ℕ → ℕ
break_of c = if eqb c return then line_feed else c

unfoldable pub drop_last_empty : List Text → List Text
drop_last_empty [] = []
drop_last_empty (w ∷ []) = if text_eq w [] then [] else w ∷ []
drop_last_empty (w ∷ v ∷ ws) = w ∷ drop_last_empty (v ∷ ws)

-- The lines of a text.
unfoldable pub lines_of : Text → List Text
unfolding join_breaks drop_last_empty
lines_of t = drop_last_empty (split_on line_feed (map break_of (join_breaks t)))

-- The last `limit` of them.
abbrev pub last_of : ℕ → List Text → List Text
last_of limit lines = drop (length lines - limit) lines

abbrev pub chunk_size : ℕ
chunk_size = 32768

-- The loop over the chunks: the offset at which it stops; `none` is out of fuel.
unfoldable pub read_back : ℕ → ℕ → ℕ → Text → ℕ → ℕ → Option ℕ
read_back zero chunk limit content offset newlines = none
read_back (suc fuel) chunk limit content offset newlines =
    let n = min chunk offset in
    let rest =
      read_back fuel chunk limit content (offset - n)
        (newlines + breaks (take n (drop (offset - n) content))) in
    if ltb 0 offset && leb newlines limit then rest else some offset

abbrev pub lines_from : ℕ → Text → Option ℕ → Option (List Text)
lines_from limit content none = none
lines_from limit content (some offset) = some (last_of limit (lines_of (drop offset content)))

-- tailLines, for any size of the chunks.
unfoldable pub tail_lines : ℕ → ℕ → Text → Option (List Text)
tail_lines chunk limit content =
    if eqb limit 0 || eqb (length content) 0
    then some []
    else lines_from limit content
        (read_back (length content + 1) chunk limit content (length content) 0)
