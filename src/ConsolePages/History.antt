-- ===== src/ConsolePages/History.antt =====
-- The lines that source/internal/app/console_history.go keeps, and the page that it answers with.
use bonghos.Base.{
  ℕ, ◌-◌, min, Bool, not, List, [], ◌∷◌, ◌++◌, Option, none, some, if◌then◌else◌, eqb, ltb, length,
  drop, any, ℤ, pos, negsuc,
}
use bonghos.Base.Text.{Text, text_eq, trim_space}

abbrev pub history_limit : ℕ
history_limit = 1000

-- appendConsoleHistory
unfoldable pub append_history : Text → List Text → List Text
append_history line history =
    let longer = history ++ line ∷ [] in
    if ltb history_limit (length longer)
    then drop (length longer - history_limit) longer
    else longer

-- resetConsoleHistory
unfoldable pub reset_history : List Text → List Text
reset_history history = []

-- consoleHistorySnapshot, for a limit that is not negative.
unfoldable pub snapshot : ℕ → List Text → List Text
snapshot limit history = drop (length history - min limit (length history)) history

-- The limit of the page, of what the request gives as a number.
abbrev pub clamp : ℤ → ℕ
clamp (negsuc n) = 1
clamp (pos n) = if ltb n 1 then 1 else if ltb history_limit n then history_limit else n

abbrev pub page_limit : Option ℤ → ℕ
page_limit none = history_limit
page_limit (some n) = clamp n

-- hasConsoleContent
abbrev pub has_content : List Text → Bool
has_content lines = any (λ l. not (text_eq (trim_space l) [])) lines

-- consoleHistoryFromLog: the tails of the three logs, `none` where one cannot be read.
unfoldable pub first_with_content : List (Option (List Text)) → List Text
first_with_content [] = []
first_with_content (none ∷ logs) = first_with_content logs
first_with_content (some lines ∷ logs) =
    let rest = first_with_content logs in if has_content lines then lines else rest

-- handleConsoleHistory; `logs` gives the tails of the logs of the active server for a limit.
unfoldable pub page : (ℕ → List (Option (List Text))) → List Text → Option ℤ → List Text
unfolding first_with_content
page logs history asked =
    let limit = page_limit asked in
    let lines = first_with_content (logs limit) in
    if eqb (length lines) 0 then snapshot limit history else lines
