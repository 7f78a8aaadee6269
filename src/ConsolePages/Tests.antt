-- ===== src/ConsolePages/Tests.antt =====
-- Tests of the pages of console history.
use bonghos.Base.Parse.{split_on}
use bonghos.Base.{◌≡◌, refl, ◌++◌, [], ◌∷◌, none, some, negsuc, arith}
use bonghos.Base.Text.{trim_space, text_eq, Text, codes}
use bonghos.ConsolePages.History.{append_history, snapshot, page}
use bonghos.ConsolePages.Tail.{read_back, last_of, lines_of, tail_lines}
use bonghos.ConsolePages.TailLaws.{tail_lines_lem}

-- Four lines, one ended by a carriage return, one by both.
abbrev log : Text
log =
    codes "one" ++ 13 ∷ (codes "two" ++ 13 ∷ 10 ∷ (codes "three" ++ 10 ∷ (codes "four" ++ 10 ∷ [])))

four_lines : lines_of log ≡ codes "one" ∷ codes "two" ∷ codes "three" ∷ codes "four" ∷ []
unfolding lines_of split_on text_eq
four_lines = refl

-- Chunks of three bytes cut lines apart.
two_lines : tail_lines 3 2 log ≡ some (codes "three" ∷ codes "four" ∷ [])
unfolding tail_lines read_back lines_of split_on text_eq
two_lines = refl

tail_lines_lem_example : tail_lines 3 2 log ≡ some (last_of 2 (lines_of log))
tail_lines_lem_example = tail_lines_lem 3 2 log (omega arith) (omega arith)

snapshot_test : snapshot 1 (append_history (codes "b") (codes "a" ∷ [])) ≡ codes "b" ∷ []
unfolding snapshot append_history
snapshot_test = refl

-- A log of blank lines does not count.
page_test :
    page (λ n. some (codes " " ∷ []) ∷ none ∷ []) (codes "a" ∷ codes "b" ∷ []) (some (negsuc 3))
    ≡ codes "b" ∷ []
unfolding page text_eq trim_space snapshot
page_test = refl
