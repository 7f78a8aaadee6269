-- ===== src/Supervisor/ConsoleShows.antt =====
-- What SanitizeLine of console_text.go can show at all.
use bonghos.Base.{ℕ, ◌≤◌, ◌≡◌, Bool, true, false, ◌&&◌, not, [], ◌∷◌, leb, eqb}
use bonghos.Base.Text.{Text, codes}
use bonghos.Supervisor.ConsoleText.{is_format, Action, pass, reset, write}

-- A code point that shows: no C0 control, not DEL, no format character.
pub record Shows (r : ℕ) : Type 0 where
  pub no_control : 0x20 ≤ r
  pub no_delete : eqb r 0x7f ≡ false
  pub no_format : is_format r ≡ false

abbrev Writes : Action → Type 0
Writes (pass n) = Unit
Writes (reset n) = Unit
Writes (write r n) = Shows r

abbrev shows : ℕ → Bool
shows r = leb 0x20 r && (not (eqb r 0x7f) && not (is_format r))

abbrev all_show : Text → Bool
all_show [] = true
all_show (r ∷ rs) = shows r && all_show rs

abbrev marker : Text
marker = codes " …[truncated]"
