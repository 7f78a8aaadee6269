-- ===== src/Supervisor/ConsoleReads.antt =====
-- What an operator can read of the lines that readConsole of supervisor.go takes in.
use bonghos.Base.{ℕ, ◌≡◌, List, ◌++◌, All, drop}
use bonghos.Base.Text.{Text}
use bonghos.Supervisor.History.{IsTidy}
use bonghos.Supervisor.ConsoleShows.{Shows}
use bonghos.Supervisor.Console.{Console, append_log}

-- The first list is an end of the second one.
abbrev pub IsEnd : List Text → List Text → Type 0
IsEnd xs ys = (n : ℕ) × (xs ≡ drop n ys)

-- From one console to a later one: the lines that became visible.
pub record Follows (c d : Console) : Type 0 where
  pub visible : List Text
  pub readable : All (All Shows) visible
  pub logged : d.log ≡ append_log c.log visible
  pub shown : IsEnd d.fanout.history (c.fanout.history ++ visible)
  pub tidy : IsTidy d.fanout
