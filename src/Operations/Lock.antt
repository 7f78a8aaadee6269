-- ===== src/Operations/Lock.antt =====
-- The lock file of source/internal/operations/operations.go, with the processes that run Lock.Acquire and
-- its release in any order. One step is one call of the file system; `alive` is processAlive.
use bonghos.Base.{
  ℕ, ◌+◌, Bool, false, ◌&&◌, not, List, [], ◌∷◌, Option, none, some, if◌then◌else◌, eqb, ltb,
}

-- The file: who created it, and the process id written to it; `none` is a file with nothing written yet.
pub record LockFile : Type 0 where
  pub creator : ℕ
  pub content : Option ℕ

-- Where a process stands: in an attempt, with the file just created, holding the lock, having found a file,
-- having judged it stale, or out with an error or after the release.
pub data Place : Type 0 where
  trying found_file judged_stale : ℕ → Place
  created holding gave_up released : Place

pub record World : Type 0 where
  pub file : Option LockFile
  pub place : ℕ → Place

abbrev pub put : ℕ → Place → (ℕ → Place) → ℕ → Place
put p x places q = if eqb q p then x else places q

abbrev pub go_to : ℕ → Place → World → World
go_to p x w = record w { place = put p x w.place }

-- os.OpenFile with O_CREATE and O_EXCL, in one of the two attempts.
abbrev pub open_new : ℕ → ℕ → Option LockFile → World → World
open_new p attempt (some f) w = go_to p (found_file attempt) w
open_new p attempt none w = record {
  file = some (record { creator = p; content = none });
  place = put p created w.place;
}

abbrev pub try_open : ℕ → ℕ → World → World
try_open p attempt w = if ltb attempt 2 then open_new p attempt w.file w else go_to p gave_up w

abbrev pub written : ℕ → Option LockFile → Option LockFile
written p none = none
written p (some f) =
    if eqb f.creator p then some (record { creator = f.creator; content = some p }) else some f

-- What the content says of its holder.
abbrev pub is_stale : (ℕ → Bool) → Option ℕ → Bool
is_stale alive none = false
is_stale alive (some q) = ltb 0 q && not (alive q)

abbrev pub judge : (ℕ → Bool) → ℕ → ℕ → Option LockFile → Place
judge alive p attempt none = gave_up
judge alive p attempt (some f) = if is_stale alive f.content then judged_stale attempt else gave_up

abbrev pub act : (ℕ → Bool) → ℕ → Place → World → World
act alive p (trying attempt) w = try_open p attempt w
act alive p created w = record { file = written p w.file; place = put p holding w.place }
act alive p (found_file attempt) w = go_to p (judge alive p attempt w.file) w
act alive p (judged_stale attempt) w = record {
  file = none;
  place = put p (trying (attempt + 1)) w.place;
}
act alive p holding w = record { file = none; place = put p released w.place }
act alive p gave_up w = w
act alive p released w = w

-- The next step of process `p`.
unfoldable pub advance : (ℕ → Bool) → ℕ → World → World
advance alive p w = act alive p (w.place p) w

-- Steps of processes in the given order.
unfoldable pub interleave : (ℕ → Bool) → List ℕ → World → World
interleave alive [] w = w
interleave alive (p ∷ ps) w = interleave alive ps (advance alive p w)

-- No lock file, and every process before its first attempt.
abbrev pub unlocked : World
unlocked = record { file = none; place = λ p. trying 0 }
