-- ===== src/Paths/Eval.antt =====
-- EvalWithinRoot of source/internal/security/security.go, and Manager.resolve of
-- source/internal/files/manager.go. What filepath.EvalSymlinks gives is the parameter `eval`.
use bonghos.Base.{
  ℕ, zero, suc, ◌+◌, Bool, true, false, List, [], ◌∷◌, Option, none, some, if◌then◌else◌, length,
  eqb,
}
use bonghos.Base.Text.{Text, text_eq, trim_space}
use bonghos.Paths.Clean.{slash, dot, is_abs, clean, render, join, dir}
use bonghos.Paths.Root.{within_root, safe_join}

-- The answer of filepath.EvalSymlinks.
pub data Resolved : Type 0 where
  resolved : Text → Resolved
  missing unreadable : Resolved

pub data Evaluated : Type 0 where
  inside : Text → Evaluated
  escape failed out_of_fuel : Evaluated

abbrev pub last_of : Text → List Text → Text
last_of w [] = w
last_of w (v ∷ ws) = last_of v ws

-- filepath.Base of a cleaned path.
abbrev pub base_of : Bool → List Text → Text
base_of true [] = slash ∷ []
base_of false [] = dot
base_of rooted (w ∷ ws) = last_of w ws

unfoldable pub base : Text → Text
base t = base_of (clean t).rooted (clean t).parts

module _ (eval : Text → Resolved) where
  abbrev pub judge : Text → Text → Text → List Text → Evaluated
  judge root abs real tail = if within_root root (join (real ∷ tail)) then inside abs else escape

  abbrev pub probed : Text → Text → List Text → Bool → Evaluated → Resolved → Evaluated
  probed root abs tail at_top rest (resolved real) = judge root abs real tail
  probed root abs tail at_top rest unreadable = failed
  probed root abs tail at_top rest missing = if at_top then escape else rest

  -- The loop from the path upwards; `tail` are the elements taken off, the first one first.
  unfoldable pub climb_from : ℕ → Text → Text → Text → List Text → Evaluated
  climb_from zero root abs probe tail = out_of_fuel
  climb_from (suc fuel) root abs probe tail =
      probed root abs tail (text_eq (dir probe) probe)
        (climb_from fuel root abs (dir probe) (base probe ∷ tail)) (eval probe)

  abbrev pub absolute : Text → Text → Text
  absolute cwd t = render (clean (if is_abs t then t else join (cwd ∷ t ∷ [])))

  abbrev pub from_root : Text → Resolved → Evaluated
  from_root abs (resolved root) = climb_from (length (clean abs).parts + 1) root abs abs []
  from_root abs missing = failed
  from_root abs unreadable = failed

  -- EvalWithinRoot; `cwd` is the working directory.
  unfoldable pub eval_within_root : Text → Text → Text → Evaluated
  eval_within_root cwd root candidate =
      from_root (absolute cwd candidate) (eval (render (clean root)))

  abbrev drop_slash : Text → Text
  drop_slash [] = []
  drop_slash (c ∷ t) = if eqb c slash then t else c ∷ t

  abbrev pub joined : Text → Text → Option Text → Evaluated
  joined cwd root none = escape
  joined cwd root (some p) = eval_within_root cwd root p

  -- Manager.resolve
  unfoldable pub resolve : Text → Text → Text → Evaluated
  unfolding eval_within_root
  resolve cwd root rel = joined cwd root (safe_join root (drop_slash (trim_space rel) ∷ []))
