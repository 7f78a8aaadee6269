-- ===== src/Paths/EvalLaws.antt =====
-- What EvalWithinRoot of source/internal/security/security.go has checked when it accepts a path.
use bonghos.Base.{◌≡◌, ◌≢◌, refl, sym, ap, ◌∙◌, true, false, List, [], ◌∷◌, ◌++◌, if-elim}
use bonghos.Base.Text.{Text, text_eq, text_eq_refl}
use bonghos.Paths.Clean.{is_abs, CleanPath, clean, render, join, but_last, dir}
use bonghos.Paths.CleanLaws.{clean-rooted}
use bonghos.Paths.DirLaws.{clean-dir, render-dir}
use bonghos.Paths.Root.{within_root}
use bonghos.Paths.RootLaws.{IsBelow, within_root-IsBelow}
use bonghos.Paths.Eval.{
  Resolved, resolved, missing, unreadable, Evaluated, inside, escape, failed, out_of_fuel, judge,
  probed,
}

module _ (eval : Text → Resolved) (root abs : Text) (r : is_abs root ≡ true) where
  -- The path is an ancestor with a tail; the ancestor's real path with this tail lies in the root.
  pub record IsChecked : Type 0 where
    pub ancestor : Text
    pub real : Text
    pub tail : List Text
    pub is_ancestor : (clean abs).parts ≡ (clean ancestor).parts ++ tail
    pub is_real : eval ancestor ≡ resolved real
    pub below : IsBelow (clean root).parts (clean (join (real ∷ tail))).parts

  -- What an answer means.
  abbrev pub IsSafe : Evaluated → Type 0
  IsSafe (inside p) = (p ≡ abs) × IsChecked
  IsSafe escape = Unit
  IsSafe failed = Unit
  IsSafe out_of_fuel = ⊥

  judged :
      (probe real : Text) (tail : List Text)
      → (clean abs).parts ≡ (clean probe).parts ++ tail
      → eval probe ≡ resolved real
      → IsSafe (judge eval root abs real tail)
  judged probe real tail e v =
      if-elim IsSafe (within_root root (join (real ∷ tail))) _ _
        (λ w. (
          refl,
          record {
            ancestor = probe;
            real = real;
            tail = tail;
            is_ancestor = e;
            is_real = v;
            below = (within_root-IsBelow root (join (real ∷ tail)) r w).1;
          },
        ))
        (λ _. tt)

  same_path : (p q : CleanPath) → p.rooted ≡ q.rooted → p.parts ≡ q.parts → p ≡ q
  same_path p q e f = cc

  -- At the top Dir changes nothing.
  at_top :
      (probe : Text) → render (clean probe) ≡ probe → (clean probe).parts ≡ [] → dir probe ≡ probe
  at_top probe c e =
      let f : but_last (clean probe).parts ≡ (clean probe).parts =
        unfold but_last in (ap but_last e ∙ sym e) in
      let d : clean (dir probe) ≡ clean probe =
        clean-dir probe
        ∙ same_path (record { rooted = is_abs probe; parts = but_last (clean probe).parts })
            (clean probe) (sym (clean-rooted probe)) f in
      sym (render-dir probe) ∙ (ap render d ∙ c)

  step :
      (probe : Text) (tail : List Text) (rest : Evaluated)
      → render (clean probe) ≡ probe
      → (clean abs).parts ≡ (clean probe).parts ++ tail
      → ((clean probe).parts ≢ [] → IsSafe rest)
      → (x : Resolved) → eval probe ≡ x
      → IsSafe (probed eval root abs tail (text_eq (dir probe) probe) rest x)
  step probe tail rest c e k (resolved real) v = judged probe real tail e v
  step probe tail rest c e k unreadable v = tt
  step probe tail rest c e k missing v =
      if-elim IsSafe (text_eq (dir probe) probe) _ _ (λ _. tt)
        (λ n. k (λ b.
          let f : true ≡ false =
            sym (text_eq_refl probe) ∙ (ap (λ d. text_eq d probe) (sym (at_top probe c b)) ∙ n) in
          cc f))
