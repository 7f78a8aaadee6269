-- ===== src/Operations/LockLaws.antt =====
-- The lock of source/internal/operations/operations.go excludes, as long as no process dies.
use bonghos.Base.{
  ℕ, ◌≡◌, refl, sym, subst, ◌∙◌, Bool, true, false, List, [], ◌∷◌, Option, none, some, if-elim, eqb,
  ltb, arith,
}
use bonghos.Operations.Lock.{
  LockFile, Place, trying, found_file, judged_stale, created, holding, gave_up, released, World,
  put, go_to, open_new, try_open, written, is_stale, judge, act, advance, interleave, unlocked,
}

-- Process `p` created the file.
abbrev IsCreator : ℕ → Option LockFile → Type 0
IsCreator p none = ⊥
IsCreator p (some f) = f.creator ≡ p

-- A process that has created the file or holds the lock is the file's creator, and none has judged it stale.
abbrev Fits : ℕ → Option LockFile → Place → Type 0
Fits p file created = IsCreator p file
Fits p file holding = IsCreator p file
Fits p file (judged_stale n) = ⊥
Fits p file (trying n) = Unit
Fits p file (found_file n) = Unit
Fits p file gave_up = Unit
Fits p file released = Unit

abbrev IsSound : World → Type 0
IsSound w = (q : ℕ) → Fits q w.file (w.place q)

put-Fits :
    (file : Option LockFile) (place : ℕ → Place) (p : ℕ) (x : Place)
    → Fits p file x
    → ((q : ℕ) → eqb q p ≡ false → Fits q file (place q))
    → (q : ℕ) → Fits q file (put p x place q)
put-Fits file place p x h k q =
    if-elim (Fits q file) (eqb q p) _ _ (λ e. let s : q ≡ p = ground (arith, e) in rw s h)
      (λ e. k q e)

module _ (alive : ℕ → Bool) (live : (q : ℕ) → alive q ≡ true) where
  never_stale : (o : Option ℕ) → is_stale alive o ≡ false
  never_stale none = refl
  never_stale (some q) = rw (live q) (ground arith)

  -- A place that asks nothing of the file.
  idle : (w : World) (p : ℕ) (x : Place) → Fits p w.file x → IsSound w → IsSound (go_to p x w)
  idle w p x h s = put-Fits w.file w.place p x h (λ q e. s q)

  -- With no file or its creator elsewhere, the others ask nothing of it.
  shared :
      (file other : Option LockFile) (q : ℕ) (x : Place)
      → (IsCreator q file → IsCreator q other)
      → Fits q file x
      → Fits q other x
  shared file other q created k h = k h
  shared file other q holding k h = k h
  shared file other q (judged_stale n) k h = h
  shared file other q (trying n) k h = tt
  shared file other q (found_file n) k h = tt
  shared file other q gave_up k h = tt
  shared file other q released k h = tt

  opened :
      (w : World) (p n : ℕ) (file : Option LockFile)
      → w.file ≡ file
      → IsSound w
      → IsSound (open_new p n file w)
  opened w p n (some f) e s = idle w p (found_file n) tt s
  opened w p n none e s =
      put-Fits (some (record { creator = p; content = none })) w.place p created refl (λ q d.
        shared none (some (record { creator = p; content = none })) q (w.place q) (λ b. absurd b)
          (rw (sym e) (s q)))

  tried : (w : World) (p n : ℕ) → IsSound w → IsSound (try_open p n w)
  tried w p n s =
      if-elim IsSound (ltb n 2) _ _ (λ _. opened w p n w.file refl s) (λ _. idle w p gave_up tt s)

  written-IsCreator :
      (p q : ℕ) (file : Option LockFile) → IsCreator q file → IsCreator q (written p file)
  written-IsCreator p q none h = h
  written-IsCreator p q (some f) h = if-elim (IsCreator q) (eqb f.creator p) _ _ (λ _. h) (λ _. h)

  judge_gives_up : (p n : ℕ) (file : Option LockFile) → judge alive p n file ≡ gave_up
  judge_gives_up p n none = refl
  judge_gives_up p n (some f) = rw (never_stale f.content) refl

  -- The creator is one process.
  creator_unique : (p q : ℕ) (file : Option LockFile) → IsCreator p file → IsCreator q file → q ≡ p
  creator_unique p q none h k = absurd h
  creator_unique p q (some f) h k = sym k ∙ h

  act-IsSound :
      (w : World) (p : ℕ) (x : Place) → w.place p ≡ x → IsSound w → IsSound (act alive p x w)
  act-IsSound w p (trying n) e s = tried w p n s
  act-IsSound w p created e s =
      let c : IsCreator p w.file = subst (Fits p w.file) e (s p) in
      put-Fits (written p w.file) w.place p holding (written-IsCreator p p w.file c)
        (λ q d. shared w.file (written p w.file) q (w.place q) (written-IsCreator p q w.file) (s q))
  act-IsSound w p (found_file n) e s = idle w p _ (rw (judge_gives_up p n w.file) tt) s
  act-IsSound w p (judged_stale n) e s = absurd (subst (Fits p w.file) e (s p))
  act-IsSound w p holding e s =
      let c : IsCreator p w.file = subst (Fits p w.file) e (s p) in
      put-Fits none w.place p released tt (λ q d.
        shared w.file none q (w.place q)
          (λ k. let u = creator_unique p q w.file c k in absurd (ground (arith, d, u))) (s q))
  act-IsSound w p gave_up e s = s
  act-IsSound w p released e s = s

  interleave-IsSound : (ps : List ℕ) (w : World) → IsSound w → IsSound (interleave alive ps w)
  unfolding interleave advance
  interleave-IsSound [] w s = s
  interleave-IsSound (p ∷ ps) w s =
      interleave-IsSound ps (advance alive p w) (act-IsSound w p (w.place p) refl s)

  unlocked-IsSound : IsSound unlocked
  unlocked-IsSound q = tt

-- As long as no process dies, at most one process holds the lock, in whatever order the steps of any number
-- of processes come.
pub lock_excludes :
    (alive : ℕ → Bool) (ps : List ℕ) (p q : ℕ)
    → ((n : ℕ) → alive n ≡ true)
    → (interleave alive ps unlocked).place p ≡ holding
    → (interleave alive ps unlocked).place q ≡ holding
    → q ≡ p
lock_excludes alive ps p q live h k =
    let w = interleave alive ps unlocked in
    let s = interleave-IsSound alive live ps unlocked (unlocked-IsSound alive live) in
    creator_unique alive live p q w.file (subst (Fits p w.file) h (s p))
      (subst (Fits q w.file) k (s q))
