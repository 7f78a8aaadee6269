-- ===== src/Scheduler/CronValues.antt =====
-- The loop of cronField in source/internal/scheduler/scheduler.go: it ends for every 64-bit step, and what
-- it collects.
use bonghos.Base.{
  ℕ, zero, suc, ◌+◌, ◌-◌, ◌*◌, ◌%◌, ◌^◌, ◌≤◌, ◌<◌, ◌≡◌, ◌≢◌, ◌↔◌, refl, sym, ap, ◌∙◌, ◌⊎◌, inl, inr,
  true, false, List, [], ◌∷◌, Option, none, some, leb, In, Bool-cases, arith,
}
use bonghos.Scheduler.Cron.{at_most, add_value, enough, cron_values}

-- One round of the loop.
round :
    (fuel v end step : ℕ)
    → at_most v end ≡ true
    → cron_values (suc fuel) v end step
      ≡ add_value v (cron_values fuel ((v + step) % 2 ^ 64) end step)
unfolding cron_values
round fuel v end step h = rw h refl

last_round :
    (fuel v end step : ℕ) → at_most v end ≡ false → cron_values (suc fuel) v end step ≡ some []
unfolding cron_values
last_round fuel v end step h = rw h refl

-- The values start, start + step, start + 2 * step and so on that are at most `end`.
abbrev pub IsStep : ℕ → ℕ → ℕ → ℕ → Type 0
IsStep start end step v = (k : ℕ) × ((v ≡ start + k * step) × (v ≤ end))

-- Exactly the values in steps were collected.
abbrev pub Collects : ℕ → ℕ → ℕ → Option (List ℕ) → Type 0
Collects start end step o =
    (vs : List ℕ) × ((o ≡ some vs) × ((v : ℕ) → In v vs ↔ IsStep start end step v))

IsStep-again :
    (start end step v : ℕ)
    → IsStep start end step v
    → (v ≡ start) ⊎ IsStep (start + step) end step v
IsStep-again start end step v (zero, (e, b)) = inl (omega arith)
IsStep-again start end step v (suc k, (e, b)) = inr (k, (ground arith, b))

again-IsStep : (start end step v : ℕ) → IsStep (start + step) end step v → IsStep start end step v
again-IsStep start end step v (k, (e, b)) = (suc k, (ground arith, b))

Collects-[] : (start end step : ℕ) → end < start → Collects start end step (some [])
Collects-[] start end step h = ([], (refl, λ v. (λ m. absurd m, λ s. none_left v s)))
  where
    none_left : (v : ℕ) → IsStep start end step v → In v []
    none_left v (k, (e, b)) = absurd (omega arith)

Collects-add :
    (start end step : ℕ) (o : Option (List ℕ))
    → start ≤ end
    → Collects (start + step) end step o
    → Collects start end step (add_value start o)
Collects-add start end step o h (vs, (e, c)) =
    (start ∷ vs, (ap (add_value start) e, λ v. (into v, out v)))
  where
    into : (v : ℕ) → In v (start ∷ vs) → IsStep start end step v
    into v (inl q) = (0, (omega arith, omega arith))
    into v (inr m) = again-IsStep start end step v ((c v).0 m)

    out : (v : ℕ) → IsStep start end step v → In v (start ∷ vs)
    out v s = elim (IsStep-again start end step v s) [ inl q ↦ inl q | inr t ↦ inr ((c v).1 t) ]

collected :
    (fuel v end step : ℕ)
    → 1 ≤ step
    → end + step < 2 ^ 63
    → v < 2 ^ 63
    → 1 ≤ fuel
    → end + 2 ≤ fuel + v
    → Collects v end step (cron_values fuel v end step)
collected zero v end step p q r s t = absurd (omega arith)
collected (suc fuel) v end step p q r s t = elim (Bool-cases (at_most v end)) [
  | inl h ↦
      let small : v ≤ end = ground (arith, h) in
      let next : (v + step) % 2 ^ 64 ≡ v + step = omega arith in
      rw (round fuel v end step h, next)
        (Collects-add v end step _ small
          (collected fuel (v + step) end step p q (omega arith) (omega arith) (omega arith)))
  | inr h ↦ rw (last_round fuel v end step h) (Collects-[] v end step (ground (arith, h)))
]

-- When no addition overflows, the loop ends and collects exactly start, start + step and so on up to `end`.
pub cron_values-Collects :
    (start end step : ℕ)
    → 1 ≤ step
    → end + step < 2 ^ 63
    → start ≤ end
    → Collects start end step (cron_values (enough end) start end step)
cron_values-Collects start end step p q r =
    collected (enough end) start end step p q (omega arith) (omega arith) (omega arith)

ends_now : (fuel v end step : ℕ) → at_most v end ≡ false → cron_values (suc fuel) v end step ≢ none
ends_now fuel v end step h e = cc (sym (last_round fuel v end step h) ∙ e)

ends_later :
    (fuel v end step : ℕ)
    → at_most v end ≡ true
    → cron_values fuel ((v + step) % 2 ^ 64) end step ≢ none
    → cron_values (suc fuel) v end step ≢ none
ends_later fuel v end step h k e =
    added (cron_values fuel ((v + step) % 2 ^ 64) end step) k (sym (round fuel v end step h) ∙ e)
  where
    added : (o : Option (List ℕ)) → o ≢ none → add_value v o ≢ none
    added none k e = k refl
    added (some vs) k e = cc e

stops : (fuel v end step : ℕ) → end < v → v < 2 ^ 63 → cron_values (suc fuel) v end step ≢ none
stops fuel v end step h k = ends_now fuel v end step (ground arith)

goes_on :
    (fuel v next end step : ℕ)
    → (v ≤ end) ⊎ (2 ^ 63 ≤ v)
    → (v + step) % 2 ^ 64 ≡ next
    → cron_values fuel next end step ≢ none
    → cron_values (suc fuel) v end step ≢ none
goes_on fuel v next end step (inl h) e k = ends_later fuel v end step (ground arith) (rw e k)
goes_on fuel v next end step (inr h) e k = ends_later fuel v end step (ground arith) (rw e k)

-- The loop of a step that overflows: two rounds lower the value, or end the loop two rounds later.
overflowing :
    (fuel v end step : ℕ)
    → end < 2 ^ 60
    → step < 2 ^ 63
    → 2 ^ 63 ≤ end + step
    → v ≤ end
    → v + 4 ≤ fuel
    → cron_values fuel v end step ≢ none
overflowing zero v end step p q r s t = absurd (omega arith)
overflowing (suc zero) v end step p q r s t = absurd (omega arith)
overflowing (suc (suc zero)) v end step p q r s t = absurd (omega arith)
overflowing (suc (suc (suc zero))) v end step p q r s t = absurd (omega arith)
overflowing (suc (suc (suc (suc fuel)))) v end step p q r s t =
    goes_on (suc (suc (suc fuel))) v (v + step) end step (inl s) (omega arith)
      (elim (le_cases (2 ^ 63) (v + step)) [
        | inr h ↦ stops (suc (suc fuel)) (v + step) end step (omega arith) h
        | inl h ↦ elim (le_cases (2 ^ 64) (v + step + step)) [
          | inl k ↦
              goes_on (suc (suc fuel)) (v + step) (v + step + step - 2 ^ 64) end step (inr h)
                (omega arith)
                (overflowing (suc (suc fuel)) (v + step + step - 2 ^ 64) end step p q r
                  (omega arith) (omega arith))
          | inr k ↦
              goes_on (suc (suc fuel)) (v + step) (v + step + step) end step (inr h) (omega arith) (
                goes_on (suc fuel) (v + step + step) (v + step + step + step - 2 ^ 64) end step
                  (inr (omega arith)) (omega arith)
                  (stops fuel (v + step + step + step - 2 ^ 64) end step (omega arith)
                    (omega arith)))
        ]
      ])
  where
    le_cases : (a b : ℕ) → (a ≤ b) ⊎ (b < a)
    le_cases a b = elim (Bool-cases (leb a b)) [
      | inl h ↦ inl (ground (arith, h))
      | inr h ↦ inr (ground (arith, h))
    ]

-- For every positive 64-bit step, one whose additions overflow too, the loop over a range whose end is small
-- comes to an end.
pub cron_values_ends :
    (start end step : ℕ)
    → 1 ≤ step
    → step < 2 ^ 63
    → start ≤ end
    → end < 2 ^ 60
    → cron_values (enough end) start end step ≢ none
cron_values_ends start end step p q r s = elim (Bool-cases (leb (2 ^ 63) (end + step))) [
  | inl h ↦ overflowing (enough end) start end step s q (ground (arith, h)) r (omega arith)
  | inr h ↦ ended (cron_values-Collects start end step p (ground (arith, h)) r)
]
  where
    ended :
        Collects start end step (cron_values (enough end) start end step)
        → cron_values (enough end) start end step ≢ none
    ended (vs, (e, c)) n = cc (sym e ∙ n)
