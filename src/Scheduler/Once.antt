-- ===== src/Scheduler/Once.antt =====
-- The lease of scheduler.go, over everything that touches the table of runs.
use bonghos.Base.{
  inr, eqb_refl, inl, ◌⊎◌, subst, ℕ, ◌+◌, ◌≤◌, ◌≡◌, refl, sym, Bool, true, false, ◌&&◌, ◌||◌, List,
  [], ◌∷◌, Option, none, some, if◌then◌else◌, if-elim, Bool-cases, eqb, any, arith,
}
use bonghos.Scheduler.Runs.{
  handle_missed, Schedule, Ledger, has_key, is_known, lease, Situation, Executed, execute, run_now,
  tick_due,
}
use bonghos.Scheduler.Known.{Known, execute-Keeps, run_now-Keeps, missed-Keeps}

-- What touches the table: a tick that finds a schedule due, the second attempt of a run that was put
-- off, a run by hand, and a start of the program that finds a run missed.
pub data Happening : Type 0 where
  due : Bool → ℕ → Situation → Schedule → ℕ → Happening
  retry : ℕ → Situation → Schedule → ℕ → Happening
  manual : ℕ → Situation → Schedule → Happening
  missed : ℕ → Situation → Schedule → ℕ → Happening

abbrev pub ledger_of : Ledger → Option Executed → Ledger
ledger_of l none = l
ledger_of l (some r) = r.ledger

abbrev pub was_started : Option Executed → ℕ
was_started none = 0
was_started (some r) = 1

after : Happening → Ledger → Ledger
after (due fault now w s t) l = ledger_of l (tick_due fault now w s t l)
after (retry now w s t) l = (execute now w s t l).ledger
after (manual now w s) l = (run_now now w s l).ledger
after (missed now w s t) l = (handle_missed now w s t l).ledger

-- How many times a tick starts the run of the key.
starts_of : ℕ → ℕ → Happening → Ledger → ℕ
starts_of id planned (due fault now w s t) l =
    if eqb s.id id && eqb t planned then was_started (tick_due fault now w s t l) else 0
starts_of id planned (retry now w s t) l = 0
starts_of id planned (manual now w s) l = 0
starts_of id planned (missed now w s t) l = 0

unfoldable pub starts : ℕ → ℕ → List Happening → Ledger → ℕ
unfolding after starts_of
starts id planned [] l = 0
starts id planned (h ∷ hs) l = starts_of id planned h l + starts id planned hs (after h l)

lease-Known :
    (fault : Bool) (id planned i t : ℕ) (l : Ledger)
    → Known id planned l
    → Known id planned (lease fault i t l).0
unfolding lease is_known
lease-Known fault id planned i t l h =
    if-elim (λ (r : Ledger × Bool). Known id planned r.0) (fault || any (has_key i t) l.runs) _ _
      (λ _. h) (λ _. ground (arith, h))

lease-won :
    (fault : Bool) (i t : ℕ) (l : Ledger)
    → (lease fault i t l).1 ≡ true
    → Known i t (lease fault i t l).0
unfolding lease is_known
lease-won fault i t l h = ground (arith, eqb_refl i, eqb_refl t)

lease-Known' : (fault : Bool) (i t : ℕ) (l : Ledger) → Known i t l → (lease fault i t l).1 ≡ false
unfolding lease
lease-Known' fault i t l h = ground arith

-- A tick keeps every key.
tick-Known :
    (fault : Bool) (now : ℕ) (w : Situation) (s : Schedule) (t : ℕ) (id planned : ℕ) (l : Ledger)
    → Known id planned l
    → Known id planned (ledger_of l (tick_due fault now w s t l))
unfolding tick_due
tick-Known fault now w s t id planned l h =
    if-elim (λ o. Known id planned (ledger_of l o)) (lease fault s.id t l).1 _ _
      (λ _.
        execute-Keeps id planned now w s t (lease fault s.id t l).0
          (lease-Known fault id planned s.id t l h))
      (λ _. h)

after-Known :
    (id planned : ℕ) (h : Happening) (l : Ledger)
    → Known id planned l
    → Known id planned (after h l)
unfolding after
after-Known id planned (due fault now w s t) l k = tick-Known fault now w s t id planned l k
after-Known id planned (retry now w s t) l k = execute-Keeps id planned now w s t l k
after-Known id planned (manual now w s) l k = run_now-Keeps id planned now w s l k
after-Known id planned (missed now w s t) l k = missed-Keeps id planned now w s t l k

-- A tick that starts the run of its key leaves the key in the table; one that finds it there does not
-- start it.
tick-started :
    (fault : Bool) (now : ℕ) (w : Situation) (s : Schedule) (t : ℕ) (l : Ledger)
    → (was_started (tick_due fault now w s t l) ≡ 0)
      ⊎ ((was_started (tick_due fault now w s t l) ≡ 1)
          × Known s.id t (ledger_of l (tick_due fault now w s t l)))
unfolding tick_due
tick-started fault now w s t l = elim (Bool-cases (lease fault s.id t l).1) [
  | inl won ↦ rw won (
      inr (
        refl,
        execute-Keeps s.id t now w s t (lease fault s.id t l).0 (lease-won fault s.id t l won),
      ))
  | inr lost ↦ rw lost (inl refl)
]

tick-Known' :
    (fault : Bool) (now : ℕ) (w : Situation) (s : Schedule) (t : ℕ) (l : Ledger)
    → Known s.id t l
    → was_started (tick_due fault now w s t l) ≡ 0
unfolding tick_due
tick-Known' fault now w s t l k = rw (lease-Known' fault s.id t l k) refl

starts_of-Known :
    (id planned : ℕ) (h : Happening) (l : Ledger)
    → Known id planned l
    → starts_of id planned h l ≡ 0
unfolding starts_of
starts_of-Known id planned (due fault now w s t) l k =
    if-elim (λ n. n ≡ 0) (eqb s.id id && eqb t planned) _ _
      (λ e. tick-Known' fault now w s t l (same e)) (λ _. refl)
  where
    same : (eqb s.id id && eqb t planned) ≡ true → Known s.id t l
    same e =
        let a : s.id ≡ id = ground arith in
        let b : t ≡ planned = ground arith in
        subst (λ i. Known i t l) (sym a) (subst (λ p. Known id p l) (sym b) k)
starts_of-Known id planned (retry now w s t) l k = refl
starts_of-Known id planned (manual now w s) l k = refl
starts_of-Known id planned (missed now w s t) l k = refl

starts-Known :
    (id planned : ℕ) (hs : List Happening) (l : Ledger)
    → Known id planned l
    → starts id planned hs l ≡ 0
unfolding starts
starts-Known id planned [] l k = refl
starts-Known id planned (h ∷ hs) l k = omega (
  arith,
  starts_of-Known id planned h l k,
  starts-Known id planned hs (after h l) (after-Known id planned h l k),
)

starts_of-once :
    (id planned : ℕ) (h : Happening) (l : Ledger)
    → (starts_of id planned h l ≡ 0)
      ⊎ ((starts_of id planned h l ≡ 1) × Known id planned (after h l))
unfolding starts_of after
starts_of-once id planned (due fault now w s t) l =
    elim (Bool-cases (eqb s.id id && eqb t planned)) [
      | inr e ↦ rw e (inl refl)
      | inl e ↦
          let a : s.id ≡ id = ground arith in
          let b : t ≡ planned = ground arith in
          rw e (
            subst
              (λ i.
                (was_started (tick_due fault now w s t l) ≡ 0)
                ⊎ ((was_started (tick_due fault now w s t l) ≡ 1)
                    × Known i planned (ledger_of l (tick_due fault now w s t l))))
              a
              (subst
                (λ p.
                  (was_started (tick_due fault now w s t l) ≡ 0)
                  ⊎ ((was_started (tick_due fault now w s t l) ≡ 1)
                      × Known s.id p (ledger_of l (tick_due fault now w s t l))))
                b (tick-started fault now w s t l)))
    ]
starts_of-once id planned (retry now w s t) l = inl refl
starts_of-once id planned (manual now w s) l = inl refl
starts_of-once id planned (missed now w s t) l = inl refl

-- However often ticks, retries, manual runs and starts of the program come, of whatever schedules and in
-- whatever order, the ticks start the run of one schedule for one planned time at most once.
pub starts-once : (id planned : ℕ) (hs : List Happening) (l : Ledger) → starts id planned hs l ≤ 1
unfolding starts
starts-once id planned [] l = omega arith
starts-once id planned (h ∷ hs) l = elim (starts_of-once id planned h l) [
  | inl z ↦ omega (arith, z, starts-once id planned hs (after h l))
  | inr (o, k) ↦ omega (arith, o, starts-Known id planned hs (after h l) k)
]
