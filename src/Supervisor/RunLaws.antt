-- ===== src/Supervisor/RunLaws.antt =====
-- What the restart policy of supervisor.go does with stops, restarts and crashes.
use bonghos.Base.{
  ℕ, zero, suc, ◌-◌, ◌*◌, ◌^◌, ◌≡◌, ◌≢◌, refl, sym, subst, ◌⊎◌, inl, inr, ℤ, String, true, false,
  List, [], ◌∷◌, some, min, arith,
}
use bonghos.Supervisor.Run.{
  State, stopped, starting, stopping, restarting, crashed, clean_stop, requested_restart, Config,
  Launch, is_live, start_once, is_zero, classify, recent_crashes, backoff, done, waiting, delaying,
  returned, System, schedule_restart, decide, settle, stop, restart, force_stop, detect_running,
  Event, launched, exited, delay_over, cancel, stop_request, restart_request, force_request,
  done_line, on_phase, step, run,
}

-- The delay before a restart: the configured one, doubled for each recent crash after the first, at
-- most four times.
pub backoff_lem : (recent delay : ℕ) → backoff recent delay ≡ delay * 2 ^ min (recent - 1) 4
unfolding backoff
backoff_lem zero delay = omega arith
backoff_lem (suc zero) delay = omega arith
backoff_lem (suc (suc zero)) delay = ground arith
backoff_lem (suc (suc (suc zero))) delay = ground arith
backoff_lem (suc (suc (suc (suc zero)))) delay = ground arith
backoff_lem (suc (suc (suc (suc (suc n))))) delay =
    let most : min (suc (suc (suc (suc (suc n)))) - 1) 4 ≡ 4 = omega arith in rw most (ground arith)

-- A stop was asked for while a process ran, and it is still running.
pub record IsStopping (y : System) : Type 0 where
  pub phase : y.phase ≡ waiting
  pub state : y.sup.state ≡ stopping
  pub stop_intent : y.sup.stop_intent ≡ true
  pub no_restart : y.sup.restart_intent ≡ false

-- The loop has returned, and the process was stopped cleanly.
pub record IsStopped (y : System) : Type 0 where
  pub phase : y.phase ≡ returned done
  pub class : y.sup.last_class ≡ some clean_stop

abbrev Ends : System → Type 0
Ends y = IsStopping y ⊎ IsStopped y

settled-IsStopped :
    (cfg : Config) (now : ℕ) (code : ℤ) (signal : String) (y : System)
    → IsStopping y
    → IsStopped (settle cfg now code signal y)
unfolding settle classify decide
settled-IsStopped cfg now code signal y h = record { phase = ground arith; class = ground arith }

waiting-Ends :
    (cfg : Config) (now : ℕ) (y : System) (e : Event)
    → IsStopping y
    → Ends (on_phase cfg now y waiting e)
unfolding on_phase stop restart force_stop detect_running
waiting-Ends cfg now y (launched l) h = inl h
waiting-Ends cfg now y (exited code signal) h = inr (settled-IsStopped cfg now code signal y h)
waiting-Ends cfg now y delay_over h = inl h
waiting-Ends cfg now y cancel h = inl (record {
  phase = h.phase;
  state = h.state;
  stop_intent = h.stop_intent;
  no_restart = h.no_restart;
})
waiting-Ends cfg now y stop_request h = inl (record {
  phase = h.phase;
  state = ground arith;
  stop_intent = ground arith;
  no_restart = ground arith;
})
waiting-Ends cfg now y restart_request h = inl (record {
  phase = h.phase;
  state = ground arith;
  stop_intent = ground arith;
  no_restart = ground arith;
})
waiting-Ends cfg now y force_request h =
    inl (record { phase = h.phase; state = h.state; stop_intent = refl; no_restart = h.no_restart })
waiting-Ends cfg now y done_line h = inl (record {
  phase = h.phase;
  state = ground arith;
  stop_intent = ground arith;
  no_restart = ground arith;
})

returned-kept :
    (cfg : Config) (now : ℕ) (y : System) (e : Event)
    → IsStopped y
    → IsStopped (on_phase cfg now y (returned done) e)
unfolding on_phase stop restart force_stop detect_running
returned-kept cfg now y (launched l) h = h
returned-kept cfg now y (exited code signal) h = h
returned-kept cfg now y delay_over h = h
returned-kept cfg now y cancel h = record { phase = h.phase; class = h.class }
returned-kept cfg now y stop_request h = record { phase = h.phase; class = ground arith }
returned-kept cfg now y restart_request h = record { phase = h.phase; class = ground arith }
returned-kept cfg now y force_request h = record { phase = h.phase; class = h.class }
returned-kept cfg now y done_line h = record { phase = h.phase; class = ground arith }

step-Ends : (cfg : Config) (now : ℕ) (y : System) (e : Event) → Ends y → Ends (step cfg now y e)
unfolding step
step-Ends cfg now y e (inl h) =
    subst (λ p. Ends (on_phase cfg now y p e)) (sym h.phase) (waiting-Ends cfg now y e h)
step-Ends cfg now y e (inr h) =
    subst (λ p. Ends (on_phase cfg now y p e)) (sym h.phase) (inr (returned-kept cfg now y e h))

run-Ends : (cfg : Config) (y : System) (es : List (ℕ × Event)) → Ends y → Ends (run cfg y es)
unfolding run
run-Ends cfg y [] h = h
run-Ends cfg y ((now, e) ∷ es) h = run-Ends cfg (step cfg now y e) es (step-Ends cfg now y e h)

-- A stop that is asked for while Run waits for the process, in a state other than stopped and crashed
-- and with no restart pending, is final: whatever happens afterwards, and whatever the restart policy
-- and the exit code, either the process still runs and is to be stopped, or the loop has returned from
-- a clean stop. It never starts the process again.
pub stop_is_final :
    (cfg : Config) (now : ℕ) (y : System) (es : List (ℕ × Event))
    → y.phase ≡ waiting
    → y.sup.state ≢ stopped
    → y.sup.state ≢ crashed
    → y.sup.restart_intent ≡ false
    → IsStopping (run cfg (step cfg now y stop_request) es)
      ⊎ IsStopped (run cfg (step cfg now y stop_request) es)
stop_is_final cfg now y es p s c r = run-Ends cfg (step cfg now y stop_request) es (inl asked)
  where
    stops :
        (x : State)
        → y.sup.state ≡ x
        → (stop y.sup ≡ record (y.sup) { stop_intent = true; state = stopping })
    stops x e = unfold stop in ground (arith, s, c)

    moved : step cfg now y stop_request ≡ record y { sup = stop y.sup }
    moved =
        unfold step on_phase in
        subst (λ q. on_phase cfg now y q stop_request ≡ record y { sup = stop y.sup }) (sym p) refl

    asked : IsStopping (step cfg now y stop_request)
    asked =
        rw (moved, stops y.sup.state refl)
          (record { phase = p; state = refl; stop_intent = refl; no_restart = r })

-- A process that ends with a failure although nobody asked for it.
pub record IsCrash (y : System) (code : ℤ) : Type 0 where
  pub running_on : y.cancelled ≡ false
  pub no_stop : y.sup.stop_intent ≡ false
  pub no_restart : y.sup.restart_intent ≡ false
  pub failed : is_zero code ≡ false

-- If a restart is asked for while the process starts or runs, and the process then exits, Run goes on
-- to start it again after the back-off delay, whatever the policy and the exit code, unless the whole
-- supervisor is being shut down.
pub restart_restarts :
    (cfg : Config) (t1 t2 : ℕ) (y : System) (code : ℤ) (signal : String)
    → y.phase ≡ waiting
    → is_live y.sup.state ≡ true
    → y.cancelled ≡ false
    → let z = run cfg y ((t1, restart_request) ∷ (t2, exited code signal) ∷ []) in
      (z.phase ≡ delaying (backoff (recent_crashes t2 y.sup) cfg.restart_delay_seconds))
      × (z.sup.last_class ≡ some requested_restart)
unfolding run step on_phase settle classify decide stop restart schedule_restart recent_crashes
restart_restarts cfg t1 t2 y code signal p l c = ground arith

-- A stop that is asked for during the delay before a restart is lost: when the delay is over the
-- process is started all the same.
pub stop_in_delay_lost :
    (cfg : Config) (t1 t2 t3 d : ℕ) (y : System) (l : Launch)
    → y.phase ≡ delaying d
    → (y.sup.state ≡ crashed) ⊎ (y.sup.state ≡ restarting)
    → y.cancelled ≡ false
    → let z = run cfg y ((t1, stop_request) ∷ (t2, delay_over) ∷ (t3, launched (some l)) ∷ []) in
      (z.phase ≡ waiting) × (z.sup.state ≡ starting) × (z.sup.attached ≡ true)
unfolding run step on_phase stop start_once
stop_in_delay_lost cfg t1 t2 t3 d y l p s c = ground (arith, s)
