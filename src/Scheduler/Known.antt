-- ===== src/Scheduler/Known.antt =====
-- A run that is in the table of scheduler.go stays in it.
use bonghos.Base.{
  ◌==◌, String, ℕ, ◌≡◌, refl, ◌∙◌, Bool, true, ◌&&◌, not, List, [], ◌∷◌, map, if◌then◌else◌,
  if-elim, any, arith,
}
use bonghos.Scheduler.Actions.{Call, start_server}
use bonghos.Scheduler.Runs.{
  handle_missed, needs_online, started, Schedule, RunRow, Ledger, valid_status, has_key, is_known,
  new_row, finish_row, start_row, write_status, record_run, mark_running, Situation, Executed,
  perform, when_offline, execute, run_now,
}

any-map :
    (p : RunRow → Bool) (f : RunRow → RunRow) (rows : List RunRow)
    → ((r : RunRow) → p (f r) ≡ p r)
    → any p (map f rows) ≡ any p rows
any-map p f [] h = refl
any-map p f (r ∷ rows) h = rw (h r, any-map p f rows h)

module _ (id planned : ℕ) where
  -- The key is in the table.
  abbrev pub Known : Ledger → Type 0
  Known l = is_known id planned l ≡ true

  finish-has_key :
      (now i t : ℕ) (status : String) (r : RunRow)
      → has_key id planned (finish_row now i t status r) ≡ has_key id planned r
  finish-has_key now i t status r = ground arith

  start-has_key :
      (now i t : ℕ) (r : RunRow) → has_key id planned (start_row now i t r) ≡ has_key id planned r
  start-has_key now i t r = ground arith

  write_status-any :
      (now i t : ℕ) (status : String) (rows : List RunRow)
      → any (has_key id planned) rows ≡ true
      → any (has_key id planned) (write_status now i t status rows) ≡ true
  unfolding write_status
  write_status-any now i t status rows h =
      if-elim (λ rs. any (has_key id planned) rs ≡ true) (not (valid_status status)) _ _ (λ _. h)
        λ _.
          any-map (has_key id planned) (finish_row now i t status)
            (if any (has_key i t) rows then rows else new_row i t status ∷ rows)
            (finish-has_key now i t status)
          ∙ if-elim (λ rs. any (has_key id planned) rs ≡ true) (any (has_key i t) rows) _ _ (λ _. h)
              (λ _. ground (arith, h))

  pub record_run-Known :
      (now i t : ℕ) (status : String) (l : Ledger) → Known l → Known (record_run now i t status l)
  unfolding record_run is_known
  record_run-Known now i t status l h = write_status-any now i t status l.runs h

  pub mark_running-Known : (now i t : ℕ) (l : Ledger) → Known l → Known (mark_running now i t l)
  unfolding mark_running is_known
  mark_running-Known now i t l h =
      any-map (has_key id planned) (start_row now i t) l.runs (start-has_key now i t) ∙ h

  abbrev Keeps : Executed → Type 0
  Keeps r = Known r.ledger

  perform-Keeps :
      (now : ℕ) (w : Situation) (s : Schedule) (t : ℕ) (before : List Call) (l : Ledger)
      → Known l
      → Keeps (perform now w s t before l)
  unfolding perform
  perform-Keeps now w s t before l h = record_run-Known now s.id t _ l h

  offline-Keeps :
      (now : ℕ) (w : Situation) (s : Schedule) (t : ℕ) (l : Ledger)
      → Known l
      → Keeps (when_offline now w s t l)
  unfolding when_offline
  offline-Keeps now w s t l h =
      if-elim Keeps (s.offline_policy == "start_then_execute") _ _
        (λ _.
          if-elim Keeps (started w.start_error) _ _
            (λ _. perform-Keeps now w s t (start_server ∷ []) l h)
            (λ _. record_run-Known now s.id t "failed" l h))
        (λ _.
          if-elim Keeps (s.offline_policy == "wait_until_online") _ _
            (λ _.
              if-elim Keeps w.online_later _ _ (λ _. perform-Keeps now w s t [] l h)
                (λ _. record_run-Known now s.id t "skipped" l h))
            (λ _. record_run-Known now s.id t "skipped" l h))

  pub execute-Keeps :
      (now : ℕ) (w : Situation) (s : Schedule) (t : ℕ) (l : Ledger)
      → Known l
      → Keeps (execute now w s t l)
  unfolding execute
  execute-Keeps now w s t l h =
      let k = mark_running-Known now s.id t l h in
      if-elim Keeps (w.operation_in_progress && not (s.action == "create_backup")) _ _
        (λ _.
          if-elim Keeps (s.conflict_policy == "retry_later") _ _
            (λ _. record_run-Known now s.id t "queued" (mark_running now s.id t l) k)
            (λ _. record_run-Known now s.id t "skipped" (mark_running now s.id t l) k))
        (λ _.
          if-elim Keeps (needs_online s.action && not w.online) _ _
            (λ _. offline-Keeps now w s t (mark_running now s.id t l) k)
            (λ _. perform-Keeps now w s t [] (mark_running now s.id t l) k))

  pub run_now-Keeps :
      (now : ℕ) (w : Situation) (s : Schedule) (l : Ledger) → Known l → Keeps (run_now now w s l)
  unfolding run_now
  run_now-Keeps now w s l h = record_run-Known now s.id now _ l h

  pub missed-Keeps :
      (now : ℕ) (w : Situation) (s : Schedule) (t : ℕ) (l : Ledger)
      → Known l
      → Keeps (handle_missed now w s t l)
  unfolding handle_missed
  missed-Keeps now w s t l h =
      if-elim Keeps (s.missed_run_policy == "run_once_after_startup") _ _
        (λ _. execute-Keeps now w s t l h) (λ _. record_run-Known now s.id t "skipped" l h)
