-- ===== src/Operations/StoreLaws.antt =====
-- What the table of operations in source/internal/operations/operations.go keeps.
use bonghos.Base.{
  ℕ, ◌≡◌, refl, sym, ap, ◌∙◌, inl, inr, true, false, not, List, [], ◌∷◌, ◌++◌, Option, none, some,
  map, if◌then◌else◌, if-elim, filter, take, String, ◌==◌, Bool-cases, arith,
}
use bonghos.Operations.Store.{
  terminal, Operation, Operations, update_row, update, is_known, broadcast, create, remove_cancel,
  set_stage, progress, finish, interrupted, clean_stale, newest_first, list_operations, Call,
  creates, sets_stage, progresses, finishes, restarts, kept_or, perform, perform_all,
}

-- The row of an operation.
unfoldable pub find : String → List Operation → Option Operation
find id [] = none
find id (r ∷ rs) = let rest = find id rs in if r.id == id then some r else rest

-- The operation is in the table, created and started when it was.
abbrev pub IsStarted : String → ℕ → Option ℕ → List Operation → Type 0
IsStarted id created started rows =
    (r : Operation) × ((find id rows ≡ some r)
      × ((r.created_at ≡ created) × (r.started_at ≡ started)))

find-map :
    (id : String) (f : Operation → Operation) (rows : List Operation) (r : Operation)
    → ((x : Operation) → (f x).id ≡ x.id)
    → find id rows ≡ some r
    → find id (map f rows) ≡ some (f r)
unfolding find
find-map id f [] r k h = cc h
find-map id f (x ∷ rows) r k h = elim (Bool-cases (x.id == id)) [
  | inl e ↦
      let q : x ≡ r = ground (arith, h, e) in
      let g : (f x).id == id ≡ true = ap (λ i. i == id) (k x) ∙ e in rw g (ap (λ y. some (f y)) q)
  | inr e ↦
      let g : (f x).id == id ≡ false = ap (λ i. i == id) (k x) ∙ e in
      rw g (find-map id f rows r k (ground (arith, h, e)))
]

find-append :
    (id : String) (rows : List Operation) (r x : Operation)
    → find id rows ≡ some r
    → find id (rows ++ x ∷ []) ≡ some r
unfolding find
find-append id [] r x h = cc h
find-append id (y ∷ rows) r x h = elim (Bool-cases (y.id == id)) [
  | inl e ↦ let q : y ≡ r = ground (arith, h, e) in rw e (ap (λ o. some o) q)
  | inr e ↦ rw e (find-append id rows r x (ground (arith, h, e)))
]

module _ (id : String) (created t : ℕ) where
  abbrev Started : List Operation → Type 0
  Started rows = IsStarted id created (some t) rows

  -- An update that leaves ids, creation and a start that was recorded.
  mapped :
      (f : Operation → Operation) (rows : List Operation)
      → ((x : Operation) → (f x).id ≡ x.id)
      → ((x : Operation) → (f x).created_at ≡ x.created_at)
      → ((x : Operation) → x.started_at ≡ some t → (f x).started_at ≡ some t)
      → Started rows
      → Started (map f rows)
  mapped f rows k c s (r, (e, (m, n))) = (f r, (find-map id f rows r k e, (c r ∙ m, s r n)))

  told : (other : String) (s : Operations) → Started s.rows → Started (broadcast other s).rows
  told other s h =
      if-elim (λ (u : Operations). Started u.rows) (is_known other s.rows) _ _ (λ _. h) (λ _. h)

  updated :
      (other : String) (f : Operation → Operation) (rows : List Operation)
      → ((x : Operation) → (f x).id ≡ x.id)
      → ((x : Operation) → (f x).created_at ≡ x.created_at)
      → ((x : Operation) → x.started_at ≡ some t → (f x).started_at ≡ some t)
      → Started rows
      → Started (update other f rows)
  updated other f rows k c s h =
      mapped (update_row other f) rows
        (λ x. if-elim (λ (y : Operation). y.id ≡ x.id) (x.id == other) _ _ (λ _. k x) (λ _. refl))
        (λ x.
          if-elim (λ (y : Operation). y.created_at ≡ x.created_at) (x.id == other) _ _ (λ _. c x)
            (λ _. refl))
        (λ x n.
          if-elim (λ (y : Operation). y.started_at ≡ some t) (x.id == other) _ _ (λ _. s x n)
            (λ _. n))
        h

  appended : (x : Operation) (rows : List Operation) → Started rows → Started (rows ++ x ∷ [])
  appended x rows (r, (e, h)) = (r, (find-append id rows r x e, h))

  perform-Started :
      (now : ℕ) (c : Call) (s : Operations) → Started s.rows → Started (perform now c s).rows
  unfolding perform create set_stage progress finish remove_cancel clean_stale
  perform-Started now (creates token kind) s h =
      if-elim (λ o. Started (kept_or s o).rows) (is_known token s.rows) _ _ (λ _. h)
        (λ _. appended _ s.rows h)
  perform-Started now (sets_stage other stage msg) s h =
      told other _ (updated other _ s.rows (λ x. refl) (λ x. refl) (λ x n. rw n refl) h)
  perform-Started now (progresses other processed total) s h =
      told other _ (updated other _ s.rows (λ x. refl) (λ x. refl) (λ x n. n) h)
  perform-Started now (finishes other stage err) s h =
      told other _ (updated other _ s.rows (λ x. refl) (λ x. refl) (λ x n. n) h)
  perform-Started now restarts s h =
      mapped (interrupted now) s.rows
        (λ x.
          if-elim (λ (y : Operation). y.id ≡ x.id) (terminal x.stage) _ _ (λ _. refl) (λ _. refl))
        (λ x.
          if-elim (λ (y : Operation). y.created_at ≡ x.created_at) (terminal x.stage) _ _
            (λ _. refl) (λ _. refl))
        (λ x n.
          if-elim (λ (y : Operation). y.started_at ≡ some t) (terminal x.stage) _ _ (λ _. n)
            (λ _. n))
        h

-- Once an operation has started, no sequence of calls takes it off the table or changes when it was created
-- or when it started.
pub perform_all-IsStarted :
    (id : String) (created t : ℕ) (calls : List (ℕ × Call)) (s : Operations)
    → IsStarted id created (some t) s.rows
    → IsStarted id created (some t) (perform_all calls s).rows
unfolding perform_all
perform_all-IsStarted id created t [] s h = h
perform_all-IsStarted id created t (c ∷ calls) s h =
    perform_all-IsStarted id created t calls (perform c.0 c.1 s)
      (perform-Started id created t c.0 c.1 s h)

-- After a restart nothing is active any more.
interrupted-terminal : (now : ℕ) (r : Operation) → terminal (interrupted now r).stage ≡ true
interrupted-terminal now r =
    if-elim (λ (x : Operation). terminal x.stage ≡ true) (terminal r.stage) _ _ (λ e. e) (λ _. refl)

none_active :
    (now : ℕ) (rows : List Operation)
    → filter (λ r. not (terminal r.stage)) (map (interrupted now) rows) ≡ []
none_active now [] = refl
none_active now (r ∷ rows) = rw (interrupted-terminal now r, none_active now rows) refl

terminal_kept :
    (now : ℕ) (id : String) (rows : List Operation) (r : Operation)
    → find id rows ≡ some r
    → terminal r.stage ≡ true
    → find id (map (interrupted now) rows) ≡ some r
terminal_kept now id rows r h k =
    find-map id (interrupted now) rows r
      (λ x. if-elim (λ (y : Operation). y.id ≡ x.id) (terminal x.stage) _ _ (λ _. refl) (λ _. refl))
      h
    ∙ ap (λ o. some o)
        (if-elim (λ (x : Operation). x ≡ r) (terminal r.stage) _ _ (λ _. refl)
          (λ e. absurd (let b : true ≡ false = sym k ∙ e in cc b)))

-- After CleanStale the list of active operations is empty, and an operation that had ended is as it was.
pub clean_stale_lem :
    (now : ℕ) (id : String) (s : Operations) (r : Operation)
    → find id s.rows ≡ some r
    → terminal r.stage ≡ true
    → (list_operations true (clean_stale now s) ≡ []) × (find id (clean_stale now s).rows ≡ some r)
unfolding clean_stale list_operations newest_first
clean_stale_lem now id s r h k = (
  ap (λ rows. take 100 (newest_first rows)) (none_active now s.rows),
  terminal_kept now id s.rows r h k,
)
