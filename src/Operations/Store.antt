-- ===== src/Operations/Store.antt =====
-- The table of operations: source/internal/operations/operations.go without its lock. Times are seconds, and
-- `none` is NULL; `told` are the operations that were broadcast, the last one first.
use bonghos.Base.{
  leb, ℕ, Bool, ◌||◌, not, List, [], ◌∷◌, ◌++◌, Option, none, some, map, if◌then◌else◌, any, filter,
  take, String, ◌==◌,
}

-- Terminal
abbrev pub terminal : String → Bool
terminal stage = stage == "completed" || (stage == "failed" || stage == "cancelled")

pub record Operation : Type 0 where
  pub id : String
  pub kind : String
  pub stage : String
  pub status_message : String
  pub bytes_processed : ℕ
  pub total_bytes : ℕ
  pub created_at : ℕ
  pub started_at : Option ℕ
  pub last_progress_at : Option ℕ
  pub finished_at : Option ℕ
  pub error : String

pub record Operations : Type 0 where
  pub rows : List Operation
  pub cancels : List String
  pub told : List String

-- `UPDATE operations SET ... WHERE id=?`
abbrev pub update_row : String → (Operation → Operation) → Operation → Operation
update_row id f row = if row.id == id then f row else row

abbrev pub update : String → (Operation → Operation) → List Operation → List Operation
update id f rows = map (update_row id f) rows

abbrev pub is_known : String → List Operation → Bool
is_known id rows = any (λ r. r.id == id) rows

-- broadcast: nothing is told of an operation that is not there.
abbrev pub broadcast : String → Operations → Operations
broadcast id s = if is_known id s.rows then record s { told = id ∷ s.told } else s

abbrev pub coalesce : Option ℕ → Option ℕ → Option ℕ
coalesce (some t) u = some t
coalesce none u = u

-- Create; the token is a fresh id, and `none` is the error of the table's unique key.
unfoldable pub create : ℕ → String → String → Operations → Option Operations
create now token kind s =
    if is_known token s.rows
    then none
    else some (record s {
      rows =
          s.rows
          ++ record {
            id = token;
            kind = kind;
            stage = "queued";
            status_message = "";
            bytes_processed = 0;
            total_bytes = 0;
            created_at = now;
            started_at = none;
            last_progress_at = none;
            finished_at = none;
            error = "";
          }
            ∷ [];
    })

-- RegisterCancel and the function that it returns.
unfoldable pub register_cancel : String → Operations → Operations
register_cancel id s = record s { cancels = id ∷ filter (λ c. not (c == id)) s.cancels }

unfoldable pub remove_cancel : String → Operations → Operations
remove_cancel id s = record s { cancels = filter (λ c. not (c == id)) s.cancels }

-- Cancel: whether there was a function to call.
unfoldable pub cancel : String → Operations → Bool
cancel id s = any (λ c. c == id) s.cancels

unfoldable pub set_stage : ℕ → String → String → String → Operations → Operations
set_stage now id stage msg s = broadcast id (record s {
  rows =
      update id
        (λ r. record r {
          stage = stage;
          status_message = msg;
          last_progress_at = some now;
          started_at = coalesce r.started_at (if stage == "queued" then none else some now);
        })
        s.rows;
})

unfoldable pub progress : ℕ → String → ℕ → ℕ → Operations → Operations
progress now id processed total s = broadcast id (record s {
  rows =
      update id
        (λ r. record r {
          bytes_processed = processed;
          total_bytes = total;
          last_progress_at = some now;
        })
        s.rows;
})

unfoldable pub finish : ℕ → String → String → String → Operations → Operations
unfolding remove_cancel
finish now id stage err s = broadcast id (
    remove_cancel id (record s {
      rows =
          update id (λ r. record r { stage = stage; error = err; finished_at = some now }) s.rows;
    }))

abbrev pub interrupted : ℕ → Operation → Operation
interrupted now r = if terminal r.stage then r else record r {
  stage = "failed";
  error = "interrupted by Bonghos restart";
  finished_at = some now;
}

unfoldable pub clean_stale : ℕ → Operations → Operations
clean_stale now s = record s { rows = map (interrupted now) s.rows }

-- The rows that List selects, before they are ordered and cut at 100.
abbrev pub selected : Bool → List Operation → List Operation
selected active_only rows = if active_only then filter (λ r. not (terminal r.stage)) rows else rows

-- Newest first; `ORDER BY created_at DESC`, with rows of one second in the order of the table.
unfoldable pub insert_row : Operation → List Operation → List Operation
insert_row r [] = r ∷ []
insert_row r (x ∷ xs) =
    let rest = insert_row r xs in if leb x.created_at r.created_at then r ∷ x ∷ xs else x ∷ rest

unfoldable pub newest_first : List Operation → List Operation
unfolding insert_row
newest_first [] = []
newest_first (r ∷ rs) = insert_row r (newest_first rs)

unfoldable pub list_operations : Bool → Operations → List Operation
unfolding newest_first
list_operations active_only s = take 100 (newest_first (selected active_only s.rows))

-- What happens to the table, in the order of the calls.
pub data Call : Type 0 where
  creates : String → String → Call
  sets_stage : String → String → String → Call
  progresses : String → ℕ → ℕ → Call
  finishes : String → String → String → Call
  restarts : Call

abbrev pub kept_or : Operations → Option Operations → Operations
kept_or s none = s
kept_or s (some t) = t

unfoldable pub perform : ℕ → Call → Operations → Operations
perform now (creates token kind) s = kept_or s (create now token kind s)
perform now (sets_stage id stage msg) s = set_stage now id stage msg s
perform now (progresses id processed total) s = progress now id processed total s
perform now (finishes id stage err) s = finish now id stage err s
perform now restarts s = clean_stale now s

unfoldable pub perform_all : List (ℕ × Call) → Operations → Operations
perform_all [] s = s
perform_all (c ∷ cs) s = perform_all cs (perform c.0 c.1 s)
