-- ===== src/Jobs/Dispatcher.antt =====
-- jobs/outbox.py and jobs/dispatcher.py: the outbox of the jobs and its dispatch to Cloud Tasks.
pub mod Delivery
use prison_policy_ai.Prelude.{
  ℕ, zero, suc, ◌+◌, ◌^◌, List, [], ◌∷◌, ◌++◌, Option, none, some, Bool, true, false, not, ◌&&◌,
  ◌||◌, String, leb, ltb, ◌==◌, find, select, update_where, if◌then◌else◌, seconds, min,
}
use prison_policy_ai.Fault.{Result, ok, raised, value_error}

pub data OutboxState : Type 0 where
  pending dispatched failed : OutboxState

pub record TaskOutbox : Type 0 where
  pub id : ℕ
  pub ai_job_id : ℕ
  pub state : OutboxState
  pub attempts : ℕ
  pub available_at : ℕ
  pub dispatched_at : Option ℕ
  pub last_error_code : Option String
  pub created_at : ℕ

abbrev pub is_pending : OutboxState → Bool
is_pending pending = true
is_pending dispatched = false
is_pending failed = false

-- `id` is the UUID that the call draws
unfoldable pub enqueue_job : ℕ → ℕ → ℕ → List TaskOutbox → List TaskOutbox
enqueue_job id job_id now rows =
    rows
    ++ record {
      id = id;
      ai_job_id = job_id;
      state = pending;
      attempts = 0;
      available_at = now;
      dispatched_at = none;
      last_error_code = none;
      created_at = now;
    }
      ∷ []

abbrev pub is_available : ℕ → TaskOutbox → Bool
is_available now row = is_pending row.state && leb row.available_at now

-- ORDER BY available_at, id
abbrev pub is_before : TaskOutbox → TaskOutbox → Bool
is_before a b =
    ltb a.available_at b.available_at || (a.available_at == b.available_at && leb a.id b.id)

unfoldable pub insert_by_time : TaskOutbox → List TaskOutbox → List TaskOutbox
insert_by_time row [] = row ∷ []
insert_by_time row (x ∷ xs) =
    let rest = insert_by_time row xs in if is_before row x then row ∷ x ∷ xs else x ∷ rest

unfoldable pub order_by_time : List TaskOutbox → List TaskOutbox
order_by_time [] = []
order_by_time (x ∷ xs) = insert_by_time x (order_by_time xs)

-- LIMIT
unfoldable pub first_rows : ℕ → List TaskOutbox → List TaskOutbox
first_rows zero rows = []
first_rows (suc n) [] = []
first_rows (suc n) (x ∷ xs) = x ∷ first_rows n xs

unfoldable pub pending_rows : ℕ → ℕ → List TaskOutbox → List TaskOutbox
pending_rows limit now rows = first_rows limit (order_by_time (select (is_available now) rows))

abbrev pub marked_dispatched : ℕ → TaskOutbox → TaskOutbox
marked_dispatched now row = record row {
  state = dispatched;
  attempts = row.attempts + 1;
  dispatched_at = some now;
  last_error_code = none;
}

-- the seconds until the next attempt
unfoldable pub backoff : ℕ → ℕ
backoff attempts = min 300 (2 ^ min attempts 8)

unfoldable pub marked_failure : String → Bool → ℕ → TaskOutbox → TaskOutbox
marked_failure code retryable now row =
    if retryable
    then record row {
      attempts = row.attempts + 1;
      last_error_code = some code;
      available_at = now + seconds (backoff (row.attempts + 1));
    }
    else record row { attempts = row.attempts + 1; last_error_code = some code; state = failed }

-- a write to the row with this id, if it is still pending
abbrev pub update_pending : ℕ → (TaskOutbox → TaskOutbox) → List TaskOutbox → List TaskOutbox
update_pending id f rows = update_where (λ row. row.id == id && is_pending row.state) f rows

-- How a call of the Cloud Tasks client ends.
pub data Answer : Type 0 where
  created already_exists transient permanent : Answer

-- `with_retries`: at most three attempts; `client` answers an attempt on a job
unfoldable pub with_retries : (ℕ → Answer) → Answer
with_retries client = elim (client 1) [
  | transient ↦ elim (client 2) [ transient ↦ client 3 | other ↦ other ]
  | other ↦ other
]

pub record DispatchSummary : Type 0 where
  pub dispatched : ℕ
  pub failed : ℕ
  pub pending : ℕ

-- what one row's answer does to the outbox and to the counts
unfoldable pub dispatch_row :
    Answer → ℕ → ℕ → DispatchSummary × List TaskOutbox → DispatchSummary × List TaskOutbox
dispatch_row created id now (s, rows) =
    (record s { dispatched = s.dispatched + 1 }, update_pending id (marked_dispatched now) rows)
dispatch_row already_exists id now (s, rows) =
    (record s { dispatched = s.dispatched + 1 }, update_pending id (marked_dispatched now) rows)
dispatch_row transient id now (s, rows) = (
  record s { pending = s.pending + 1 },
  update_pending id (marked_failure "task_service_unavailable" true now) rows,
)
dispatch_row permanent id now (s, rows) = (
  record s { failed = s.failed + 1 },
  update_pending id (marked_failure "task_request_rejected" false now) rows,
)

unfoldable pub dispatch_rows :
    (ℕ → ℕ → Answer)
    → ℕ
    → List TaskOutbox
    → DispatchSummary × List TaskOutbox
    → DispatchSummary × List TaskOutbox
dispatch_rows client now [] state = state
dispatch_rows client now (row ∷ rest) state =
    dispatch_rows client now rest
      (dispatch_row (with_retries (client row.ai_job_id)) row.id now state)

unfoldable pub dispatch_pending :
    (ℕ → ℕ → Answer) → ℕ → ℕ → List TaskOutbox → Result DispatchSummary × List TaskOutbox
dispatch_pending client limit now rows =
    if leb 1 limit && leb limit 1000
    then (let (s, after) =
          dispatch_rows client now (pending_rows limit now rows)
            (record { dispatched = 0; failed = 0; pending = 0 }, rows) in
        (ok s, after))
    else (raised value_error, rows)
