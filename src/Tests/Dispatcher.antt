-- ===== src/Tests/Dispatcher.antt =====
-- Runs of jobs/dispatcher.py.
use prison_policy_ai.Jobs.Dispatcher.{with_retries}
use prison_policy_ai.Jobs.Dispatcher.{dispatch_row}
use prison_policy_ai.Jobs.Dispatcher.{insert_by_time}
use prison_policy_ai.Prelude.{select}
use prison_policy_ai.Jobs.Dispatcher.{order_by_time}
use prison_policy_ai.Jobs.Dispatcher.{first_rows}
use prison_policy_ai.Jobs.Dispatcher.{dispatch_rows}
use prison_policy_ai.Prelude.{
  ℕ, ◌≤◌, ◌≡◌, refl, List, [], some, false, ◌&&◌, leb, length, ◌==◌, if◌then◌else◌,
}
use prison_policy_ai.Fault.{ok}
use prison_policy_ai.Jobs.Dispatcher.{
  TaskOutbox, is_pending, enqueue_job, Answer, created, transient, permanent, DispatchSummary,
  dispatch_pending, pending_rows,
}
use prison_policy_ai.Jobs.Dispatcher.Delivery.{total, row_by_id, dispatch_pending-accounts}

-- job 1 is taken at the second attempt, job 2 at none, job 3 is rejected
abbrev client : ℕ → ℕ → Answer
client job attempt =
    if job == 1
    then (if attempt == 1 then transient else created)
    else if job == 2
    then transient
    else permanent

abbrev outbox : List TaskOutbox
outbox = enqueue_job 103 3 2 (enqueue_job 102 2 1 (enqueue_job 101 1 0 []))

abbrev after : List TaskOutbox
after = (dispatch_pending client 10 5 outbox).1

abbrev summary : DispatchSummary
summary = record { dispatched = 1; failed = 1; pending = 1 }

summary_is : (dispatch_pending client 10 5 outbox).0 ≡ ok summary
unfolding dispatch_pending dispatch_rows pending_rows first_rows order_by_time select enqueue_job
    insert_by_time dispatch_row with_retries
summary_is = refl

dispatch_pending-accounts_example :
    ((s : DispatchSummary) (rows : List TaskOutbox)
      → dispatch_pending client 10 5 outbox ≡ (ok s, rows)
      → (total s ≡ length (pending_rows 10 5 outbox))
        × (total s ≤ 10)
        × ((id : ℕ) (row : TaskOutbox)
            → is_pending row.state ≡ false
            → row_by_id id outbox ≡ some row
            → row_by_id id rows ≡ some row))
    × ((leb 1 10 && leb 10 1000 ≡ false) → (dispatch_pending client 10 5 outbox).1 ≡ outbox)
dispatch_pending-accounts_example = dispatch_pending-accounts client 5 10 outbox
