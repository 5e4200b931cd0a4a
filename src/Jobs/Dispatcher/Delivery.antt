-- ===== src/Jobs/Dispatcher/Delivery.antt =====
-- What a dispatch does to the outbox.
use prison_policy_ai.Prelude.{
  ℕ, zero, suc, String, leb, select, ◌+◌, ◌≤◌, ◌≡◌, refl, List, [], ◌∷◌, Option, some, Bool, true,
  false, ◌&&◌, arith, find, find-update_where, length, ◌==◌,
}
use prison_policy_ai.Fault.{ok}
use prison_policy_ai.Jobs.Dispatcher.{
  TaskOutbox, is_pending, marked_dispatched, marked_failure, update_pending, Answer, created,
  already_exists, transient, permanent, with_retries, DispatchSummary, dispatch_row, dispatch_rows,
  dispatch_pending, pending_rows, first_rows, order_by_time, is_available,
}

abbrev pub total : DispatchSummary → ℕ
total s = s.dispatched + s.failed + s.pending

abbrev pub row_by_id : ℕ → List TaskOutbox → Option TaskOutbox
row_by_id id rows = find (λ r. r.id == id) rows

-- a row that is not pending is not written
update-keeps :
    (id i : ℕ) (f : TaskOutbox → TaskOutbox) (rows : List TaskOutbox) (row : TaskOutbox)
    → ((x : TaskOutbox) → (f x).id ≡ x.id)
    → is_pending row.state ≡ false
    → row_by_id id rows ≡ some row
    → row_by_id id (update_pending i f rows) ≡ some row
update-keeps id i f rows row keeps sent found =
    rw
      (
        find-update_where (λ (r : TaskOutbox). r.id == id)
            (λ (r : TaskOutbox). r.id == i && is_pending r.state) f rows (λ x. rw (keeps x)),
        found,
      )
      (ground (arith, sent))

marked_failure-id :
    (code : String) (retryable : Bool) (now : ℕ) (x : TaskOutbox)
    → (marked_failure code retryable now x).id ≡ x.id
unfolding marked_failure
marked_failure-id code retryable now x = ground arith

dispatch_row-keeps :
    (answer : Answer) (id i now : ℕ) (s : DispatchSummary) (rows : List TaskOutbox)
    (row : TaskOutbox)
    → is_pending row.state ≡ false
    → row_by_id id rows ≡ some row
    → row_by_id id (dispatch_row answer i now (s, rows)).1 ≡ some row
unfolding dispatch_row
dispatch_row-keeps created id i now s rows row sent found =
    (update-keeps id i (marked_dispatched now) rows row (λ x. refl) sent found)
dispatch_row-keeps already_exists id i now s rows row sent found =
    (update-keeps id i (marked_dispatched now) rows row (λ x. refl) sent found)
dispatch_row-keeps transient id i now s rows row sent found =
    (update-keeps id i (marked_failure "task_service_unavailable" true now) rows row
      (marked_failure-id "task_service_unavailable" true now) sent found)
dispatch_row-keeps permanent id i now s rows row sent found =
    (update-keeps id i (marked_failure "task_request_rejected" false now) rows row
      (marked_failure-id "task_request_rejected" false now) sent found)

dispatch_row-total :
    (answer : Answer) (i now : ℕ) (s : DispatchSummary) (rows : List TaskOutbox)
    → total (dispatch_row answer i now (s, rows)).0 ≡ total s + 1
unfolding dispatch_row
dispatch_row-total created i now s rows = omega arith
dispatch_row-total already_exists i now s rows = omega arith
dispatch_row-total transient i now s rows = omega arith
dispatch_row-total permanent i now s rows = omega arith

module _ (client : ℕ → ℕ → Answer) (now : ℕ) where
  dispatch_rows-total :
      (todo : List TaskOutbox) (s : DispatchSummary) (rows : List TaskOutbox)
      → total (dispatch_rows client now todo (s, rows)).0 ≡ total s + length todo
  unfolding dispatch_rows
  dispatch_rows-total [] s rows = omega arith
  dispatch_rows-total (x ∷ todo) s rows =
      let next = dispatch_row (with_retries (client x.ai_job_id)) x.id now (s, rows) in
      omega (
        arith,
        dispatch_row-total (with_retries (client x.ai_job_id)) x.id now s rows,
        dispatch_rows-total todo next.0 next.1,
      )

  dispatch_rows-keeps :
      (todo : List TaskOutbox) (s : DispatchSummary) (rows : List TaskOutbox) (id : ℕ)
      (row : TaskOutbox)
      → is_pending row.state ≡ false
      → row_by_id id rows ≡ some row
      → row_by_id id (dispatch_rows client now todo (s, rows)).1 ≡ some row
  unfolding dispatch_rows
  dispatch_rows-keeps [] s rows id row sent found = found
  dispatch_rows-keeps (x ∷ todo) s rows id row sent found =
      let next = dispatch_row (with_retries (client x.ai_job_id)) x.id now (s, rows) in
      dispatch_rows-keeps todo next.0 next.1 id row sent
        (dispatch_row-keeps (with_retries (client x.ai_job_id)) id x.id now s rows row sent found)

  length-first_rows : (n : ℕ) (rows : List TaskOutbox) → length (first_rows n rows) ≤ n
  unfolding first_rows
  length-first_rows zero rows = omega arith
  length-first_rows (suc n) [] = omega arith
  length-first_rows (suc n) (x ∷ xs) = omega (arith, length-first_rows n xs)

  -- A dispatch answers for every row that it takes up: the three counts add up to the number of those
  -- rows, which is at most the limit. Whatever the client answers, a row that is not pending, since it
  -- was dispatched or has failed for good, stays as it is, and with an invalid limit the outbox does.
  pub dispatch_pending-accounts :
      (limit : ℕ) (rows : List TaskOutbox)
      → ((summary : DispatchSummary) (after : List TaskOutbox)
          → dispatch_pending client limit now rows ≡ (ok summary, after)
          → (total summary ≡ length (pending_rows limit now rows))
            × (total summary ≤ limit)
            × ((id : ℕ) (row : TaskOutbox)
                → is_pending row.state ≡ false
                → row_by_id id rows ≡ some row
                → row_by_id id after ≡ some row))
        × ((leb 1 limit && leb limit 1000 ≡ false)
            → (dispatch_pending client limit now rows).1 ≡ rows)
  unfolding dispatch_pending
  dispatch_pending-accounts limit rows = (
    λ summary after h.
        let start : DispatchSummary = record { dispatched = 0; failed = 0; pending = 0 } in
        let sum = dispatch_rows-total (pending_rows limit now rows) start rows in
        let short : length (pending_rows limit now rows) ≤ limit =
          unfold pending_rows in
          length-first_rows limit (order_by_time (select (is_available now) rows)) in
        let e : (summary ≡ (dispatch_rows client now (pending_rows limit now rows) (start, rows)).0)
            × (after ≡ (dispatch_rows client now (pending_rows limit now rows) (start, rows)).1) =
          (ground arith, ground arith) in
        (
          rw e.0 (omega (arith, sum)),
          rw e.0 (omega (arith, sum, short)),
          λ id row sent found.
              rw e.1
                (dispatch_rows-keeps (pending_rows limit now rows) start rows id row sent found),
        ),
    λ bad. ground (arith, bad),
  )
