-- ===== src/Jobs/Service/Keeps.antt =====
-- Which calls of jobs/service.py leave the row of a job as it is.
use prison_policy_ai.Prelude.{
  ℕ, ◌≡◌, ◌≢◌, refl, sym, subst, List, Option, some, true, false, String, arith, find, find_sound,
  find-update_where, update_where, Bool-cases, Option-cases, ◌⊎◌, inl, inr, ◌==◌, ==_iff,
}
use prison_policy_ai.Fault.{Result-cases}
use prison_policy_ai.Identity.Models.{account_by_id}
use prison_policy_ai.Jobs.Models.{ResultReference, normalize_job_result_reference, AiJob, Store}
use prison_policy_ai.Jobs.Service.{
  is_terminal, is_claimable, is_current_claim, job_by_id, claimed_job, claim_job, failed_job,
  succeeded_job, fail_job, succeed_job, finish_job, apply_job_result, incident_of,
}

-- an update by another id, or by the id where it finds nothing to do
find_other :
    (id i : ℕ) (f : AiJob → AiJob) (jobs : List AiJob) (job : AiJob)
    → ((x : AiJob) → (f x).id ≡ x.id)
    → find (λ (j : AiJob). j.id == id) jobs ≡ some job
    → i ≢ id
    → find (λ (j : AiJob). j.id == id) (update_where (λ (j : AiJob). j.id == i) f jobs) ≡ some job
find_other id i f jobs job keeps found apart =
    let is_id : job.id ≡ id =
      (==_iff job.id id).0 (find_sound (λ (j : AiJob). j.id == id) jobs job found) in
    rw
      (
        find-update_where (λ (j : AiJob). j.id == id) (λ (j : AiJob). j.id == i) f jobs
            (λ x. rw (keeps x)),
        found,
      )
      (ground arith)

-- an update by the id of the row that a query by id finds
pub find_own :
    (id : ℕ) (f : AiJob → AiJob) (jobs : List AiJob) (job : AiJob)
    → ((x : AiJob) → (f x).id ≡ x.id)
    → find (λ (j : AiJob). j.id == id) jobs ≡ some job
    → find (λ (j : AiJob). j.id == id) (update_where (λ (j : AiJob). j.id == job.id) f jobs)
      ≡ some (f job)
find_own id f jobs job keeps found =
    rw
      (
        find-update_where (λ (j : AiJob). j.id == id) (λ (j : AiJob). j.id == job.id) f jobs
            (λ x. rw (keeps x)),
        found,
      )
      (ground (arith, ==_iff job.id job.id))

pub claim-keeps :
    (id i now token : ℕ) (store : Store) (job : AiJob)
    → job_by_id id store ≡ some job
    → is_claimable job now ≡ false
    → job_by_id id (claim_job i now token store).1 ≡ some job
unfolding claim_job
claim-keeps id i now token store job found held = elim (Bool-cases (i == id)) [
  | inl same ↦
      let e : i ≡ id = (==_iff i id).0 same in
      let at : job_by_id i store ≡ some job =
        subst (λ k. job_by_id k store ≡ some job) (sym e) found in
      ground (arith, at, held, found)
  | inr other ↦ elim (Option-cases (job_by_id i store)) [
    | inl gone ↦ ground (arith, gone, found)
    | inr (row, at) ↦ ground (
      arith,
      at,
      found,
      find_other id i (claimed_job now token) store.jobs job (λ x. refl) found
          (λ e. ground (arith, other)),
    )
  ]
]

-- what the end of an execution does to a job with another id
finish-keeps :
    (id : ℕ) (row : AiJob) (expected : ℕ) (reference : ResultReference) (now : ℕ)
    (request_id : String) (store : Store) (job : AiJob)
    → job_by_id id store ≡ some job
    → row.id ≢ id
    → job_by_id id (finish_job row expected reference now request_id store).1 ≡ some job
unfolding finish_job fail_job succeed_job
finish-keeps id row expected reference now request_id store job found apart =
    elim (Option-cases (incident_of row store)) [
      | inl gone ↦ ground (arith, gone, found)
      | inr (incident, at) ↦
          elim (Option-cases (account_by_id row.requested_by_account_id store.identity)) [
            | inl gone ↦ ground (arith, at, gone, found)
            | inr (account, known) ↦ ground (
              arith,
              at,
              known,
              found,
              find_other id row.id (failed_job now) store.jobs job (λ x. refl) found apart,
              find_other id row.id (succeeded_job reference now) store.jobs job (λ x. refl) found
                  apart,
            )
          ]
    ]

pub apply-keeps :
    (id i expected : ℕ) (token : Option ℕ) (reference : ResultReference) (now : ℕ)
    (request_id : String) (store : Store) (job : AiJob)
    → job_by_id id store ≡ some job
    → (is_terminal job.state ≡ true) ⊎ (is_current_claim job token now ≡ false)
    → job_by_id id (apply_job_result i expected token reference now request_id store).1 ≡ some job
unfolding apply_job_result
apply-keeps id i expected token reference now request_id store job found held =
    elim (Result-cases (normalize_job_result_reference reference)) [
      | inr (f, e) ↦ ground (arith, e, found)
      | inl (normal, e) ↦ elim (Option-cases (job_by_id i store)) [
        | inl gone ↦ ground (arith, e, gone, found)
        | inr (row, at) ↦ elim (Bool-cases (i == id)) [
          | inl same ↦
              let at' : job_by_id i store ≡ some job =
                subst (λ k. job_by_id k store ≡ some job) (sym ((==_iff i id).0 same)) found in
              ground (arith, e, at', held, found)
          | inr other ↦
              let is_i : row.id ≡ i =
                (==_iff row.id i).0 (find_sound (λ (j : AiJob). j.id == i) store.jobs row at) in
              ground (
                arith,
                e,
                at,
                found,
                finish-keeps id row expected normal now request_id store job found
                    (λ k. ground (arith, is_i, other)),
              )
        ]
      ]
    ]
