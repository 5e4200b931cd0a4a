-- ===== src/Tests/Jobs.antt =====
-- Runs of jobs/service.py.
use prison_policy_ai.Prelude.{all, ◌==◌}
use prison_policy_ai.Jobs.Service.{finish_job}
use prison_policy_ai.Jobs.Service.{is_claimable}
use prison_policy_ai.Prelude.{
  ℕ, ◌+◌, ◌≡◌, ◌≢◌, ◌⊎◌, ◌<◌, refl, [], ◌∷◌, none, some, arith, true, minutes, find, update_where,
}
use prison_policy_ai.Fault.{ok}
use prison_policy_ai.Jobs.Models.{
  succeeded, failed, stopped, completed, running, queued, generate, waiting, ResultReference,
  normalize_job_result_reference, no_result, AiJob, Incident, Store,
}
use prison_policy_ai.Jobs.Service.{
  is_current_claim, job_by_id, claimed_job, claim_job, succeeded_job, has_result_targets,
  apply_job_result,
}
use prison_policy_ai.Jobs.Service.Leases.{
  none_yet, one_more, claims, applies, Calls-KeepsTerminal, claim_job-exclusive,
  apply_job_result-ends,
}
use prison_policy_ai.Tests.Samples.{db}

abbrev job : AiJob
job = record {
  id = 1;
  incident_id = 7;
  report_id = none;
  requested_by_account_id = 10;
  job_type = generate;
  state = queued;
  stage = waiting;
  base_incident_revision = 3;
  attempts = 0;
  lease_expires_at = none;
  claim_token = none;
  result_reference = no_result;
  error_code = none;
  created_at = 0;
  started_at = none;
  completed_at = none;
}

abbrev store : Store
store = record {
  jobs = job ∷ [];
  incidents = record { id = 7; current_revision_number = 3 } ∷ [];
  incident_revisions = [];
  report_revisions = [];
  identity = db;
}

abbrev taken : AiJob
taken = claimed_job 5 77 job

abbrev taken_store : Store
taken_store = (claim_job 1 5 77 store).1

-- another worker claims in vain and then presents its own token
abbrev tried_store : Store
tried_store = (apply_job_result 1 3 (some 78) no_result 9 "r" (claim_job 1 8 78 taken_store).1).1

claim_job-exclusive_example :
    (job_by_id 1 tried_store ≡ some taken)
    × (taken.state ≡ running)
    × ((now other : ℕ)
        → now < 5 + minutes 20
        → claim_job 1 now other tried_store ≡ (none, tried_store))
unfolding claim_job find is_claimable
claim_job-exclusive_example = claim_job-exclusive 1 5 77 store taken_store tried_store taken refl (
    one_more 9 (one_more 8 none_yet (omega arith) (claims 1 78)) (omega arith)
      (applies 1 3 (some 78) no_result "r" (λ e. ground arith)))

abbrev done_store : Store
done_store = (apply_job_result 1 3 (some 77) no_result 9 "r" taken_store).1

apply_job_result-ends_example :
    (taken.state ≡ running)
    × ((held : ℕ) × (until : ℕ) × (some 77 ≡ some held)
        × (taken.claim_token ≡ some held)
        × (taken.lease_expires_at ≡ some until)
        × (9 < until))
    × ((incident : Incident) × (find
            (λ (i : Incident). i.id == taken.incident_id)
            taken_store.incidents
          ≡ some incident)
        × ((3 ≢ taken.base_incident_revision) ⊎ (incident.current_revision_number ≢ 3)
            → job_by_id 1 done_store
              ≡ some (record taken {
                state = failed;
                stage = stopped;
                error_code = some "job_result_conflict";
                completed_at = some 9;
                claim_token = none;
                lease_expires_at = none;
              }))
        × (3 ≡ taken.base_incident_revision
            → incident.current_revision_number ≡ 3
            → (reference : ResultReference) × (normalize_job_result_reference no_result
                ≡ ok reference)
              × (has_result_targets taken reference taken_store ≡ true)
              × (job_by_id 1 done_store
                  ≡ some (record taken {
                    state = succeeded;
                    stage = completed;
                    error_code = none;
                    result_reference = reference;
                    completed_at = some 9;
                    claim_token = none;
                    lease_expires_at = none;
                  }))))
unfolding claim_job find is_claimable update_where apply_job_result normalize_job_result_reference
    is_current_claim finish_job has_result_targets all
apply_job_result-ends_example =
    apply_job_result-ends 1 3 (some 77) no_result 9 "r" taken_store done_store taken refl refl refl

abbrev ended : AiJob
ended = succeeded_job no_result 9 taken

abbrev ended_store : Store
ended_store = record store { jobs = ended ∷ [] }

Calls-KeepsTerminal_example : job_by_id 1 (claim_job 1 99 5 ended_store).1 ≡ some ended
unfolding find
Calls-KeepsTerminal_example =
    Calls-KeepsTerminal 1 ended (one_more 99 none_yet tt (claims 1 5)) refl refl
