-- ===== src/Jobs/Service.antt =====
-- jobs/service.py: the claim of a job and the end of its execution.
pub mod Keeps
pub mod Leases
use prison_policy_ai.Prelude.{
  ℕ, ◌+◌, ◌-◌, ◌*◌, ◌/◌, List, [], ◌∷◌, ◌++◌, Option, none, some, Bool, true, false, not, ◌&&◌,
  ◌||◌, String, leb, ltb, ◌==◌, any, all, find, update_where, if◌then◌else◌, is_none, is_some,
  or_else, minutes, min,
}
use prison_policy_ai.Fault.{
  Result, ok, raised, Exec, pure, raise, raise_if, lift, gets, require, modify, value_error,
  runtime_error, job_not_found, stale_job_claim, invalid_job_result, ◌>>=◌, ◌>>◌,
}
use prison_policy_ai.Identity.Models.{
  Account, AuditEvent, Detail, ident, word, number, Db, account_by_id,
}
use prison_policy_ai.Jobs.Models.{
  JobType, classify, extract, generate, disciplinary, JobState, queued, running, succeeded, failed,
  cancelled, JobStage, waiting, classifying, extracting, validating, disciplining, completed,
  stopped, ReportReference, ResultReference, normalize_job_result_reference, AiJob, Incident,
  IncidentRevision, ReportRevision, Store,
}

-- CLAIM_STAGES
abbrev pub claim_stage : JobType → JobStage
claim_stage classify = classifying
claim_stage extract = extracting
claim_stage generate = validating
claim_stage disciplinary = disciplining

-- TERMINAL_STATES
abbrev pub is_terminal : JobState → Bool
is_terminal queued = false
is_terminal running = false
is_terminal succeeded = true
is_terminal failed = true
is_terminal cancelled = true

abbrev pub is_queued : JobState → Bool
is_queued queued = true
is_queued _ = false

abbrev pub is_running : JobState → Bool
is_running running = true
is_running _ = false

-- JOB_LEASE_DURATION
abbrev pub job_lease_duration : ℕ
job_lease_duration = minutes 20

abbrev pub job_by_id : ℕ → Store → Option AiJob
job_by_id i store = find (λ j. j.id == i) store.jobs

abbrev pub update_job : ℕ → (AiJob → AiJob) → Store → Store
update_job i f store = record store { jobs = update_where (λ j. j.id == i) f store.jobs }

abbrev pub lease_is_over : Option ℕ → ℕ → Bool
lease_is_over none now = true
lease_is_over (some t) now = leb t now

unfoldable pub is_claimable : AiJob → ℕ → Bool
is_claimable job now =
    is_queued job.state || (is_running job.state && lease_is_over job.lease_expires_at now)

abbrev pub claimed_job : ℕ → ℕ → AiJob → AiJob
claimed_job now token job = record job {
  state = running;
  stage = claim_stage job.job_type;
  attempts = job.attempts + 1;
  started_at = some (or_else job.started_at now);
  claim_token = some token;
  lease_expires_at = some (now + job_lease_duration);
}

-- `token` is the UUID that the claim draws
unfoldable pub claim_job : ℕ → ℕ → ℕ → Store → Option AiJob × Store
claim_job job_id now token store = elim (job_by_id job_id store) [
  | none ↦ (none, store)
  | some job ↦
      if is_claimable job now
      then (some (claimed_job now token job), update_job job_id (claimed_job now token) store)
      else (none, store)
]

abbrev pub has_incident_revision : AiJob → Option ℕ → Store → Bool
has_incident_revision job none store = true
has_incident_revision job (some n) store =
    any (λ r. r.incident_id == job.incident_id && r.revision_number == n) store.incident_revisions

unfoldable pub has_report_revision : AiJob → Store → ReportReference → Bool
has_report_revision job store item =
    any
      (λ r.
        r.report_id == item.report_id
        && r.revision_number == item.revision_number
        && r.incident_id == job.incident_id)
      store.report_revisions

-- `_validate_result_targets`
unfoldable pub has_result_targets : AiJob → ResultReference → Store → Bool
has_result_targets job reference store =
    has_incident_revision job reference.incident_revision_number store
    && all (has_report_revision job store) (or_else reference.reports [])

abbrev pub job_type_name : JobType → String
job_type_name classify = "classify"
job_type_name extract = "extract"
job_type_name generate = "generate"
job_type_name disciplinary = "disciplinary"

unfoldable pub job_event :
    Account → AiJob → String → String → String → List (String × Detail) → AuditEvent
job_event account job action result request_id details = record {
  actor_account_id = some account.id;
  actor_staff_member_id = some account.staff_member_id;
  action = action;
  result = result;
  request_id = request_id;
  target_type = "ai_job";
  target_id = some job.id;
  details = ("job_id", ident job.id) ∷ ("job_type", word (job_type_name job.job_type)) ∷ details;
}

abbrev pub append_event : AuditEvent → Store → Store
append_event event store = record store {
  identity = record store.identity { audit = (store.identity).audit ++ event ∷ [] };
}

abbrev pub failed_job : ℕ → AiJob → AiJob
failed_job now job = record job {
  state = failed;
  stage = stopped;
  error_code = some "job_result_conflict";
  completed_at = some now;
  claim_token = none;
  lease_expires_at = none;
}

abbrev pub succeeded_job : ResultReference → ℕ → AiJob → AiJob
succeeded_job reference now job = record job {
  state = succeeded;
  stage = completed;
  error_code = none;
  result_reference = reference;
  completed_at = some now;
  claim_token = none;
  lease_expires_at = none;
}

-- the milliseconds since the job was made, at most 1_000_000_000; a negative number is 0
abbrev pub latency_ms : AiJob → ℕ → ℕ
latency_ms job now = min ((now - job.created_at) / 1000) 1000000000

abbrev pub holds_claim : AiJob → Option ℕ → Bool
holds_claim job none = false
holds_claim job (some token) = elim job.claim_token [ none ↦ false | some t ↦ t == token ]

unfoldable pub is_current_claim : AiJob → Option ℕ → ℕ → Bool
is_current_claim job token now =
    holds_claim job token && not (lease_is_over job.lease_expires_at now)

unfoldable pub fail_job : AiJob → Account → ℕ → String → Store → Store
fail_job job account now request_id store =
    append_event
      (job_event account job "ai.job_failed" "failed" request_id
        (("result_code", word "job_result_conflict") ∷ []))
      (update_job job.id (failed_job now) store)

unfoldable pub succeed_job : AiJob → Account → ResultReference → ℕ → String → Store → Store
succeed_job job account reference now request_id store =
    append_event
      (job_event account job "ai.job_succeeded" "success" request_id
        (("latency_ms", number (latency_ms job now)) ∷ []))
      (update_job job.id (succeeded_job reference now) store)

abbrev pub is_stale_result : AiJob → Incident → ℕ → Bool
is_stale_result job incident expected =
    not (expected == job.base_incident_revision)
    || not (incident.current_revision_number == expected)

abbrev pub incident_of : AiJob → Store → Option Incident
incident_of job store = find (λ i. i.id == job.incident_id) store.incidents

-- a running job whose claim is at hand
unfoldable pub finish_job : AiJob → ℕ → ResultReference → ℕ → String → Exec Store (Unit {0})
finish_job job expected reference now request_id = do
  incident ← require (incident_of job) job_not_found
  account ←
      require (λ store. account_by_id job.requested_by_account_id store.identity) runtime_error
  if is_stale_result job incident expected
      then modify (fail_job job account now request_id)
      else (do
        valid ← gets (has_result_targets job reference)
        raise_if (not valid) invalid_job_result
        modify (succeed_job job account reference now request_id))

unfoldable pub apply_job_result :
    ℕ → ℕ → Option ℕ → ResultReference → ℕ → String → Exec Store (Unit {0})
apply_job_result job_id expected claim_token result_reference now request_id = do
  raise_if (leb expected 0) value_error
  reference ← lift (normalize_job_result_reference result_reference)
  job ← require (job_by_id job_id) job_not_found
  if is_terminal job.state then pure tt else (do
    raise_if (not (is_running job.state)) value_error
    raise_if (not (is_current_claim job claim_token now)) stale_job_claim
    finish_job job expected reference now request_id)
