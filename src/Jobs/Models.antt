-- ===== src/Jobs/Models.antt =====
-- persistence/models/jobs.py: the job rows, and the references that a result may hold.
use prison_policy_ai.Prelude.{
  ℕ, List, [], ◌∷◌, Option, none, some, Bool, true, not, ◌&&◌, String, leb, ◌==◌, any, length,
  if◌then◌else◌,
}
use prison_policy_ai.Fault.{Result, ok, raised, invalid_job_result}
use prison_policy_ai.Identity.Models.{Db}

pub data JobType : Type 0 where
  classify extract generate disciplinary : JobType

pub data JobState : Type 0 where
  queued running succeeded failed cancelled : JobState

pub data JobStage : Type 0 where
  waiting classifying extracting validating generating disciplining completed stopped : JobStage

pub record ReportReference : Type 0 where
  pub report_id : ℕ
  pub revision_number : ℕ

pub record ResultReference : Type 0 where
  pub incident_revision_number : Option ℕ
  pub reports : Option (List ReportReference)

abbrev pub no_result : ResultReference
no_result = record { incident_revision_number = none; reports = none }

-- `item` before the references with larger ids
unfoldable pub insert_reference : ReportReference → List ReportReference → List ReportReference
insert_reference item [] = item ∷ []
insert_reference item (x ∷ xs) =
    let rest = insert_reference item xs in
    if leb item.report_id x.report_id then item ∷ x ∷ xs else x ∷ rest

unfoldable pub sort_references : List ReportReference → List ReportReference
sort_references [] = []
sort_references (x ∷ xs) = insert_reference x (sort_references xs)

unfoldable pub are_references : List ReportReference → Bool
are_references [] = true
are_references (x ∷ xs) =
    leb 1 x.revision_number
    && not (any (λ (y : ReportReference). y.report_id == x.report_id) xs)
    && are_references xs

abbrev pub is_revision : Option ℕ → Bool
is_revision none = true
is_revision (some n) = leb 1 n

-- `normalize_job_result_reference`, on a value of the shape that it asks for
unfoldable pub normalize_job_result_reference : ResultReference → Result ResultReference
normalize_job_result_reference value =
    if not (is_revision value.incident_revision_number)
    then raised invalid_job_result
    else elim value.reports [
      | none ↦ ok value
      | some reports ↦
          if leb (length reports) 20 && are_references reports
          then ok (record value { reports = some (sort_references reports) })
          else raised invalid_job_result
    ]

pub record AiJob : Type 0 where
  pub id : ℕ
  pub incident_id : ℕ
  pub report_id : Option ℕ
  pub requested_by_account_id : ℕ
  pub job_type : JobType
  pub state : JobState
  pub stage : JobStage
  pub base_incident_revision : ℕ
  pub attempts : ℕ
  pub lease_expires_at : Option ℕ
  pub claim_token : Option ℕ
  pub result_reference : ResultReference
  pub error_code : Option String
  pub created_at : ℕ
  pub started_at : Option ℕ
  pub completed_at : Option ℕ

-- the columns of incidents and revisions that the jobs read
pub record Incident : Type 0 where
  pub id : ℕ
  pub current_revision_number : ℕ

pub record IncidentRevision : Type 0 where
  pub incident_id : ℕ
  pub revision_number : ℕ

pub record ReportRevision : Type 0 where
  pub report_id : ℕ
  pub incident_id : ℕ
  pub revision_number : ℕ

pub record Store : Type 0 where
  pub jobs : List AiJob
  pub incidents : List Incident
  pub incident_revisions : List IncidentRevision
  pub report_revisions : List ReportRevision
  pub identity : Db
