-- ===== src/Paperwork/Models.antt =====
-- persistence/models/paperwork.py and paperwork/models.py: the records, their revisions, and what the
-- services read and write beside them.
use prison_policy_ai.Prelude.{ℕ, List, [], ◌++◌, ◌∷◌, Option, Bool, String, Text, ◌==◌}
use prison_policy_ai.Fault.{Exec, modify}
use prison_policy_ai.Identity.Models.{AuditEvent}
use prison_policy_ai.Identity.Json.{Fields}
use prison_policy_ai.Identity.Idempotency.{Records}

pub data PaperworkKind : Type 0 where
  count_sheet assignment_roster uniform_inspection metal_detector_test : PaperworkKind
  perimeter_check random_search_log detector_sign_out : PaperworkKind

-- the position in the closed list of kinds
abbrev pub kind_code : PaperworkKind → ℕ
kind_code count_sheet = 0
kind_code assignment_roster = 1
kind_code uniform_inspection = 2
kind_code metal_detector_test = 3
kind_code perimeter_check = 4
kind_code random_search_log = 5
kind_code detector_sign_out = 6

abbrev pub kind_eq : PaperworkKind → PaperworkKind → Bool
kind_eq a b = kind_code a == kind_code b

abbrev pub kind_value : PaperworkKind → String
kind_value count_sheet = "count_sheet"
kind_value assignment_roster = "assignment_roster"
kind_value uniform_inspection = "uniform_inspection"
kind_value metal_detector_test = "metal_detector_test"
kind_value perimeter_check = "perimeter_check"
kind_value random_search_log = "random_search_log"
kind_value detector_sign_out = "detector_sign_out"

pub data RevisionReason : Type 0 where
  autosave manual_save recovery restored : RevisionReason

pub record PaperworkRecord : Type 0 where
  pub id : ℕ
  pub kind : PaperworkKind
  pub work_date : ℕ
  pub shift : Option Text
  pub current_revision_number : ℕ
  pub current_payload : Fields
  pub created_by_account_id : ℕ
  pub created_by_staff_member_id : ℕ
  pub last_editor_account_id : ℕ
  pub last_editor_staff_member_id : ℕ
  pub created_at : ℕ
  pub updated_at : ℕ

-- PaperworkSnapshotV1, whose schema version is 1
pub record PaperworkSnapshot : Type 0 where
  pub kind : PaperworkKind
  pub work_date : ℕ
  pub shift : Option Text
  pub payload : Fields

pub record PaperworkRevision : Type 0 where
  pub id : ℕ
  pub record_id : ℕ
  pub revision_number : ℕ
  pub editor_account_id : ℕ
  pub editor_staff_member_id : ℕ
  pub snapshot : PaperworkSnapshot
  pub changed_fields : List Text
  pub reason : RevisionReason
  pub client_version : String
  pub request_id : String
  pub created_at : ℕ

pub record PaperworkView : Type 0 where
  pub record_id : ℕ
  pub kind : PaperworkKind
  pub work_date : ℕ
  pub shift : Option Text
  pub current_revision_number : ℕ
  pub payload : Fields
  pub created_by_staff_member_id : ℕ
  pub last_editor_staff_member_id : ℕ
  pub created_at : ℕ
  pub updated_at : ℕ

-- the tables that the paperwork services use
pub record PaperworkDb : Type 0 where
  pub records : List PaperworkRecord
  pub revisions : List PaperworkRevision
  pub requests : Records
  pub audit : List AuditEvent

-- a call of the idempotency service in the same transaction
abbrev pub on_requests : {A : Type 0} → Exec Records A → Exec PaperworkDb A
on_requests call db =
    let (r, requests') = call db.requests in (r, record db { requests = requests' })

abbrev pub paperwork_audit : AuditEvent → Exec PaperworkDb (Unit {0})
paperwork_audit event = modify (λ db. record db { audit = db.audit ++ event ∷ [] })
