-- ===== src/Identity/Idempotency.antt =====
-- identity/idempotency.py: a request with a key takes effect once, and its answer is replayed.
pub mod Replay
pub mod Safety
use text.Mathlib.Text.{◌==◌ as str_eq}
use prison_policy_ai.Prelude.{
  ℕ, ◌+◌, List, [], ◌∷◌, ◌++◌, Option, none, some, Bool, true, false, not, ◌&&◌, ◌||◌, String, Text,
  codes, text_eq, leb, ltb, ◌==◌, find, update_where, any, all, if◌then◌else◌, is_none, hours,
  length,
}
use prison_policy_ai.Fault.{
  Result, ok, raised, Exec, pure, raise, raise_if, require, modify, gets, value_error,
  runtime_error, idempotency_conflict, request_in_progress, ◌>>=◌, ◌>>◌,
}
use prison_policy_ai.Identity.Json.{
  Json, null, boolean, number, string, arr, obj, Items, end, item, Fields, done, field,
  encoded_length,
}

pub data RecordStatus : Type 0 where
  in_progress completed : RecordStatus

pub record IdempotencyRecord : Type 0 where
  pub id : ℕ
  pub actor_account_id : ℕ
  pub action : String
  pub idempotency_key : Text
  pub request_sha256 : ℕ
  pub status : RecordStatus
  pub response_status : Option ℕ
  pub response_reference : Fields
  pub created_at : ℕ
  pub completed_at : Option ℕ
  pub expires_at : ℕ

pub record IdempotencyClaim : Type 0 where
  pub record_id : ℕ
  pub replayed : Bool
  pub response_status : Option ℕ
  pub response_reference : Option Fields

abbrev pub forbidden_reference_keys : List Text
forbidden_reference_keys =
    codes "access_token"
    ∷ codes "renewal_token"
    ∷ codes "temporary_pin"
    ∷ codes "pin"
    ∷ codes "step_up_token"
    ∷ codes "report_text"
    ∷ codes "field_notes"
    ∷ []

unfoldable pub is_forbidden : Text → Bool
is_forbidden key = any (text_eq key) forbidden_reference_keys

unfoldable mutual
  -- `_safe_reference`; a dict is safe if no key is forbidden and every value is safe
  pub safe_reference : Json → Bool
  safe_reference null = true
  safe_reference (boolean _) = true
  safe_reference (number _) = true
  safe_reference (string _) = true
  safe_reference (arr xs) = safe_items xs
  safe_reference (obj fs) = safe_fields fs

  pub safe_items : Items → Bool
  safe_items end = true
  safe_items (item x xs) = safe_reference x && safe_items xs

  pub safe_fields : Fields → Bool
  safe_fields done = true
  safe_fields (field k x fs) = not (is_forbidden k) && safe_reference x && safe_fields fs

-- the class [A-Za-z0-9._:-], 8 to 128 times
unfoldable pub is_key_char : ℕ → Bool
is_key_char c =
    (leb b'A' c && leb c b'Z')
    || (leb b'a' c && leb c b'z')
    || (leb b'0' c && leb c b'9')
    || c == b'.'
    || c == b'_'
    || c == b':'
    || c == b'-'

unfoldable pub is_key : Text → Bool
is_key key = leb 8 (length key) && leb (length key) 128 && all is_key_char key

abbrev pub Records : Type 0
Records = List IdempotencyRecord

-- the columns of the unique constraint
abbrev pub of_request : ℕ → String → Text → IdempotencyRecord → Bool
of_request actor action key row =
    row.actor_account_id == actor && str_eq row.action action && text_eq row.idempotency_key key

abbrev pub fresh_record : ℕ → ℕ → String → Text → ℕ → ℕ → IdempotencyRecord
fresh_record id actor action key digest now = record {
  id = id;
  actor_account_id = actor;
  action = action;
  idempotency_key = key;
  request_sha256 = digest;
  status = in_progress;
  response_status = none;
  response_reference = done;
  created_at = now;
  completed_at = none;
  expires_at = now + hours 24;
}

abbrev pub claimed : ℕ → IdempotencyClaim
claimed id = record {
  record_id = id;
  replayed = false;
  response_status = none;
  response_reference = none;
}

-- the record of an expired key, used anew
abbrev pub restarted : ℕ → ℕ → IdempotencyRecord → IdempotencyRecord
restarted digest now row = record row {
  request_sha256 = digest;
  status = in_progress;
  response_status = none;
  response_reference = done;
  created_at = now;
  completed_at = none;
  expires_at = now + hours 24;
}

abbrev pub is_completed : RecordStatus → Bool
is_completed in_progress = false
is_completed completed = true

abbrev pub answer : IdempotencyRecord → IdempotencyClaim
answer row = record {
  record_id = row.id;
  replayed = true;
  response_status = row.response_status;
  response_reference = some row.response_reference;
}

abbrev pub update_record : ℕ → (IdempotencyRecord → IdempotencyRecord) → Records → Records
update_record id f = update_where (λ r. r.id == id) f

-- the record that the insert ran into
unfoldable pub claim_existing : IdempotencyRecord → ℕ → ℕ → Exec Records IdempotencyClaim
claim_existing row digest now rows =
    if leb row.expires_at now
    then (ok (claimed row.id), update_record row.id (restarted digest now) rows)
    else if not (row.request_sha256 == digest)
    then (raised idempotency_conflict, rows)
    else if is_completed row.status
    then (ok (answer row), rows)
    else (raised request_in_progress, rows)

-- `new_id` is the UUID that the database draws for an inserted row. The digest of a request is 32
-- bytes by its type.
unfoldable pub claim_idempotency : ℕ → Text → String → ℕ → ℕ → ℕ → Exec Records IdempotencyClaim
claim_idempotency actor key action digest now new_id rows =
    if not (is_key key)
    then (raised value_error, rows)
    else elim (find (of_request actor action key) rows) [
      | none ↦ (ok (claimed new_id), rows ++ fresh_record new_id actor action key digest now ∷ [])
      | some row ↦ claim_existing row digest now rows
    ]

abbrev pub finished : ℕ → Fields → ℕ → IdempotencyRecord → IdempotencyRecord
finished response_status reference now row = record row {
  status = completed;
  response_status = some response_status;
  response_reference = reference;
  completed_at = some now;
}

abbrev pub record_by_id : ℕ → Records → Option IdempotencyRecord
record_by_id id rows = find (λ r. r.id == id) rows

unfoldable pub complete_idempotency : IdempotencyClaim → ℕ → Fields → ℕ → Exec Records (Unit {0})
complete_idempotency claim response_status reference now = if claim.replayed then pure tt else do
  raise_if (not (safe_reference (obj reference))) value_error
  raise_if (ltb 4096 (encoded_length (obj reference))) value_error
  row ← require (record_by_id claim.record_id) runtime_error
  raise_if (is_completed row.status) runtime_error
  modify (update_record row.id (finished response_status reference now))
