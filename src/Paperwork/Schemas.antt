-- ===== src/Paperwork/Schemas.antt =====
-- paperwork/schemas.py: the request to save, the snapshot of a revision, and the paths of what changed.
-- What pydantic refuses is a ValidationError, which is a ValueError.
use prison_policy_ai.Prelude.{
  ℕ, List, [], ◌∷◌, ◌++◌, Option, none, some, Bool, true, false, not, ◌&&◌, ◌||◌, Text, codes,
  text_eq, leb, ltb, ◌==◌, all, if◌then◌else◌, length, is_some,
}
use prison_policy_ai.Fault.{Result, ok, raised, value_error}
use prison_policy_ai.Identity.Json.{obj, Fields, done, field}
use prison_policy_ai.Identity.Normalization.{split_from, join_words, is_empty}
use prison_policy_ai.Identity.Pins.{is_alphanumeric}
use prison_policy_ai.Paperwork.Values.{get_field, fields_size, json_eq, utf8_length}
use prison_policy_ai.Paperwork.Models.{
  PaperworkKind, kind_eq, RevisionReason, autosave, manual_save, recovery, restored,
  PaperworkSnapshot,
}

pub record SavePaperworkRequest : Type 0 where
  pub work_date : ℕ
  pub shift : Option Text
  pub payload : Fields
  pub base_revision_number : Option ℕ
  pub reason : RevisionReason

-- normalize_shift
unfoldable pub normalize_shift : Option Text → Option Text
unfolding split_from join_words
normalize_shift none = none
normalize_shift (some value) =
    let cleaned = join_words (split_from [] value) in
    if is_empty cleaned then none else some cleaned

abbrev pub max_shift_characters : ℕ
max_shift_characters = 32

abbrev pub max_top_level_payload_fields : ℕ
max_top_level_payload_fields = 100

abbrev pub max_paperwork_json_bytes : ℕ
max_paperwork_json_bytes = 750000

abbrev pub fits_shift : Option Text → Bool
fits_shift none = true
fits_shift (some s) = leb (length s) max_shift_characters

abbrev pub fits_base : Option ℕ → Bool
fits_base none = true
fits_base (some n) = leb 1 n

abbrev pub is_save_reason : RevisionReason → Bool
is_save_reason autosave = true
is_save_reason manual_save = true
is_save_reason recovery = true
is_save_reason restored = false

-- SavePaperworkRequest(…): the fields of a request after validation
unfoldable pub save_request :
    ℕ → Option Text → Fields → Option ℕ → RevisionReason → Result SavePaperworkRequest
unfolding normalize_shift
save_request work_date shift payload base_revision_number reason =
    let shift' = normalize_shift shift in
    if fits_shift shift'
      && leb (fields_size payload) max_top_level_payload_fields
      && fits_base base_revision_number
      && is_save_reason reason
      && leb (utf8_length (obj payload)) max_paperwork_json_bytes
    then ok (record {
      work_date = work_date;
      shift = shift';
      payload = payload;
      base_revision_number = base_revision_number;
      reason = reason;
    })
    else raised value_error

-- PaperworkSnapshotV1(…)
unfoldable pub paperwork_snapshot :
    PaperworkKind → ℕ → Option Text → Fields → Result PaperworkSnapshot
paperwork_snapshot kind work_date shift payload =
    if fits_shift shift && leb (fields_size payload) max_top_level_payload_fields
    then ok (record { kind = kind; work_date = work_date; shift = shift; payload = payload })
    else raised value_error

abbrev pub snapshot_for_request : PaperworkKind → SavePaperworkRequest → Result PaperworkSnapshot
snapshot_for_request kind request =
    paperwork_snapshot kind request.work_date request.shift request.payload

abbrev pub option_eq : Option Text → Option Text → Bool
option_eq none none = true
option_eq none (some _) = false
option_eq (some _) none = false
option_eq (some s) (some t) = text_eq s t

-- `<=` on str
unfoldable pub text_leb : Text → Text → Bool
text_leb [] t = true
text_leb (a ∷ s) [] = false
text_leb (a ∷ s) (b ∷ t) = ltb a b || (a == b && text_leb s t)

-- a path into the sorted paths of a set
unfoldable pub add_path : Text → List Text → List Text
unfolding text_leb
add_path p [] = p ∷ []
add_path p (q ∷ qs) =
    let rest = add_path p qs in
    if text_eq p q then q ∷ qs else if text_leb p q then p ∷ q ∷ qs else q ∷ rest

abbrev pub add_path_if : Bool → Text → List Text → List Text
add_path_if b p paths = if b then add_path p paths else paths

unfoldable pub without_underscores : Text → Text
without_underscores [] = []
without_underscores (c ∷ s) =
    let rest = without_underscores s in if c == b'_' then rest else c ∷ rest

-- str.isalnum, on the ASCII names that the payload models have
unfoldable pub is_section_name : Text → Bool
unfolding is_alphanumeric without_underscores all
is_section_name s =
    let bare = without_underscores s in not (is_empty bare) && all is_alphanumeric bare

unfoldable pub section_path : Text → Text
unfolding is_section_name
section_path section =
    if is_section_name section then codes "payload." ++ section else codes "payload"

-- the sections named by the keys of `keys` whose values differ
unfoldable pub section_paths : Fields → Fields → Fields → List Text → List Text
unfolding get_field json_eq section_path
section_paths done before after paths = paths
section_paths (field section x keys) before after paths = section_paths keys before after (
    add_path_if (not (json_eq (get_field section before) (get_field section after)))
      (section_path section) paths)

unfoldable pub payload_paths : Fields → Fields → List Text → List Text
unfolding section_paths json_eq
payload_paths before after paths =
    if json_eq (obj before) (obj after)
    then paths
    else section_paths after before after (section_paths before before after paths)

unfoldable pub changed_field_paths : Option PaperworkSnapshot → PaperworkSnapshot → List Text
unfolding payload_paths add_path
changed_field_paths none current =
    add_path_if (is_some current.shift) (codes "shift")
      (codes "kind" ∷ codes "payload" ∷ codes "work_date" ∷ [])
changed_field_paths (some previous) current = payload_paths previous.payload current.payload (
    add_path_if (not (option_eq previous.shift current.shift)) (codes "shift") (
      add_path_if (not (previous.work_date == current.work_date)) (codes "work_date")
        (add_path_if (not (kind_eq previous.kind current.kind)) (codes "kind") [])))
