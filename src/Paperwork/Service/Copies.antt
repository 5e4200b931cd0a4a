-- ===== src/Paperwork/Service/Copies.antt =====
-- paperwork/service.py: copy_previous_daily_record. The JSON of a roster (pydantic) is a parameter.
use prison_policy_ai.Prelude.{
  ℕ, List, [], ◌∷◌, Option, none, some, Bool, true, not, ◌&&◌, ◌||◌, Text, ltb, ◌==◌, find, select,
  if◌then◌else◌, length,
}
use prison_policy_ai.Fault.{
  Result, ok, raised, Exec, raise_if, lift, gets, require, value_error, paperwork_not_found,
  paperwork_already_exists, ◌>>=◌, ◌>>◌,
}
use prison_policy_ai.Identity.Json.{Fields}
use prison_policy_ai.Identity.Models.{is_admin}
use prison_policy_ai.Identity.Normalization.{split_from, join_words, is_empty}
use prison_policy_ai.Identity.Elevation.{Actor}
use prison_policy_ai.Paperwork.Models.{
  PaperworkKind, assignment_roster, kind_eq, manual_save, PaperworkRecord, PaperworkView,
  PaperworkDb,
}
use prison_policy_ai.Paperwork.Schemas.{SavePaperworkRequest, save_request}
use prison_policy_ai.Paperwork.Daily.{AssignmentRoster, RosterDefinition}
use prison_policy_ai.Paperwork.Daily.Derived.{prepare_copied_roster_payload}
use prison_policy_ai.Paperwork.Service.{Rules, Call}
use prison_policy_ai.Paperwork.Service.Rows.{same_shift}
use prison_policy_ai.Paperwork.Service.Saves.{save_paperwork_record}

pub record Rosters : Type 0 where
  pub definition : RosterDefinition
  pub read_roster : Fields → Result AssignmentRoster
  pub dump_roster : AssignmentRoster → Fields

abbrev pub is_roster_of : ℕ → Text → PaperworkRecord → Bool
is_roster_of work_date shift row =
    kind_eq row.kind assignment_roster
    && row.work_date == work_date
    && same_shift row.shift (some shift)

abbrev pub is_named : Option ℕ → PaperworkRecord → Bool
is_named none row = true
is_named (some id) row = row.id == id

abbrev pub is_source : ℕ → Text → Option ℕ → PaperworkRecord → Bool
is_source target_work_date shift source_record_id row =
    kind_eq row.kind assignment_roster
    && ltb row.work_date target_work_date
    && same_shift row.shift (some shift)
    && is_named source_record_id row

-- order_by(work_date.desc(), updated_at.desc(), id.desc())
unfoldable pub is_later : PaperworkRecord → PaperworkRecord → Bool
is_later a b =
    ltb b.work_date a.work_date
    || (a.work_date == b.work_date
        && (ltb b.updated_at a.updated_at || (a.updated_at == b.updated_at && ltb b.id a.id)))

unfoldable pub latest : List PaperworkRecord → Option PaperworkRecord
unfolding is_later
latest [] = none
latest (row ∷ rows) = elim (latest rows) [
  | none ↦ some row
  | some best ↦ if is_later best row then some best else some row
]

-- raise of an exception that names the record found
abbrev pub refuse_existing : Option PaperworkRecord → Exec PaperworkDb (Unit {0})
refuse_existing none db = (ok tt, db)
refuse_existing (some row) db = (raised (paperwork_already_exists row.id), db)

unfoldable pub copy_request : Rosters → PaperworkRecord → ℕ → Text → Result SavePaperworkRequest
copy_request rosters source target_work_date shift =
    elim (rosters.read_roster source.current_payload) [
      | raised f ↦ raised f
      | ok roster ↦
          elim (prepare_copied_roster_payload rosters.definition roster target_work_date shift) [
            | raised f ↦ raised f
            | ok copy ↦
                save_request target_work_date (some shift) (rosters.dump_roster copy) none
                  manual_save
          ]
    ]

-- what follows the checks of the arguments
unfoldable pub copy_to :
    Rules → Rosters → Actor → Call → ℕ → Text → Option ℕ → Exec PaperworkDb PaperworkView
copy_to rules rosters actor call target_work_date shift source_record_id = do
  existing ← gets (λ db. find (is_roster_of target_work_date shift) db.records)
  refuse_existing existing
  source ←
      require (λ db. latest (select (is_source target_work_date shift source_record_id) db.records))
        paperwork_not_found
  request ← lift (copy_request rosters source target_work_date shift)
  save_paperwork_record rules actor call assignment_roster request none

abbrev pub normalized_shift : Text → Text
normalized_shift shift = join_words (split_from [] shift)

unfoldable pub copy_previous_daily_record :
    Rules
    → Rosters
    → Actor
    → Call
    → PaperworkKind
    → ℕ
    → Text
    → Option ℕ
    → Exec PaperworkDb PaperworkView
copy_previous_daily_record rules rosters actor call kind target_work_date shift source_record_id =
    do
      raise_if (not (kind_eq kind assignment_roster)) value_error
      raise_if (not (is_admin actor.role)) paperwork_not_found
      raise_if (is_empty (normalized_shift shift) || ltb 32 (length (normalized_shift shift)))
          value_error
      copy_to rules rosters actor call target_work_date (normalized_shift shift) source_record_id
