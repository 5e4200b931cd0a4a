-- ===== src/Paperwork/Service/Lists.antt =====
-- paperwork/service.py: list_paperwork_records, list_paperwork_revisions and get_paperwork_revision.
-- datetime.isoformat and its reader are parameters.
use prison_policy_ai.Prelude.{
  ℕ, ◌+◌, List, [], ◌∷◌, ◌++◌, map, Option, none, some, Bool, true, not, ◌&&◌, ◌||◌, Text, codes,
  leb, ltb, ◌==◌, select, if◌then◌else◌, length, uuid_text, read_uuid, decimal, read_decimal,
  limit_rows, order_rows, last_row,
}
use prison_policy_ai.Fault.{
  Result, ok, raised, Exec, pure, raise_if, lift, gets, require, value_error,
  paperwork_revision_not_found, ◌>>=◌, ◌>>◌,
}
use prison_policy_ai.Identity.Models.{is_admin}
use prison_policy_ai.Identity.Elevation.{Actor}
use prison_policy_ai.Identity.Normalization.{is_empty}
use prison_policy_ai.Paperwork.Models.{
  PaperworkKind, kind_eq, PaperworkRecord, PaperworkRevision, PaperworkView, PaperworkDb,
}
use prison_policy_ai.Paperwork.CountSheet.{Dict, entry}
use prison_policy_ai.Paperwork.Service.{is_of_kind, view_of, get_paperwork_record}
use prison_policy_ai.Paperwork.Service.Restoring.{revision_of}
use prison_policy_ai.Paperwork.Service.Rows.{same_shift}
use prison_policy_ai.Paperwork.Service.Copies.{normalized_shift}

pub record Isoformat : Type 0 where
  pub isoformat : ℕ → Text
  pub fromisoformat : Text → Option ℕ

pub record ListFilter : Type 0 where
  pub kind : Option PaperworkKind
  pub exclude_kind : Option PaperworkKind
  pub work_date : Option ℕ
  pub shift : Option Text

abbrev pub Cursor : Type 0
Cursor = Dict Text

pub record PaperworkPage : Type 0 where
  pub items : List PaperworkView
  pub next_cursor : Option Cursor

-- value.replace("Z", "+00:00")
unfoldable pub replace_z : Text → Text
replace_z [] = []
replace_z (c ∷ s) = let rest = replace_z s in if c == b'Z' then codes "+00:00" ++ rest else c ∷ rest

unfoldable pub cursor_position : Isoformat → Cursor → Result (ℕ × ℕ)
unfolding entry replace_z
cursor_position iso cursor = elim (entry (codes "updated_at") cursor) [
  | raised f ↦ raised value_error
  | ok updated_at ↦ elim (iso.fromisoformat (replace_z updated_at)) [
    | none ↦ raised value_error
    | some time ↦ elim (entry (codes "id") cursor) [
      | raised f ↦ raised value_error
      | ok id ↦ elim (read_uuid id) [ none ↦ raised value_error | some n ↦ ok (time, n) ]
    ]
  ]
]

-- `if cursor:` is false of an empty dict too
unfoldable pub read_cursor : Isoformat → Option Cursor → Result (Option (ℕ × ℕ))
unfolding cursor_position
read_cursor iso none = ok none
read_cursor iso (some []) = ok none
read_cursor iso (some (e ∷ cursor)) = elim (cursor_position iso (e ∷ cursor)) [
  | raised f ↦ raised f
  | ok position ↦ ok (some position)
]

abbrev pub comes_after : ℕ → ℕ → PaperworkRecord → Bool
comes_after time id row = ltb row.updated_at time || (row.updated_at == time && ltb row.id id)

abbrev pub is_after : Option (ℕ × ℕ) → PaperworkRecord → Bool
is_after none row = true
is_after (some (time, id)) row = comes_after time id row

-- order_by(updated_at.desc(), id.desc())
abbrev pub comes_first : PaperworkRecord → PaperworkRecord → Bool
comes_first a b = comes_after a.updated_at a.id b

abbrev pub is_not_of_kind : Option PaperworkKind → PaperworkRecord → Bool
is_not_of_kind none row = true
is_not_of_kind (some kind) row = not (kind_eq row.kind kind)

abbrev pub is_on_date : Option ℕ → PaperworkRecord → Bool
is_on_date none row = true
is_on_date (some work_date) row = row.work_date == work_date

abbrev pub is_in_shift : Option Text → PaperworkRecord → Bool
is_in_shift none row = true
is_in_shift (some shift) row = same_shift row.shift (some (normalized_shift shift))

-- the conditions of the statement, but for the cursor's
unfoldable pub is_listed : Actor → ListFilter → PaperworkRecord → Bool
is_listed actor filter row =
    (is_admin actor.role || row.created_by_staff_member_id == actor.staff_member_id)
    && is_of_kind filter.kind row
    && is_not_of_kind filter.exclude_kind row
    && is_on_date filter.work_date row
    && is_in_shift filter.shift row

unfoldable pub is_valid_shift : Option Text → Bool
is_valid_shift none = true
is_valid_shift (some shift) =
    not (is_empty (normalized_shift shift)) && leb (length (normalized_shift shift)) 32

abbrev pub cursor_to : Isoformat → PaperworkRecord → Cursor
cursor_to iso row =
    (codes "updated_at", iso.isoformat row.updated_at) ∷ (codes "id", uuid_text row.id) ∷ []

unfoldable pub page_of : Isoformat → ℕ → List PaperworkRecord → PaperworkPage
page_of iso limit rows =
    let page_rows = limit_rows limit rows in
    record {
      items = map view_of page_rows;
      next_cursor =
          if ltb limit (length rows)
          then elim (last_row page_rows) [ none ↦ none | some last ↦ some (cursor_to iso last) ]
          else none;
    }

unfoldable pub list_paperwork_records :
    Isoformat → Actor → ListFilter → ℕ → Option Cursor → PaperworkDb → Result PaperworkPage
unfolding is_valid_shift read_cursor is_listed page_of
list_paperwork_records iso actor filter limit cursor db =
    if not (leb 1 limit && leb limit 50)
    then raised value_error
    else if not (is_valid_shift filter.shift)
    then raised value_error
    else elim (read_cursor iso cursor) [
      | raised f ↦ raised f
      | ok position ↦
          let matching =
            select (λ row. is_listed actor filter row && is_after position row) db.records in
          ok (page_of iso limit (limit_rows (limit + 1) (order_rows comes_first matching)))
    ]

unfoldable pub get_paperwork_revision : Actor → ℕ → ℕ → Exec PaperworkDb PaperworkRevision
unfolding revision_of
get_paperwork_revision actor record_id revision_number = do
  get_paperwork_record actor record_id none
  require (revision_of record_id revision_number) paperwork_revision_not_found

-- the cursor of a list of revisions: its revision number and its id
unfoldable pub revision_position : Cursor → Result (ℕ × ℕ)
unfolding entry
revision_position cursor = elim (entry (codes "revision_number") cursor) [
  | raised f ↦ raised value_error
  | ok number ↦ elim (read_decimal number) [
    | none ↦ raised value_error
    | some n ↦ elim (entry (codes "id") cursor) [
      | raised f ↦ raised value_error
      | ok id ↦ elim (read_uuid id) [ none ↦ raised value_error | some i ↦ ok (n, i) ]
    ]
  ]
]

unfoldable pub read_revision_cursor : Option Cursor → Result (Option (ℕ × ℕ))
unfolding revision_position
read_revision_cursor none = ok none
read_revision_cursor (some []) = ok none
read_revision_cursor (some (e ∷ cursor)) = elim (revision_position (e ∷ cursor)) [
  | raised f ↦ raised f
  | ok position ↦ ok (some position)
]

abbrev pub follows : ℕ → ℕ → PaperworkRevision → Bool
follows n id v = ltb n v.revision_number || (v.revision_number == n && ltb id v.id)

abbrev pub is_following : Option (ℕ × ℕ) → PaperworkRevision → Bool
is_following none v = true
is_following (some (n, id)) v = follows n id v

-- order_by(revision_number, id)
abbrev pub precedes : PaperworkRevision → PaperworkRevision → Bool
precedes a b = follows a.revision_number a.id b

pub record PaperworkRevisionPage : Type 0 where
  pub items : List PaperworkRevision
  pub next_cursor : Option Cursor

abbrev pub revision_cursor : PaperworkRevision → Cursor
revision_cursor v =
    (codes "revision_number", decimal v.revision_number) ∷ (codes "id", uuid_text v.id) ∷ []

unfoldable pub revision_page : ℕ → List PaperworkRevision → PaperworkRevisionPage
revision_page limit rows =
    let page_rows = limit_rows limit rows in
    record {
      items = page_rows;
      next_cursor =
          if ltb limit (length rows)
          then elim (last_row page_rows) [ none ↦ none | some last ↦ some (revision_cursor last) ]
          else none;
    }

unfoldable pub list_paperwork_revisions :
    Actor → ℕ → ℕ → Option Cursor → Option PaperworkKind → Exec PaperworkDb PaperworkRevisionPage
unfolding read_revision_cursor revision_page
list_paperwork_revisions actor record_id limit cursor expected = do
  get_paperwork_record actor record_id expected
  raise_if (not (leb 1 limit && leb limit 100)) value_error
  position ← lift (read_revision_cursor cursor)
  rows ← gets (λ db.
      order_rows precedes
        (select (λ v. v.record_id == record_id && is_following position v) db.revisions))
  pure (revision_page limit (limit_rows (limit + 1) rows))
