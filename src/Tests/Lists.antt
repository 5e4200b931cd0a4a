-- ===== src/Tests/Lists.antt =====
-- Runs of the queries of paperwork/service.py.
use prison_policy_ai.Prelude.{text_eq}
use prison_policy_ai.Paperwork.Service.Lists.{is_listed}
use prison_policy_ai.Prelude.{select}
use prison_policy_ai.Prelude.{order_rows}
use prison_policy_ai.Identity.Normalization.{is_space}
use prison_policy_ai.Identity.Normalization.{split_from}
use prison_policy_ai.Identity.Normalization.{join_words}
use prison_policy_ai.Prelude.{
  ℕ, ◌+◌, ◌-◌, ◌≡◌, refl, [], ◌∷◌, map, Option, some, none, codes, Text, arith, all, hex_bound,
  ==_iff, All, true, Unique, ◌<◌,
}
use prison_policy_ai.Fault.{ok}
use prison_policy_ai.Identity.Json.{done}
use prison_policy_ai.Identity.Models.{user}
use prison_policy_ai.Identity.Elevation.{Actor}
use prison_policy_ai.Paperwork.Models.{
  PaperworkDb, PaperworkRecord, PaperworkKind, count_sheet, perimeter_check,
}
use prison_policy_ai.Paperwork.Service.{view_of}
use prison_policy_ai.Paperwork.Service.Lists.{Isoformat, ListFilter, is_valid_shift}
use prison_policy_ai.Paperwork.Service.Pages.{IsReadable, read_pages, read_pages_complete}

abbrev lister : Actor
lister = record {
  account_id = 10;
  staff_member_id = 1;
  session_id = 5;
  role = user;
  auth_version = 1;
}

abbrev sheet_of : ℕ → PaperworkKind → ℕ → ℕ → PaperworkRecord
sheet_of id kind staff at = record {
  id = id;
  kind = kind;
  work_date = 20300;
  shift = some (codes "Days");
  current_revision_number = 1;
  current_payload = done;
  created_by_account_id = 10;
  created_by_staff_member_id = staff;
  last_editor_account_id = 10;
  last_editor_staff_member_id = staff;
  created_at = at;
  updated_at = at;
}

abbrev listed_db : PaperworkDb
listed_db = record {
  records =
      sheet_of 1 count_sheet 1 50
      ∷ sheet_of 2 perimeter_check 1 70
      ∷ sheet_of 3 count_sheet 2 80
      ∷ sheet_of 4 count_sheet 1 60
      ∷ sheet_of 5 count_sheet 1 60
      ∷ [];
  revisions = [];
  requests = [];
  audit = [];
}

abbrev count_sheets : ListFilter
count_sheets = record {
  kind = some count_sheet;
  exclude_kind = none;
  work_date = none;
  shift = some (codes " Days ");
}

-- one character tells the time
abbrev read_time : Text → Option ℕ
read_time [] = none
read_time (c ∷ s) = some (c - 91)

abbrev one_character_iso : Isoformat
one_character_iso = record { isoformat = λ t. (t + 91) ∷ []; fromisoformat = read_time }

one_character_iso-IsReadable : IsReadable one_character_iso
unfolding all
one_character_iso-IsReadable t = (ground (arith, ==_iff (t + 91) 90), ground arith)

days_valid : is_valid_shift count_sheets.shift ≡ true
unfolding is_valid_shift join_words split_from is_space
days_valid = refl

listed_ids : All (λ (r : PaperworkRecord). r.id < hex_bound 32) listed_db.records
listed_ids = (omega arith, (omega arith, (omega arith, (omega arith, (omega arith, tt)))))

listed_apart : Unique (λ (r : PaperworkRecord). r.id) listed_db.records
listed_apart = (
  (
    λ e. omega (arith, e),
    (λ e. omega (arith, e), (λ e. omega (arith, e), (λ e. omega (arith, e), tt))),
  ),
  (
    (λ e. omega (arith, e), (λ e. omega (arith, e), (λ e. omega (arith, e), tt))),
    ((λ e. omega (arith, e), (λ e. omega (arith, e), tt)), ((λ e. omega (arith, e), tt), (tt, tt))),
  ),
)

read_pages_complete_example :
    read_pages one_character_iso lister count_sheets 2 listed_db 6 none
    ≡ ok (
        map view_of (
          sheet_of 5 count_sheet 1 60
          ∷ sheet_of 4 count_sheet 1 60
          ∷ sheet_of 1 count_sheet 1 50
          ∷ []))
unfolding order_rows select is_listed text_eq join_words split_from is_space
read_pages_complete_example =
    read_pages_complete one_character_iso lister count_sheets 2 listed_db 6
      one_character_iso-IsReadable listed_apart listed_ids (omega arith) (omega arith) days_valid
      (omega arith)
