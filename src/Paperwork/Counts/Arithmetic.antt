-- ===== src/Paperwork/Counts/Arithmetic.antt =====
-- paperwork/counts.py: the calculation of the values that are entered.
use prison_policy_ai.Prelude.{
  ℕ, List, [], ◌∷◌, Option, none, some, Bool, ◌&&◌, Text, text_eq, leb, if◌then◌else◌, length,
  is_none, not, read_decimal, ℤ, sub_ℕ, is_zero, select,
}
use prison_policy_ai.Fault.{Result, ok, raised, count_sheet_invalid}
use prison_policy_ai.Identity.Json.{Json, null, number, string, Fields}
use prison_policy_ai.Paperwork.Values.{get_field}
use prison_policy_ai.Paperwork.CountSheet.{Dict, is_subset, count_at, entry, sum_entries, ◌>>=◌}
use prison_policy_ai.Paperwork.Counts.{
  ReconciliationSide, is_left, is_right, CountSectionDefinition, CountSheetTemplate, guard,
  field_keys, ids_of, section_ids, ordered_rows,
}

abbrev pub max_count_value : ℕ
max_count_value = 99999

-- `_count`, of a value that a mapping has or has not
unfoldable pub count_of : Json → Result (Option ℕ)
count_of null = ok none
count_of (string []) = ok none
count_of (number literal) = elim (read_decimal literal) [
  | none ↦ raised count_sheet_invalid
  | some n ↦ guard (leb n max_count_value) (ok (some n))
]
count_of _ = raised count_sheet_invalid

-- a dict without a key
abbrev pub without : Text → Dict (Option ℕ) → Dict (Option ℕ)
without k = select (λ e. not (text_eq k e.0))

-- {row_id: _count(values.get(row_id)) for row_id in ordered_rows}; a repeated id has one entry
unfoldable pub normalized_values : Fields → List Text → Result (Dict (Option ℕ))
unfolding count_of get_field
normalized_values values [] = ok []
normalized_values values (row_id ∷ row_ids) = elim (count_of (get_field row_id values)) [
  | raised f ↦ raised f
  | ok n ↦ elim (normalized_values values row_ids) [
    | raised f ↦ raised f
    | ok rest ↦ ok ((row_id, n) ∷ without row_id rest)
  ]
]

-- d[k] = v
unfoldable pub set_entry : {V : Type 0} → Text → V → Dict V → Dict V
set_entry k v [] = (k, v) ∷ []
set_entry k v ((j, w) ∷ d) = if text_eq k j then (j, v) ∷ d else (j, w) ∷ set_entry k v d

-- sum(normalized[row.row_id] or 0 for row in section.rows)
unfoldable pub section_total : Dict (Option ℕ) → CountSectionDefinition → Result ℕ
unfolding sum_entries count_at
section_total normalized section =
    sum_entries (λ row_id. count_at row_id normalized) (ids_of section.rows)

-- the loop that fills `section_totals`
unfoldable pub fill_totals :
    Dict (Option ℕ) → List CountSectionDefinition → Dict ℕ → Result (Dict ℕ)
unfolding section_total set_entry
fill_totals normalized [] totals = ok totals
fill_totals normalized (section ∷ sections) totals = elim (section_total normalized section) [
  | raised f ↦ raised f
  | ok n ↦ fill_totals normalized sections (set_entry section.section_id n totals)
]

abbrev pub of_side :
    (ReconciliationSide → Bool) → List CountSectionDefinition → List CountSectionDefinition
of_side p = select (λ section. p section.reconciliation_side)

-- sum(section_totals[section.section_id] for section in sections if … == side)
unfoldable pub side_total :
    (ReconciliationSide → Bool) → Dict ℕ → List CountSectionDefinition → Result ℕ
unfolding sum_entries entry
side_total p totals sections =
    sum_entries (λ id. entry id totals) (section_ids (of_side p sections))

-- tuple(row_id for row_id in ordered_rows if normalized[row_id] is None)
unfoldable pub missing_rows : Dict (Option ℕ) → List Text → Result (List Text)
unfolding entry
missing_rows normalized [] = ok []
missing_rows normalized (row_id ∷ row_ids) = elim (entry row_id normalized) [
  | raised f ↦ raised f
  | ok v ↦ elim (missing_rows normalized row_ids) [
    | raised f ↦ raised f
    | ok rest ↦ ok (if is_none v then row_id ∷ rest else rest)
  ]
]

pub record CountSheetCalculation : Type 0 where
  pub values : Dict (Option ℕ)
  pub row_ids : List Text
  pub section_totals : Dict ℕ
  pub left_total : ℕ
  pub right_total : ℕ
  pub difference : ℤ
  pub balanced : Bool
  pub missing_row_ids : List Text

abbrev pub calculation :
    Dict (Option ℕ) → List Text → Dict ℕ → ℕ → ℕ → List Text → CountSheetCalculation
calculation values row_ids totals left_total right_total missing = record {
  values = values;
  row_ids = row_ids;
  section_totals = totals;
  left_total = left_total;
  right_total = right_total;
  difference = sub_ℕ left_total right_total;
  balanced = is_zero (sub_ℕ left_total right_total) && leb (length missing) 0;
  missing_row_ids = missing;
}

unfoldable pub calculate_count_sheet : CountSheetTemplate → Fields → Result CountSheetCalculation
unfolding field_keys is_subset
calculate_count_sheet template values = do
  let row_ids = ordered_rows template.sections
  normalized ← guard (is_subset (field_keys values) row_ids) (normalized_values values row_ids)
  totals ← fill_totals normalized template.sections []
  left_total ← side_total is_left totals template.sections
  right_total ← side_total is_right totals template.sections
  missing ← missing_rows normalized row_ids
  ok (calculation normalized row_ids totals left_total right_total missing)
