-- ===== src/Tests/CountSheets.antt =====
-- Runs of paperwork/count_sheet.py and paperwork/counts.py.
use prison_policy_ai.Paperwork.Counts.Arithmetic.{missing_rows}
use prison_policy_ai.Prelude.{map, ◌+◌, select}
use prison_policy_ai.Paperwork.Counts.Arithmetic.{side_total}
use prison_policy_ai.Paperwork.Counts.Arithmetic.{fill_totals}
use prison_policy_ai.Prelude.{read_from}
use prison_policy_ai.Paperwork.Counts.Arithmetic.{normalized_values}
use prison_policy_ai.Paperwork.Counts.{help_of}
use prison_policy_ai.Paperwork.Counts.{parse_rows}
use prison_policy_ai.Paperwork.Counts.{side_of}
use prison_policy_ai.Identity.Normalization.{is_space}
use prison_policy_ai.Paperwork.Counts.{identifier}
use prison_policy_ai.Paperwork.Counts.{parse_sections}
use prison_policy_ai.Paperwork.Counts.{bounded_list}
use prison_policy_ai.Paperwork.Counts.{exact_dict}
use prison_policy_ai.Prelude.{
  String, ℕ, ◌+◌, ◌≤◌, ◌≡◌, ◌↔◌, refl, [], ◌∷◌, some, none, Text, codes, text_eq, true, false, any,
  all, All, find, length, is_some, sum_by, sub_ℕ, read_decimal, leb, ◌&&◌,
}
use prison_policy_ai.Fault.{ok}
use prison_policy_ai.Identity.Json.{
  Json, null, number, string, arr, obj, Items, end, item, Fields, done, field,
}
use prison_policy_ai.Paperwork.CountSheet.{
  CountSheetStructure, CountSheetRecord, CountSheetValidation, validate_structure_and_times,
  calculate_count_totals, same_keys, is_subset, is_key_of, are_distinct,
}
use prison_policy_ai.Paperwork.CountSheet.Cells.{value_at, cell_value}
use prison_policy_ai.Paperwork.CountSheet.Totals.{calculate_count_totals_sound}
use prison_policy_ai.Paperwork.Counts.{
  Unicode, CountRowDefinition, left, right, CountSheetTemplate, parse_count_sheet_template,
  section_ids, ordered_rows, is_left, is_right,
}
use prison_policy_ai.Paperwork.Counts.Arithmetic.{CountSheetCalculation, calculate_count_sheet}
use prison_policy_ai.Paperwork.Counts.Template.{parse_count_sheet_template_sound}
use prison_policy_ai.Paperwork.Counts.Entered.{AreCounts}
use prison_policy_ai.Paperwork.Counts.Calculation.{
  left_rows, right_rows, all_rows, calculate_count_sheet_sound,
}

abbrev structure : CountSheetStructure
structure = record {
  columns = codes "A" ∷ codes "B" ∷ [];
  areas = codes "kitchen" ∷ codes "yard" ∷ [];
  operational_fields = codes "court" ∷ codes "assigned" ∷ [];
  attachment_reminders = codes "court" ∷ [];
}

abbrev sheet : CountSheetRecord
sheet = record {
  count_started = some 10;
  count_ended = some 25;
  cells =
      (codes "yard", (codes "A", some 3) ∷ (codes "B", none) ∷ [])
      ∷ (codes "kitchen", (codes "B", some 2) ∷ (codes "A", some 1) ∷ [])
      ∷ [];
  in_housing = (codes "A", some 40) ∷ (codes "B", some 50) ∷ [];
  operational = (codes "court", some 6) ∷ (codes "assigned", some 90) ∷ [];
}

sheet-valid : validate_structure_and_times structure sheet ≡ ok sheet
unfolding validate_structure_and_times same_keys is_subset is_key_of any all text_eq
sheet-valid = refl

calculate_count_totals-sound_example :
    (t : CountSheetValidation) × (calculate_count_totals structure sheet ≡ ok t)
    × (t.row_totals
        ≡ map
            (λ area.
              (area, sum_by (λ column. cell_value area column sheet.cells) structure.columns))
            structure.areas)
    × (t.out_of_housing
        ≡ map
            (λ column.
              (column, sum_by (λ area. cell_value area column sheet.cells) structure.areas))
            structure.columns)
    × (t.column_totals
        ≡ map
            (λ column. (
              column,
              sum_by (λ area. cell_value area column sheet.cells) structure.areas
                  + value_at column sheet.in_housing,
            ))
            structure.columns)
    × (t.unit_totals ≡ t.column_totals)
    × (t.housing_total
        ≡ sum_by (λ (e : Text × ℕ). e.1) t.row_totals
          + sum_by (λ k. value_at k sheet.in_housing) structure.columns)
    × (t.housing_total ≡ sum_by (λ (e : Text × ℕ). e.1) t.column_totals)
    × (t.housing_total
        ≡ sum_by (λ (e : Text × ℕ). e.1) t.out_of_housing
          + sum_by (λ k. value_at k sheet.in_housing) structure.columns)
    × (t.operational_total
        ≡ sum_by (λ k. value_at k sheet.operational) structure.operational_fields)
    × ((t.reconciled ≡ true) ↔ (t.housing_total ≡ t.operational_total))
    × (t.difference ≡ sub_ℕ t.housing_total t.operational_total)
calculate_count_totals-sound_example = calculate_count_totals_sound structure sheet sheet-valid

-- the characters of ASCII
abbrev ascii : Unicode
ascii = record {
  isalpha = λ c. leb 97 c && leb c 122;
  islower = λ c. leb 97 c && leb c 122;
  isdigit = λ c. leb 48 c && leb c 57;
}

abbrev row : String → Json
row id = obj (
    field (codes "row_id") (string (codes id))
      (field (codes "label") (string (codes "  the  row ")) (field (codes "help_text") null done)))

abbrev section : String → String → Items → Json
section id side rows = obj (
    field (codes "section_id") (string (codes id)) (
      field (codes "label") (string (codes "Section")) (
        field (codes "reconciliation_side") (string (codes side))
          (field (codes "rows") (arr rows) done))))

abbrev template_json : Json
template_json = obj (
    field (codes "schema_version") (number (codes "1")) (
      field (codes "template_code") (string (codes "count_1")) (
        field (codes "title") (string (codes "Count")) (
          field (codes "sections")
            (arr (
              item (section "housing" "left" (item (row "a") (item (row "b") end)))
                (item (section "roll" "right" (item (row "c") end)) end)))
            done))))

abbrev parsed_row : String → CountRowDefinition
parsed_row id = record { row_id = codes id; label = codes "the row"; help_text = none }

abbrev template : CountSheetTemplate
template = record {
  template_code = codes "count_1";
  title = codes "Count";
  sections =
      record {
        section_id = codes "housing";
        label = codes "Section";
        reconciliation_side = left;
        rows = parsed_row "a" ∷ parsed_row "b" ∷ [];
      }
      ∷ record {
        section_id = codes "roll";
        label = codes "Section";
        reconciliation_side = right;
        rows = parsed_row "c" ∷ [];
      }
      ∷ [];
}

template-read : parse_count_sheet_template ascii template_json ≡ ok template
unfolding parse_count_sheet_template exact_dict all any text_eq bounded_list parse_sections
    identifier is_space side_of parse_rows help_of
template-read = refl

parse_count_sheet_template-sound_example :
    (are_distinct (section_ids template.sections) ≡ true)
    × (are_distinct (ordered_rows template.sections) ≡ true)
    × (2 ≤ length template.sections)
    × (length template.sections ≤ 20)
    × All (λ s. (1 ≤ length s.rows) × (length s.rows ≤ 100)) template.sections
    × (any (λ s. is_left s.reconciliation_side) template.sections ≡ true)
    × (any (λ s. is_right s.reconciliation_side) template.sections ≡ true)
parse_count_sheet_template-sound_example =
    parse_count_sheet_template_sound ascii template_json template template-read

-- one row has no value
abbrev entered : Fields
entered = field (codes "c") (number (codes "12")) (field (codes "a") (number (codes "12")) done)

abbrev calculated : CountSheetCalculation
calculated = record {
  values = (codes "a", some 12) ∷ (codes "b", none) ∷ (codes "c", some 12) ∷ [];
  row_ids = codes "a" ∷ codes "b" ∷ codes "c" ∷ [];
  section_totals = (codes "housing", 12) ∷ (codes "roll", 12) ∷ [];
  left_total = 12;
  right_total = 12;
  difference = sub_ℕ 12 12;
  balanced = false;
  missing_row_ids = codes "b" ∷ [];
}

entered-calculated : calculate_count_sheet template entered ≡ ok calculated
unfolding calculate_count_sheet all any ordered_rows text_eq normalized_values read_decimal
    read_from fill_totals find side_total select missing_rows
entered-calculated = refl

sections-distinct : are_distinct (section_ids template.sections) ≡ true
unfolding are_distinct is_key_of any text_eq
sections-distinct = refl

rows-distinct : are_distinct (ordered_rows template.sections) ≡ true
unfolding are_distinct is_key_of any text_eq ordered_rows
rows-distinct = refl

calculate_count_sheet-sound_example :
    AreCounts entered (all_rows template.sections) calculated.values
    × (calculated.left_total ≡ sum_by (left_rows calculated.values) template.sections)
    × (calculated.right_total ≡ sum_by (right_rows calculated.values) template.sections)
    × (calculated.difference ≡ sub_ℕ calculated.left_total calculated.right_total)
    × ((calculated.balanced ≡ true) ↔ (
        (calculated.left_total ≡ calculated.right_total)
        × All (λ e. is_some e.1 ≡ true) calculated.values))
calculate_count_sheet-sound_example =
    calculate_count_sheet_sound template entered calculated sections-distinct rows-distinct
      entered-calculated
