-- ===== src/Paperwork/Counts.antt =====
-- paperwork/counts.py: the template of a count sheet, read from its JSON, and the calculation of the
-- values that are entered. What str.isalpha, islower and isdigit say of a character is a parameter.
pub mod Arithmetic
pub mod Template
pub mod Entered
pub mod Calculation
use prison_policy_ai.Prelude.{
  ℕ, suc, ◌+◌, List, [], ◌∷◌, ◌++◌, map, Option, none, some, Bool, true, false, not, ◌&&◌, ◌||◌,
  Text, codes, text_eq, leb, ltb, ◌==◌, any, all, if◌then◌else◌, length, is_none, or_else,
  read_decimal, ℤ, sub_ℕ, is_zero, select,
}
use prison_policy_ai.Fault.{Result, ok, raised, count_sheet_invalid, type_error}
use prison_policy_ai.Identity.Json.{
  Json, null, boolean, number, string, arr, obj, Items, end, item, Fields, done, field,
}
use prison_policy_ai.Identity.Normalization.{strip, split_from, join_words, is_empty}
use prison_policy_ai.Paperwork.Values.{get_field}
use prison_policy_ai.Paperwork.CountSheet.{
  Dict, keys, is_key_of, is_subset, same_keys, count_at, entry, sum_entries, ◌>>=◌,
}

pub record Unicode : Type 0 where
  pub isalpha : ℕ → Bool
  pub islower : ℕ → Bool
  pub isdigit : ℕ → Bool

pub data ReconciliationSide : Type 0 where
  left right informational : ReconciliationSide

abbrev pub is_left : ReconciliationSide → Bool
is_left left = true
is_left right = false
is_left informational = false

abbrev pub is_right : ReconciliationSide → Bool
is_right left = false
is_right right = true
is_right informational = false

pub record CountRowDefinition : Type 0 where
  pub row_id : Text
  pub label : Text
  pub help_text : Option Text

pub record CountSectionDefinition : Type 0 where
  pub section_id : Text
  pub label : Text
  pub reconciliation_side : ReconciliationSide
  pub rows : List CountRowDefinition

pub record CountSheetTemplate : Type 0 where
  pub template_code : Text
  pub title : Text
  pub sections : List CountSectionDefinition

abbrev pub guard : {A : Type 0} → Bool → Result A → Result A
guard true r = r
guard false r = raised count_sheet_invalid

unfoldable pub field_keys : Fields → List Text
field_keys done = []
field_keys (field k x fs) = k ∷ field_keys fs

-- a dict with exactly these keys
unfoldable pub exact_dict : List Text → Json → Result Fields
unfolding same_keys field_keys
exact_dict names (obj fs) = guard (same_keys (field_keys fs) names) (ok fs)
exact_dict names _ = raised count_sheet_invalid

abbrev pub first_is : (ℕ → Bool) → Text → Bool
first_is p [] = false
first_is p (c ∷ s) = p c

abbrev pub ids_of : List CountRowDefinition → List Text
ids_of = map (λ row. row.row_id)

abbrev pub section_ids : List CountSectionDefinition → List Text
section_ids = map (λ section. section.section_id)

-- the row ids of all sections, in order
unfoldable pub ordered_rows : List CountSectionDefinition → List Text
ordered_rows [] = []
ordered_rows (section ∷ sections) = ids_of section.rows ++ ordered_rows sections

unfoldable pub items_count : Items → ℕ
items_count end = 0
items_count (item x xs) = suc (items_count xs)

-- a list of so many items
unfoldable pub bounded_list : ℕ → ℕ → Json → Result Items
unfolding items_count
bounded_list low high (arr xs) =
    guard (leb low (items_count xs) && leb (items_count xs) high) (ok xs)
bounded_list low high _ = raised count_sheet_invalid

-- `side not in side_counts`: a list or a dict is not hashable
unfoldable pub side_of : Json → Result ReconciliationSide
side_of (string s) =
    if text_eq s (codes "left")
    then ok left
    else if text_eq s (codes "right")
    then ok right
    else if text_eq s (codes "informational")
    then ok informational
    else raised count_sheet_invalid
side_of (arr _) = raised type_error
side_of (obj _) = raised type_error
side_of _ = raised count_sheet_invalid

-- `_label`
unfoldable pub label_of : ℕ → Json → Result Text
unfolding split_from join_words
label_of maximum (string value) =
    let cleaned = join_words (split_from [] value) in
    guard (leb 1 (length cleaned) && leb (length cleaned) maximum) (ok cleaned)
label_of maximum _ = raised count_sheet_invalid

unfoldable pub help_of : Json → Result (Option Text)
unfolding label_of
help_of null = ok none
help_of value = do text ← label_of 300 value; ok (some text)

-- `value["schema_version"] != 1`, where True == 1
unfoldable pub is_version_one : Json → Bool
is_version_one (number literal) = text_eq literal (codes "1")
is_version_one (boolean b) = b
is_version_one _ = false

abbrev pub row_keys : List Text
row_keys = codes "row_id" ∷ codes "label" ∷ codes "help_text" ∷ []

abbrev pub section_keys : List Text
section_keys = codes "section_id" ∷ codes "label" ∷ codes "reconciliation_side" ∷ codes "rows" ∷ []

abbrev pub template_keys : List Text
template_keys =
    codes "schema_version" ∷ codes "template_code" ∷ codes "title" ∷ codes "sections" ∷ []

module _ (unicode : Unicode) where
  -- `_identifier`
  unfoldable pub identifier : Json → Result Text
  unfolding strip
  identifier (string value) =
      let cleaned = strip value in
      guard
        (leb 1 (length cleaned)
          && leb (length cleaned) 80
          && first_is unicode.isalpha cleaned
          && all (λ c. unicode.islower c || unicode.isdigit c || c == b'_') cleaned)
        (ok cleaned)
  identifier _ = raised count_sheet_invalid

  unfoldable pub parse_row : List Text → Json → Result CountRowDefinition
  unfolding get_field
  parse_row seen value = do
    fs ← exact_dict row_keys value
    row_id ← identifier (get_field (codes "row_id") fs)
    help_text ← guard (not (is_key_of row_id seen)) (help_of (get_field (codes "help_text") fs))
    label ← label_of 160 (get_field (codes "label") fs)
    ok (record { row_id = row_id; label = label; help_text = help_text })

  -- the loop over the rows of a section; `seen` are the row ids before
  unfoldable pub parse_rows : List Text → Items → Result (List CountRowDefinition)
  unfolding parse_row
  parse_rows seen end = ok []
  parse_rows seen (item x xs) = elim (parse_row seen x) [
    | raised f ↦ raised f
    | ok row ↦ elim (parse_rows (row.row_id ∷ seen) xs) [
      | raised f ↦ raised f
      | ok rows ↦ ok (row ∷ rows)
    ]
  ]

  unfoldable pub parse_section : List Text → List Text → Json → Result CountSectionDefinition
  unfolding get_field
  parse_section seen seen_rows value = do
    fs ← exact_dict section_keys value
    section_id ← identifier (get_field (codes "section_id") fs)
    side ←
        guard (not (is_key_of section_id seen))
          (side_of (get_field (codes "reconciliation_side") fs))
    raw_rows ← bounded_list 1 100 (get_field (codes "rows") fs)
    rows ← parse_rows seen_rows raw_rows
    label ← label_of 160 (get_field (codes "label") fs)
    ok (record { section_id = section_id; label = label; reconciliation_side = side; rows = rows })

  unfoldable pub parse_sections :
      List Text → List Text → Items → Result (List CountSectionDefinition)
  unfolding parse_section
  parse_sections seen seen_rows end = ok []
  parse_sections seen seen_rows (item x xs) = elim (parse_section seen seen_rows x) [
    | raised f ↦ raised f
    | ok section ↦
        elim (parse_sections (section.section_id ∷ seen) (ids_of section.rows ++ seen_rows) xs) [
          | raised f ↦ raised f
          | ok sections ↦ ok (section ∷ sections)
        ]
  ]

  unfoldable pub parse_count_sheet_template : Json → Result CountSheetTemplate
  unfolding get_field is_version_one
  parse_count_sheet_template value = do
    fs ← exact_dict template_keys value
    raw_sections ←
        guard (is_version_one (get_field (codes "schema_version") fs))
          (bounded_list 2 20 (get_field (codes "sections") fs))
    sections ← parse_sections [] [] raw_sections
    template_code ←
        guard
          (any (λ s. is_left s.reconciliation_side) sections
            && any (λ s. is_right s.reconciliation_side) sections)
          (identifier (get_field (codes "template_code") fs))
    title ← label_of 200 (get_field (codes "title") fs)
    ok (record { template_code = template_code; title = title; sections = sections })
