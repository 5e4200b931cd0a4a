-- ===== src/Paperwork/CountSheet.antt =====
-- paperwork/count_sheet.py: the payload of a count sheet and its totals. The structure (columns, areas,
-- operational fields) is read from templates/paperwork/count_sheet.json; here it is any structure that
-- the checks at import accept.
pub mod Cells
pub mod Totals
use prison_policy_ai.Prelude.{
  ℕ, ◌+◌, List, [], ◌∷◌, map, Option, none, some, Bool, true, false, not, ◌&&◌, Text, text_eq, ltb,
  ◌==◌, any, all, find, if◌then◌else◌, or_else, sum_by, ℤ, sub_ℕ, is_zero,
}
use prison_policy_ai.Fault.{Result, ok, raised, value_error, runtime_error, key_error}

abbrev pub Dict : Type 0 → Type 0
Dict V = List (Text × V)

abbrev pub keys : {V : Type 0} → Dict V → List Text
keys d = map (λ e. e.0) d

unfoldable pub is_key_of : Text → List Text → Bool
is_key_of k names = any (text_eq k) names

-- set(a) <= set(b)
unfoldable pub is_subset : List Text → List Text → Bool
unfolding is_key_of
is_subset a b = all (λ k. is_key_of k b) a

unfoldable pub same_keys : List Text → List Text → Bool
unfolding is_subset
same_keys a b = is_subset a b && is_subset b a

-- len(names) == len(set(names))
unfoldable pub are_distinct : List Text → Bool
unfolding is_key_of
are_distinct [] = true
are_distinct (x ∷ xs) = not (is_key_of x xs) && are_distinct xs

pub record CountSheetStructure : Type 0 where
  pub columns : List Text
  pub areas : List Text
  pub operational_fields : List Text
  pub attachment_reminders : List Text

-- the checks when the module is imported
unfoldable pub load_structure : CountSheetStructure → Result CountSheetStructure
unfolding are_distinct is_subset
load_structure s =
    if are_distinct s.columns
      && are_distinct s.areas
      && are_distinct s.operational_fields
      && is_subset s.attachment_reminders s.operational_fields
    then ok s
    else raised runtime_error

pub record CountSheetRecord : Type 0 where
  pub count_started : Option ℕ
  pub count_ended : Option ℕ
  pub cells : Dict (Dict (Option ℕ))
  pub in_housing : Dict (Option ℕ)
  pub operational : Dict (Option ℕ)

abbrev pub ends_before : Option ℕ → Option ℕ → Bool
ends_before (some started) (some ended) = ltb ended started
ends_before none ended = false
ends_before (some started) none = false

-- validate_structure_and_times
unfoldable pub validate_structure_and_times :
    CountSheetStructure → CountSheetRecord → Result CountSheetRecord
unfolding same_keys
validate_structure_and_times s model =
    if same_keys (keys model.cells) s.areas
      && all (λ row. same_keys (keys row.1) s.columns) model.cells
      && same_keys (keys model.in_housing) s.columns
      && same_keys (keys model.operational) s.operational_fields
      && not (ends_before model.count_started model.count_ended)
    then ok model
    else raised value_error

unfoldable pub integer_or_zero : Option ℕ → ℕ
integer_or_zero value = or_else value 0

-- d[k]
unfoldable pub entry : {V : Type 0} → Text → Dict V → Result V
entry k d = elim (find (λ e. text_eq k e.0) d) [ none ↦ raised key_error | some e ↦ ok e.1 ]

unfoldable pub count_at : Text → Dict (Option ℕ) → Result ℕ
unfolding integer_or_zero entry
count_at k d = elim (entry k d) [ ok value ↦ ok (integer_or_zero value) | raised f ↦ raised f ]

-- integer_or_zero(model.cells[area][column])
unfoldable pub cell_at : CountSheetRecord → Text → Text → Result ℕ
unfolding entry count_at
cell_at model area column = elim (entry area model.cells) [
  | ok row ↦ count_at column row
  | raised f ↦ raised f
]

-- sum(f(k) for k in names)
unfoldable pub sum_entries : (Text → Result ℕ) → List Text → Result ℕ
sum_entries f [] = ok 0
sum_entries f (k ∷ names) = elim (f k) [
  | raised e ↦ raised e
  | ok n ↦ elim (sum_entries f names) [ raised e ↦ raised e | ok m ↦ ok (n + m) ]
]

-- {k: f(k) for k in names}
unfoldable pub for_each : (Text → Result ℕ) → List Text → Result (Dict ℕ)
for_each f [] = ok []
for_each f (k ∷ names) = elim (f k) [
  | raised e ↦ raised e
  | ok n ↦ elim (for_each f names) [ raised e ↦ raised e | ok rest ↦ ok ((k, n) ∷ rest) ]
]

pub record CountSheetValidation : Type 0 where
  pub row_totals : Dict ℕ
  pub out_of_housing : Dict ℕ
  pub unit_totals : Dict ℕ
  pub column_totals : Dict ℕ
  pub housing_total : ℕ
  pub operational_total : ℕ
  pub difference : ℤ
  pub reconciled : Bool

abbrev pub add_results : Result ℕ → Result ℕ → Result ℕ
add_results (ok n) (ok m) = ok (n + m)
add_results (ok n) (raised f) = raised f
add_results (raised f) r = raised f

-- the total of one column, `out_of_housing[column]`, and of one unit
unfoldable pub column_total : CountSheetStructure → CountSheetRecord → Text → Result ℕ
unfolding sum_entries cell_at
column_total s model column = sum_entries (λ area. cell_at model area column) s.areas

unfoldable pub unit_total : CountSheetStructure → CountSheetRecord → Text → Result ℕ
unfolding column_total count_at
unit_total s model column =
    add_results (column_total s model column) (count_at column model.in_housing)

abbrev pub validation : Dict ℕ → Dict ℕ → Dict ℕ → ℕ → ℕ → CountSheetValidation
validation rows out units housing operational = record {
  row_totals = rows;
  out_of_housing = out;
  unit_totals = units;
  column_totals = units;
  housing_total = housing;
  operational_total = operational;
  difference = sub_ℕ housing operational;
  reconciled = is_zero (sub_ℕ housing operational);
}

infixl 10 ◌>>=◌
abbrev pub ◌>>=◌ : {A B : Type 0} → Result A → (A → Result B) → Result B
ok a >>= f = f a
raised e >>= f = raised e

unfoldable pub calculate_count_totals :
    CountSheetStructure → CountSheetRecord → Result CountSheetValidation
calculate_count_totals s model = do
  rows ← for_each (λ area. sum_entries (λ column. cell_at model area column) s.columns) s.areas
  out ← for_each (column_total s model) s.columns
  units ← for_each (unit_total s model) s.columns
  operational ← sum_entries (λ k. count_at k model.operational) s.operational_fields
  ok (validation rows out units (sum_by (λ e. e.1) units) operational)

unfoldable pub validate_count_sheet :
    CountSheetStructure → CountSheetRecord → Result CountSheetValidation
validate_count_sheet s model = do
  valid ← validate_structure_and_times s model
  calculate_count_totals s valid
