-- ===== src/Paperwork/CountSheet/Totals.antt =====
-- paperwork/count_sheet.py: the totals of a count sheet that is valid.
use prison_policy_ai.Prelude.{
  ℕ, ◌+◌, ◌≡◌, ◌↔◌, refl, sym, ap, ◌∙◌, map, true, Text, All-map, All-zip, All-swap, arith, sum_by,
  sum_by-swap, sum_by-add, sub_ℕ, is_zero-sub_ℕ,
}
use prison_policy_ai.Fault.{ok}
use prison_policy_ai.Paperwork.CountSheet.{
  CountSheetStructure, CountSheetRecord, validate_structure_and_times, count_at, cell_at,
  sum_entries, CountSheetValidation, column_total, unit_total, validation, calculate_count_totals,
}
use prison_policy_ai.Paperwork.CountSheet.Cells.{
  value_at, cell_value, sum_entries-ok, for_each-ok, sum_by-pairs, count_at-value, cells-ok,
}

-- the totals by the values of the cells
unit_value : CountSheetStructure → CountSheetRecord → Text → ℕ
unit_value s model column =
    sum_by (λ area. cell_value area column model.cells) s.areas + value_at column model.in_housing

abbrev expected : CountSheetStructure → CountSheetRecord → CountSheetValidation
expected s model =
    validation
      (map (λ area. (area, sum_by (λ column. cell_value area column model.cells) s.columns))
        s.areas)
      (map (λ column. (column, sum_by (λ area. cell_value area column model.cells) s.areas))
        s.columns)
      (map (λ column. (column, unit_value s model column)) s.columns)
      (sum_by (unit_value s model) s.columns)
      (sum_by (λ k. value_at k model.operational) s.operational_fields)

unit_total-ok :
    (s : CountSheetStructure) (model : CountSheetRecord) (column : Text)
    → sum_entries (λ area. cell_at model area column) s.areas
      ≡ ok (sum_by (λ area. cell_value area column model.cells) s.areas)
    → count_at column model.in_housing ≡ ok (value_at column model.in_housing)
    → unit_total s model column ≡ ok (unit_value s model column)
unfolding unit_total unit_value column_total
unit_total-ok s model column e c = rw (e, c)

calculate-expected :
    (s : CountSheetStructure) (model : CountSheetRecord)
    → validate_structure_and_times s model ≡ ok model
    → calculate_count_totals s model ≡ ok (expected s model)
unfolding validate_structure_and_times calculate_count_totals
calculate-expected s model h =
    let cells = cells-ok s model (ground arith) (ground arith) in
    let housing = count_at-value s.columns model.in_housing (ground arith) in
    let counts = count_at-value s.operational_fields model.operational (ground arith) in
    let columns =
      All-swap (λ area column. cell_at model area column ≡ ok (cell_value area column model.cells))
        s.areas s.columns cells in
    let rows =
      for_each-ok _ (λ area. sum_by (λ column. cell_value area column model.cells) s.columns)
        s.areas
        (All-map s.areas
          (λ area a.
            sum_entries-ok (cell_at model area) (λ column. cell_value area column model.cells)
              s.columns a)
          cells) in
    let totals =
      All-map s.columns
        (λ column a.
          sum_entries-ok (λ area. cell_at model area column)
            (λ area. cell_value area column model.cells) s.areas a)
        columns in
    let out =
      for_each-ok (column_total s model)
        (λ column. sum_by (λ area. cell_value area column model.cells) s.areas) s.columns
        (unfold column_total in totals) in
    let units = for_each-ok (unit_total s model) (unit_value s model) s.columns (
      All-map s.columns (λ column (e, c). unit_total-ok s model column e c)
        (All-zip _ _ s.columns totals housing)) in
    let operational =
      sum_entries-ok (λ k. count_at k model.operational) (λ k. value_at k model.operational)
        s.operational_fields counts in
    rw (rows, out, units, operational, sum_by-pairs (unit_value s model) s.columns)

-- A sheet that validation accepts has its totals, with no key missing, where a cell counts as the number
-- in it and an empty one as 0. Each area has the total of its row, each column the total out of housing,
-- which sums the areas, and its own total, which adds what is in housing. The total of the housing is the
-- sum of the row totals and of what is in housing; it is also the sum of the column totals, and that of
-- the totals out of housing and what is in it. The sheet is reconciled exactly when that equals the sum
-- of the operational counts, and the difference is the one less the other, as an integer.
pub calculate_count_totals_sound :
    (s : CountSheetStructure) (model : CountSheetRecord)
    → validate_structure_and_times s model ≡ ok model
    → (t : CountSheetValidation) × (calculate_count_totals s model ≡ ok t)
      × (t.row_totals
          ≡ map
              (λ area. (area, sum_by (λ column. cell_value area column model.cells) s.columns))
              s.areas)
      × (t.out_of_housing
          ≡ map
              (λ column. (column, sum_by (λ area. cell_value area column model.cells) s.areas))
              s.columns)
      × (t.column_totals
          ≡ map
              (λ column. (
                column,
                sum_by (λ area. cell_value area column model.cells) s.areas
                    + value_at column model.in_housing,
              ))
              s.columns)
      × (t.unit_totals ≡ t.column_totals)
      × (t.housing_total
          ≡ sum_by (λ (e : Text × ℕ). e.1) t.row_totals
            + sum_by (λ k. value_at k model.in_housing) s.columns)
      × (t.housing_total ≡ sum_by (λ (e : Text × ℕ). e.1) t.column_totals)
      × (t.housing_total
          ≡ sum_by (λ (e : Text × ℕ). e.1) t.out_of_housing
            + sum_by (λ k. value_at k model.in_housing) s.columns)
      × (t.operational_total ≡ sum_by (λ k. value_at k model.operational) s.operational_fields)
      × ((t.reconciled ≡ true) ↔ (t.housing_total ≡ t.operational_total))
      × (t.difference ≡ sub_ℕ t.housing_total t.operational_total)
unfolding unit_value
calculate_count_totals_sound s model valid =
    let cell = λ (area column : Text). cell_value area column model.cells in
    let inside = λ (k : Text). value_at k model.in_housing in
    let outside = λ (column : Text). sum_by (λ area. cell area column) s.areas in
    let split = sum_by-add outside inside s.columns in
    (
      expected s model,
      calculate-expected s model valid,
      refl,
      refl,
      refl,
      refl,
      split
          ∙ ap (λ n. n + sum_by inside s.columns)
              (sym (sum_by-swap cell s.areas s.columns)
                ∙ sym (sum_by-pairs (λ area. sum_by (cell area) s.columns) s.areas)),
      sym (sum_by-pairs (unit_value s model) s.columns),
      split ∙ ap (λ n. n + sum_by inside s.columns) (sym (sum_by-pairs outside s.columns)),
      refl,
      is_zero-sub_ℕ _ _,
      refl,
    )
