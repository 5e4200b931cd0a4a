-- ===== src/Paperwork/Counts/Calculation.antt =====
-- paperwork/counts.py: what calculate_count_sheet computes for a template with distinct section ids.
use prison_policy_ai.Prelude.{
  ◌+◌, ◌++◌, ◌⊎◌, map, ℕ, ◌≡◌, ◌↔◌, refl, ap, subst, ◌∙◌, List, [], ◌∷◌, Option, none, some, Bool,
  true, false, ◌&&◌, Text, text_eq, text_eq_iff, text_eq_refl, any, find, select, All, arith,
  Bool-cases, inl, inr, sum_by, sub_ℕ, is_zero, is_zero-sub_ℕ, if◌then◌else◌, is_some, length, leb,
}
use prison_policy_ai.Fault.{Result, ok, Result-cases}
use prison_policy_ai.Identity.Json.{Fields}
use prison_policy_ai.Paperwork.CountSheet.{
  integer_or_zero, Dict, keys, is_key_of, are_distinct, is_subset, count_at, entry, sum_entries,
}
use prison_policy_ai.Paperwork.CountSheet.Cells.{value_at}
use prison_policy_ai.Paperwork.Counts.{
  CountSectionDefinition, CountSheetTemplate, CountRowDefinition, left, right, informational,
  ids_of, section_ids, ordered_rows, is_left, is_right, ReconciliationSide, field_keys,
}
use prison_policy_ai.Paperwork.Counts.Arithmetic.{
  normalized_values, set_entry, section_total, fill_totals, of_side, side_total, missing_rows,
  CountSheetCalculation, calculation, calculate_count_sheet,
}
use prison_policy_ai.Paperwork.Counts.Entered.{
  AreCounts, distinct-found, missing_rows-none, normalized_values-AreCounts,
}

-- the rows of a section, by the values that the calculation shows
unfoldable pub rows_total : Dict (Option ℕ) → CountSectionDefinition → ℕ
rows_total values section =
    sum_by (λ (row : CountRowDefinition). value_at row.row_id values) section.rows

-- what a section adds to each side
abbrev pub left_rows : Dict (Option ℕ) → CountSectionDefinition → ℕ
left_rows values section = elim section.reconciliation_side [
  | left ↦ rows_total values section
  | right ↦ 0
  | informational ↦ 0
]

abbrev pub right_rows : Dict (Option ℕ) → CountSectionDefinition → ℕ
right_rows values section = elim section.reconciliation_side [
  | left ↦ 0
  | right ↦ rows_total values section
  | informational ↦ 0
]

side_cases : (side : ReconciliationSide) → (side ≡ left) ⊎ (side ≡ right) ⊎ (side ≡ informational)
side_cases left = inl refl
side_cases right = inr (inl refl)
side_cases informational = inr (inr refl)

-- the ids of the rows, section by section
unfoldable pub all_rows : List CountSectionDefinition → List Text
all_rows [] = []
all_rows (section ∷ sections) =
    map (λ (row : CountRowDefinition). row.row_id) section.rows ++ all_rows sections

ordered_rows-all :
    (sections : List CountSectionDefinition) → ordered_rows sections ≡ all_rows sections
unfolding ordered_rows all_rows
ordered_rows-all [] = refl
ordered_rows-all (section ∷ sections) =
    ap (λ ids. ids_of section.rows ++ ids) (ordered_rows-all sections)

sum_by-ids_of :
    (g : Text → ℕ) (rows : List CountRowDefinition)
    → sum_by g (ids_of rows) ≡ sum_by (λ (row : CountRowDefinition). g row.row_id) rows
unfolding sum_by
sum_by-ids_of g [] = refl
sum_by-ids_of g (row ∷ rows) = ap (λ n. g row.row_id + n) (sum_by-ids_of g rows)

left_rows-sum :
    (values : Dict (Option ℕ)) (sections : List CountSectionDefinition)
    → sum_by (rows_total values) (of_side is_left sections) ≡ sum_by (left_rows values) sections
unfolding sum_by select
left_rows-sum values [] = refl
left_rows-sum values (s ∷ ss) = elim (side_cases s.reconciliation_side) [
  | inl e ↦ rw e (omega (arith, left_rows-sum values ss))
  | inr (inl e) ↦ rw e (omega (arith, left_rows-sum values ss))
  | inr (inr e) ↦ rw e (omega (arith, left_rows-sum values ss))
]

right_rows-sum :
    (values : Dict (Option ℕ)) (sections : List CountSectionDefinition)
    → sum_by (rows_total values) (of_side is_right sections) ≡ sum_by (right_rows values) sections
unfolding sum_by select
right_rows-sum values [] = refl
right_rows-sum values (s ∷ ss) = elim (side_cases s.reconciliation_side) [
  | inl e ↦ rw e (omega (arith, right_rows-sum values ss))
  | inr (inl e) ↦ rw e (omega (arith, right_rows-sum values ss))
  | inr (inr e) ↦ rw e (omega (arith, right_rows-sum values ss))
]

sum_entries-value :
    (f : Text → Result ℕ) (g : Text → ℕ) (ks : List Text) (n : ℕ)
    → ((k : Text) (m : ℕ) → f k ≡ ok m → m ≡ g k)
    → sum_entries f ks ≡ ok n
    → n ≡ sum_by g ks
unfolding sum_entries sum_by
sum_entries-value f g [] n same h = ground arith
sum_entries-value f g (k ∷ ks) n same h = elim (Result-cases (f k)) [
  | inr (e, bad) ↦ absurd (ground (arith, bad, h))
  | inl (m, good) ↦ elim (Result-cases (sum_entries f ks)) [
    | inr (e, bad) ↦ absurd (ground (arith, good, bad, h))
    | inl (rest, e) ↦
        ground (arith, good, e, h, same k m good, sum_entries-value f g ks rest same e)
  ]
]

value_at-ok : (k : Text) (d : Dict (Option ℕ)) (m : ℕ) → count_at k d ≡ ok m → m ≡ value_at k d
unfolding value_at count_at entry find integer_or_zero
value_at-ok k [] m h = absurd (ground (arith, h))
value_at-ok k ((j, none) ∷ d) m h = elim (Bool-cases (text_eq k j)) [
  | inl here ↦ ground (arith, here, h)
  | inr later ↦ ground (arith, later, value_at-ok k d m (ground (arith, later, h)))
]
value_at-ok k ((j, some n) ∷ d) m h = elim (Bool-cases (text_eq k j)) [
  | inl here ↦ ground (arith, here, h)
  | inr later ↦ ground (arith, later, value_at-ok k d m (ground (arith, later, h)))
]

section_total-value :
    (values : Dict (Option ℕ)) (section : CountSectionDefinition) (n : ℕ)
    → section_total values section ≡ ok n
    → n ≡ rows_total values section
unfolding section_total rows_total
section_total-value values section n h =
    sum_entries-value (λ row_id. count_at row_id values) (λ row_id. value_at row_id values)
      (ids_of section.rows) n (λ k m e. value_at-ok k values m e) h
    ∙ sum_by-ids_of (λ row_id. value_at row_id values) section.rows

entry-set_entry :
    {V : Type 0} (k j : Text) (v : V) (d : Dict V)
    → entry j (set_entry k v d) ≡ (if text_eq j k then ok v else entry j d)
unfolding entry set_entry find
entry-set_entry k j v [] = ground arith
entry-set_entry k j v ((i, w) ∷ d) = ground (
  arith,
  text_eq_iff k j,
  text_eq_iff j k,
  text_eq_iff k i,
  text_eq_iff j i,
  entry-set_entry k j v d,
)

fill_totals-other :
    (values : Dict (Option ℕ)) (sections : List CountSectionDefinition) (totals out : Dict ℕ)
    (id : Text)
    → is_key_of id (section_ids sections) ≡ false
    → fill_totals values sections totals ≡ ok out
    → entry id out ≡ entry id totals
unfolding fill_totals is_key_of any
fill_totals-other values [] totals out id absent h = ground arith
fill_totals-other values (s ∷ ss) totals out id absent h =
    elim (Result-cases (section_total values s)) [
      | inr (e, bad) ↦ absurd (ground (arith, bad, h))
      | inl (n, good) ↦
          let later : fill_totals values ss (set_entry s.section_id n totals) ≡ ok out =
            ground (arith, good, h) in
          fill_totals-other values ss (set_entry s.section_id n totals) out id (ground arith) later
          ∙ entry-set_entry s.section_id id n totals
          ∙ ground arith
    ]

fill_totals-own :
    (values : Dict (Option ℕ)) (sections : List CountSectionDefinition) (totals out : Dict ℕ)
    → are_distinct (section_ids sections) ≡ true
    → fill_totals values sections totals ≡ ok out
    → All (λ s. entry s.section_id out ≡ ok (rows_total values s)) sections
unfolding fill_totals are_distinct
fill_totals-own values [] totals out distinct h = tt
fill_totals-own values (s ∷ ss) totals out distinct h =
    elim (Result-cases (section_total values s)) [
      | inr (e, bad) ↦ absurd (ground (arith, bad, h))
      | inl (n, good) ↦
          let later : fill_totals values ss (set_entry s.section_id n totals) ≡ ok out =
            ground (arith, good, h) in
          (
            fill_totals-other values ss (set_entry s.section_id n totals) out s.section_id
                  (ground arith) later
                ∙ entry-set_entry s.section_id s.section_id n totals
                ∙ rw (text_eq_refl s.section_id) (ap ok (section_total-value values s n good)),
            fill_totals-own values ss (set_entry s.section_id n totals) out (ground arith) later,
          )
    ]

side_total-value :
    (p : ReconciliationSide → Bool) (values : Dict (Option ℕ)) (totals : Dict ℕ)
    (sections : List CountSectionDefinition)
    → All (λ s. entry s.section_id totals ≡ ok (rows_total values s)) sections
    → side_total p totals sections ≡ ok (sum_by (rows_total values) (of_side p sections))
unfolding side_total sum_entries sum_by select
side_total-value p values totals [] a = refl
side_total-value p values totals (s ∷ ss) a =
    ground (arith, a.0, side_total-value p values totals ss a.1)

balanced_iff :
    (left_total right_total : ℕ) (values : Dict (Option ℕ)) (missing : List Text)
    → are_distinct (keys values) ≡ true
    → missing_rows values (keys values) ≡ ok missing
    → (is_zero (sub_ℕ left_total right_total) && leb (length missing) 0 ≡ true)
      ↔ ((left_total ≡ right_total) × All (λ e. is_some e.1 ≡ true) values)
balanced_iff l r values missing distinct h =
    let zero = is_zero-sub_ℕ l r in
    let none_missing = missing_rows-none values values missing (distinct-found values distinct) h in
    (
      λ h. (zero.0 (ground arith), none_missing.0 (ground arith)),
      λ (e, a). ground (arith, zero.1 e, none_missing.1 a),
    )

abbrev Shown : CountSheetTemplate → Fields → CountSheetCalculation → Type 0
Shown template values c =
    AreCounts values (all_rows template.sections) c.values
    × (c.left_total ≡ sum_by (left_rows c.values) template.sections)
    × (c.right_total ≡ sum_by (right_rows c.values) template.sections)
    × (c.difference ≡ sub_ℕ c.left_total c.right_total)
    × ((c.balanced ≡ true)
        ↔ ((c.left_total ≡ c.right_total) × All (λ e. is_some e.1 ≡ true) c.values))

-- A calculation that succeeds, for a template whose section ids are distinct and whose row ids are, as
-- those of a parsed one are. It shows each row of the template once, in order: with no value where none,
-- or an empty text, was entered, and else with the number that was entered, of 0 to 99999. The left and
-- the right total are the sums over the rows of the sections on that side, a row with no value counting
-- as 0; the difference is the left less the right, as an integer. The sheet is balanced exactly when the
-- two are equal and every row has a value.
pub calculate_count_sheet_sound :
    (template : CountSheetTemplate) (values : Fields) (c : CountSheetCalculation)
    → are_distinct (section_ids template.sections) ≡ true
    → are_distinct (ordered_rows template.sections) ≡ true
    → calculate_count_sheet template values ≡ ok c
    → AreCounts values (all_rows template.sections) c.values
      × (c.left_total ≡ sum_by (left_rows c.values) template.sections)
      × (c.right_total ≡ sum_by (right_rows c.values) template.sections)
      × (c.difference ≡ sub_ℕ c.left_total c.right_total)
      × ((c.balanced ≡ true)
          ↔ ((c.left_total ≡ c.right_total) × All (λ e. is_some e.1 ≡ true) c.values))
unfolding calculate_count_sheet
calculate_count_sheet_sound template values c distinct apart h =
    let sections = template.sections in
    let row_ids = ordered_rows sections in
    elim (Bool-cases (is_subset (field_keys values) row_ids)) [
      | inr unknown ↦ absurd (ground (arith, unknown, h))
      | inl known ↦ elim (Result-cases (normalized_values values row_ids)) [
        | inr (f, bad) ↦ absurd (ground (arith, known, bad, h))
        | inl (d, good) ↦ elim (Result-cases (fill_totals d sections [])) [
          | inr (f, bad) ↦ absurd (ground (arith, known, good, bad, h))
          | inl (totals, filled) ↦ elim (Result-cases (missing_rows d row_ids)) [
            | inr (f, bad) ↦
                let own = fill_totals-own d sections [] totals distinct filled in
                let lefts =
                  side_total-value is_left d totals sections own
                  ∙ ap ok (left_rows-sum d sections) in
                let rights =
                  side_total-value is_right d totals sections own
                  ∙ ap ok (right_rows-sum d sections) in
                absurd (ground (arith, known, good, filled, lefts, rights, bad, h))
            | inl (missing, blank) ↦
                let own = fill_totals-own d sections [] totals distinct filled in
                let lefts =
                  side_total-value is_left d totals sections own
                  ∙ ap ok (left_rows-sum d sections) in
                let rights =
                  side_total-value is_right d totals sections own
                  ∙ ap ok (right_rows-sum d sections) in
                let l = sum_by (left_rows d) sections in
                let r = sum_by (right_rows d) sections in
                let counts = normalized_values-AreCounts values row_ids d apart good in
                let same : calculation d row_ids totals l r missing ≡ c =
                  ground (arith, known, good, filled, lefts, rights, blank, h) in
                subst (λ k. Shown template values k) same
                  (
                    (counts.0 ∙ ordered_rows-all sections, counts.1),
                    refl,
                    refl,
                    refl,
                    balanced_iff l r d missing (rw counts.0 apart) (rw counts.0 blank),
                  )
          ]
        ]
      ]
    ]
