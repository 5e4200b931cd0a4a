-- ===== src/Paperwork/CountSheet/Cells.antt =====
-- paperwork/count_sheet.py: the cells of a valid sheet, against a lookup of their numbers.
use prison_policy_ai.Prelude.{
  ℕ, ◌+◌, ◌≡◌, refl, ap, List, [], ◌∷◌, map, Option, true, subst, Text, text_eq, any, all, find,
  All, All-find, All-all, All-map, arith, Bool-cases, Option-cases, inl, inr, none, some,
  if◌then◌else◌, sum_by,
}
use prison_policy_ai.Fault.{Result, ok}
use prison_policy_ai.Paperwork.CountSheet.{
  integer_or_zero, Dict, keys, is_key_of, is_subset, same_keys, CountSheetStructure,
  CountSheetRecord, entry, count_at, cell_at, sum_entries, for_each,
}

-- the number of an entry, or 0 where it is empty or is not there
unfoldable pub value_at : Text → Dict (Option ℕ) → ℕ
value_at k [] = 0
value_at k ((j, v) ∷ d) = if text_eq k j then elim v [ none ↦ 0 | some n ↦ n ] else value_at k d

-- the number in the row of the area and in the column
unfoldable pub cell_value : Text → Text → Dict (Dict (Option ℕ)) → ℕ
cell_value area column [] = 0
cell_value area column ((j, row) ∷ cells) =
    if text_eq area j then value_at column row else cell_value area column cells

module _ {V : Type 0} where
  entry-keys : (k : Text) (d : Dict V) → is_key_of k (keys d) ≡ true → (v : V) × (entry k d ≡ ok v)
  unfolding is_key_of entry any find
  entry-keys k [] h = absurd (ground arith)
  entry-keys k ((j, v) ∷ d) h = elim (Bool-cases (text_eq k j)) [
    | inl here ↦ (v, ground (arith, here))
    | inr later ↦ let (w, e) = entry-keys k d (rw later at h) in (w, ground (arith, later, e))
  ]

  same_keys-entry :
      (names : List Text) (d : Dict V)
      → same_keys (keys d) names ≡ true
      → All (λ k. (v : V) × (entry k d ≡ ok v)) names
  unfolding same_keys is_subset
  same_keys-entry names d h =
      entries names (All-all (λ k. is_key_of k (keys d)) names (ground arith))
    where
      entries :
          (ks : List Text)
          → All (λ k. is_key_of k (keys d) ≡ true) ks
          → All (λ k. (v : V) × (entry k d ≡ ok v)) ks
      entries [] a = tt
      entries (k ∷ ks) a = (entry-keys k d a.0, entries ks a.1)

pub sum_entries-ok :
    (f : Text → Result ℕ) (g : Text → ℕ) (ks : List Text)
    → All (λ k. f k ≡ ok (g k)) ks
    → sum_entries f ks ≡ ok (sum_by g ks)
unfolding sum_entries sum_by
sum_entries-ok f g [] a = refl
sum_entries-ok f g (k ∷ ks) a = ground (arith, a.0, sum_entries-ok f g ks a.1)

pub for_each-ok :
    (f : Text → Result ℕ) (g : Text → ℕ) (ks : List Text)
    → All (λ k. f k ≡ ok (g k)) ks
    → for_each f ks ≡ ok (map (λ k. (k, g k)) ks)
unfolding for_each
for_each-ok f g [] a = refl
for_each-ok f g (k ∷ ks) a = ground (arith, a.0, for_each-ok f g ks a.1)

pub sum_by-pairs :
    (g : Text → ℕ) (ks : List Text)
    → sum_by (λ (e : Text × ℕ). e.1) (map (λ k. (k, g k)) ks) ≡ sum_by g ks
unfolding sum_by
sum_by-pairs g [] = refl
sum_by-pairs g (k ∷ ks) = ap (λ n. g k + n) (sum_by-pairs g ks)

count_at-ok :
    (k : Text) (d : Dict (Option ℕ)) (v : Option ℕ)
    → entry k d ≡ ok v
    → count_at k d ≡ ok (value_at k d)
unfolding count_at value_at entry find integer_or_zero
count_at-ok k [] v e = absurd (ground (arith, e))
count_at-ok k ((j, none) ∷ d) v e = elim (Bool-cases (text_eq k j)) [
  | inl here ↦ ground (arith, here)
  | inr later ↦ ground (arith, later, count_at-ok k d v (ground (arith, later, e)))
]
count_at-ok k ((j, some n) ∷ d) v e = elim (Bool-cases (text_eq k j)) [
  | inl here ↦ ground (arith, here)
  | inr later ↦ ground (arith, later, count_at-ok k d v (ground (arith, later, e)))
]

pub count_at-value :
    (names : List Text) (d : Dict (Option ℕ))
    → same_keys (keys d) names ≡ true
    → All (λ k. count_at k d ≡ ok (value_at k d)) names
count_at-value names d h =
    All-map names (λ k (v, e). count_at-ok k d v e) (same_keys-entry names d h)

cell_value-row :
    (area column : Text) (cells : Dict (Dict (Option ℕ))) (row : Dict (Option ℕ))
    → entry area cells ≡ ok row
    → cell_value area column cells ≡ value_at column row
unfolding cell_value entry find
cell_value-row area column [] row e = absurd (ground (arith, e))
cell_value-row area column ((j, d) ∷ cells) row e = elim (Bool-cases (text_eq area j)) [
  | inl here ↦ let same : d ≡ row = ground (arith, here, e) in rw here (ap (value_at column) same)
  | inr later ↦ rw later (cell_value-row area column cells row (ground (arith, later, e)))
]

cell_at-ok :
    (model : CountSheetRecord) (area column : Text) (row : Dict (Option ℕ))
    → entry area model.cells ≡ ok row
    → count_at column row ≡ ok (value_at column row)
    → cell_at model area column ≡ ok (cell_value area column model.cells)
unfolding cell_at
cell_at-ok model area column row e c =
    ground (arith, e, c, cell_value-row area column model.cells row e)

-- a row that is there has every column
row-columns :
    (s : CountSheetStructure) (model : CountSheetRecord) (area : Text) (row : Dict (Option ℕ))
    → all (λ row. same_keys (keys row.1) s.columns) model.cells ≡ true
    → entry area model.cells ≡ ok row
    → same_keys (keys row) s.columns ≡ true
unfolding entry
row-columns s model area row h e =
    elim (Option-cases (find (λ (x : Text × Dict (Option ℕ)). text_eq area x.0) model.cells)) [
      | inl gone ↦ absurd (ground (arith, gone, e))
      | inr (x, found) ↦
          let good : same_keys (keys x.1) s.columns ≡ true =
            All-find (λ (x : Text × Dict (Option ℕ)). same_keys (keys x.1) s.columns ≡ true)
              (λ x. text_eq area x.0) model.cells x
              (All-all (λ (x : Text × Dict (Option ℕ)). same_keys (keys x.1) s.columns) model.cells
                h)
              found in
          let same : x.1 ≡ row = ground (arith, found, e) in
          subst (λ d. same_keys (keys d) s.columns ≡ true) same good
    ]

pub cells-ok :
    (s : CountSheetStructure) (model : CountSheetRecord)
    → same_keys (keys model.cells) s.areas ≡ true
    → all (λ row. same_keys (keys row.1) s.columns) model.cells ≡ true
    → All
        (λ area.
          All
            (λ column. cell_at model area column ≡ ok (cell_value area column model.cells))
            s.columns)
        s.areas
cells-ok s model h rows =
    All-map s.areas
      (λ area (row, e).
        All-map s.columns (λ column c. cell_at-ok model area column row e c)
          (count_at-value s.columns row (row-columns s model area row rows e)))
      (same_keys-entry s.areas model.cells h)
