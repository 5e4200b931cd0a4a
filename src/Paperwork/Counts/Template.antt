-- ===== src/Paperwork/Counts/Template.antt =====
-- paperwork/counts.py: what is known of a template that parse_count_sheet_template returns.
use prison_policy_ai.Prelude.{
  ℕ, suc, subst, ◌≤◌, ◌≡◌, refl, ap, List, [], ◌∷◌, ◌++◌, true, false, ◌||◌, Text, codes,
  text_eq_iff, any, All, All-map, All-append, arith, inl, inr, length,
}
use prison_policy_ai.Fault.{ok, Result-cases}
use prison_policy_ai.Identity.Json.{Json, null, boolean, number, string, arr, obj, Items, end, item}
use prison_policy_ai.Paperwork.Values.{get_field}
use prison_policy_ai.Paperwork.CountSheet.{is_key_of, are_distinct}
use prison_policy_ai.Paperwork.Counts.{
  Unicode, CountRowDefinition, CountSectionDefinition, CountSheetTemplate, ids_of, section_ids,
  ordered_rows, items_count, parse_row, parse_rows, parse_section, parse_sections,
  parse_count_sheet_template, bounded_list, is_left, is_right, exact_dict, section_keys,
  template_keys,
}

-- none of the ids is among those seen before, and none comes twice
abbrev Fresh : List Text → List Text → Type 0
Fresh seen ids = All (λ id. is_key_of id seen ≡ false) ids × (are_distinct ids ≡ true)

is_key_of-append :
    (k : Text) (xs ys : List Text) → is_key_of k (xs ++ ys) ≡ is_key_of k xs || is_key_of k ys
unfolding is_key_of any
is_key_of-append k [] ys = refl
is_key_of-append k (x ∷ xs) ys = ground (arith, is_key_of-append k xs ys)

absent :
    (k : Text) (seen ids : List Text)
    → All (λ id. is_key_of id (k ∷ seen) ≡ false) ids
    → is_key_of k ids ≡ false
unfolding is_key_of any
absent k seen [] a = refl
absent k seen (x ∷ xs) a =
    ground (arith, a.0, text_eq_iff k x, text_eq_iff x k, absent k seen xs a.1)

not_seen :
    (id k : Text) (seen : List Text) → is_key_of id (k ∷ seen) ≡ false → is_key_of id seen ≡ false
unfolding is_key_of any
not_seen id k seen e = ground arith

Fresh-cons :
    (k : Text) (seen ids : List Text)
    → is_key_of k seen ≡ false
    → Fresh (k ∷ seen) ids
    → Fresh seen (k ∷ ids)
Fresh-cons k seen ids new (apart, distinct) = (
  (new, All-map ids (λ id (e : is_key_of id (k ∷ seen) ≡ false). not_seen id k seen e) apart),
  unfold are_distinct in ground (arith, absent k seen ids apart, distinct),
)

neither_left :
    (k : Text) (xs ys : List Text) → is_key_of k (xs ++ ys) ≡ false → is_key_of k xs ≡ false
neither_left k xs ys e = ground (arith, is_key_of-append k xs ys)

neither_right :
    (k : Text) (xs ys : List Text) → is_key_of k (xs ++ ys) ≡ false → is_key_of k ys ≡ false
neither_right k xs ys e = ground (arith, is_key_of-append k xs ys)

distinct-append :
    (xs ys : List Text)
    → are_distinct xs ≡ true
    → are_distinct ys ≡ true
    → All (λ y. is_key_of y xs ≡ false) ys
    → are_distinct (xs ++ ys) ≡ true
unfolding are_distinct
distinct-append [] ys dx dy a = dy
distinct-append (x ∷ xs) ys dx dy a = ground (
  arith,
  is_key_of-append x xs ys,
  absent x xs ys a,
  distinct-append xs ys (ground arith) dy
      (All-map ys (λ id (e : is_key_of id (x ∷ xs) ≡ false). not_seen id x xs e) a),
)

bounded_list_bounds :
    (low high : ℕ) (x : Json) (xs : Items)
    → bounded_list low high x ≡ ok xs
    → (low ≤ items_count xs) × (items_count xs ≤ high)
unfolding bounded_list
bounded_list_bounds low high (arr ys) xs h =
    let same : ys ≡ xs = ground arith in
    subst (λ (zs : Items). (low ≤ items_count zs) × (items_count zs ≤ high)) same
      (ground arith, ground arith)
bounded_list_bounds low high null xs h = absurd (ground arith)
bounded_list_bounds low high (boolean b) xs h = absurd (ground arith)
bounded_list_bounds low high (number n) xs h = absurd (ground arith)
bounded_list_bounds low high (string s) xs h = absurd (ground arith)
bounded_list_bounds low high (obj fs) xs h = absurd (ground arith)

-- what is known of one section, and of those that a loop returns
abbrev IsSection : CountSectionDefinition → Type 0
IsSection s = (1 ≤ length s.rows) × (length s.rows ≤ 100)

abbrev AreSections : List Text → List Text → ℕ → List CountSectionDefinition → Type 0
AreSections seen seen_rows n sections =
    Fresh seen (section_ids sections)
    × Fresh seen_rows (ordered_rows sections)
    × All IsSection sections
    × (length sections ≡ n)

AreSections-cons :
    (seen seen_rows : List Text) (n : ℕ) (s : CountSectionDefinition)
    (rest : List CountSectionDefinition)
    → (is_key_of s.section_id seen ≡ false)
      × Fresh seen_rows (ids_of s.rows)
      × (1 ≤ length s.rows)
      × (length s.rows ≤ 100)
    → AreSections (s.section_id ∷ seen) (ids_of s.rows ++ seen_rows) n rest
    → AreSections seen seen_rows (suc n) (s ∷ rest)
unfolding ordered_rows
AreSections-cons seen seen_rows n s rest (new, (apart, distinct), low, high)
      (fresh, (apart', distinct'), sized, many) =
    (
      Fresh-cons s.section_id seen (section_ids rest) new fresh,
      (
        All-append (λ id. is_key_of id seen_rows ≡ false) (ids_of s.rows) (ordered_rows rest) apart
            (All-map (ordered_rows rest)
              (λ id (e : is_key_of id (ids_of s.rows ++ seen_rows) ≡ false).
                neither_right id (ids_of s.rows) seen_rows e)
              apart'),
        distinct-append (ids_of s.rows) (ordered_rows rest) distinct distinct' (
            All-map (ordered_rows rest)
              (λ id (e : is_key_of id (ids_of s.rows ++ seen_rows) ≡ false).
                neither_left id (ids_of s.rows) seen_rows e)
              apart'),
      ),
      ((low, high), sized),
      ap suc many,
    )

module _ (unicode : Unicode) where
  parse_row-new :
      (seen : List Text) (x : Json) (row : CountRowDefinition)
      → parse_row unicode seen x ≡ ok row
      → is_key_of row.row_id seen ≡ false
  unfolding parse_row
  parse_row-new seen x row h = ground arith

  parse_rows-Fresh :
      (seen : List Text) (xs : Items) (rows : List CountRowDefinition)
      → parse_rows unicode seen xs ≡ ok rows
      → Fresh seen (ids_of rows) × (length rows ≡ items_count xs)
  unfolding parse_rows items_count
  parse_rows-Fresh seen end rows h =
      let same : [] ≡ rows = ground arith in
      subst (λ (rs : List CountRowDefinition). Fresh seen (ids_of rs) × (length rs ≡ 0)) same
        ((tt, unfold are_distinct in refl), refl)
  parse_rows-Fresh seen (item x xs) rows h = elim (Result-cases (parse_row unicode seen x)) [
    | inr (f, bad) ↦ absurd (ground (arith, bad, h))
    | inl (row, good) ↦ elim (Result-cases (parse_rows unicode (row.row_id ∷ seen) xs)) [
      | inr (f, bad) ↦ absurd (ground (arith, good, bad, h))
      | inl (rest, e) ↦
          let same : row ∷ rest ≡ rows = ground (arith, good, e, h) in
          let (fresh, many) = parse_rows-Fresh (row.row_id ∷ seen) xs rest e in
          subst
            (λ (rs : List CountRowDefinition).
              Fresh seen (ids_of rs) × (length rs ≡ suc (items_count xs)))
            same
            (
              Fresh-cons row.row_id seen (ids_of rest) (parse_row-new seen x row good) fresh,
              ap suc many,
            )
    ]
  ]

  -- a section, after the ids of the sections and of the rows that were seen before
  parse_section-Fresh :
      (seen seen_rows : List Text) (x : Json) (section : CountSectionDefinition)
      → parse_section unicode seen seen_rows x ≡ ok section
      → (is_key_of section.section_id seen ≡ false)
        × Fresh seen_rows (ids_of section.rows)
        × (1 ≤ length section.rows)
        × (length section.rows ≤ 100)
  unfolding parse_section
  parse_section-Fresh seen seen_rows x section h = elim (Result-cases (exact_dict section_keys x)) [
    | inr (f, bad) ↦ absurd (ground (arith, bad, h))
    | inl (fs, dict) ↦ elim (Result-cases (bounded_list 1 100 (get_field (codes "rows") fs))) [
      | inr (f, bad) ↦ absurd (ground (arith, dict, bad, h))
      | inl (raw, bounded) ↦
          let read : parse_rows unicode seen_rows raw ≡ ok section.rows =
            ground (arith, dict, bounded, h) in
          let (fresh, many) = parse_rows-Fresh seen_rows raw section.rows read in
          let (low, high) = bounded_list_bounds 1 100 (get_field (codes "rows") fs) raw bounded in
          (ground (arith, dict, bounded, h), fresh, omega arith, omega arith)
    ]
  ]

  parse_sections-Fresh :
      (seen seen_rows : List Text) (xs : Items) (sections : List CountSectionDefinition)
      → parse_sections unicode seen seen_rows xs ≡ ok sections
      → AreSections seen seen_rows (items_count xs) sections
  unfolding parse_sections items_count
  parse_sections-Fresh seen seen_rows end sections h =
      let same : [] ≡ sections = ground arith in
      subst (AreSections seen seen_rows 0) same
        (unfold are_distinct ordered_rows in ((tt, refl), (tt, refl), tt, refl))
  parse_sections-Fresh seen seen_rows (item x xs) sections h =
      elim (Result-cases (parse_section unicode seen seen_rows x)) [
        | inr (f, bad) ↦ absurd (ground (arith, bad, h))
        | inl (s, good) ↦
            elim (Result-cases
              (parse_sections unicode (s.section_id ∷ seen) (ids_of s.rows ++ seen_rows) xs)) [
                | inr (f, bad) ↦ absurd (ground (arith, good, bad, h))
                | inl (rest, e) ↦
                    let same : s ∷ rest ≡ sections = ground (arith, good, e, h) in
                    subst (AreSections seen seen_rows (suc (items_count xs))) same (
                      AreSections-cons seen seen_rows (items_count xs) s rest
                        (parse_section-Fresh seen seen_rows x s good)
                        (parse_sections-Fresh (s.section_id ∷ seen) (ids_of s.rows ++ seen_rows) xs
                          rest e))
              ]
      ]

-- A template that is read has 2 to 20 sections, at least one on the left and one on the right, each with
-- 1 to 100 rows. No two sections have one id, and no two rows, of one section or of two.
pub parse_count_sheet_template_sound :
    (unicode : Unicode) (value : Json) (t : CountSheetTemplate)
    → parse_count_sheet_template unicode value ≡ ok t
    → (are_distinct (section_ids t.sections) ≡ true)
      × (are_distinct (ordered_rows t.sections) ≡ true)
      × (2 ≤ length t.sections)
      × (length t.sections ≤ 20)
      × All (λ s. (1 ≤ length s.rows) × (length s.rows ≤ 100)) t.sections
      × (any (λ s. is_left s.reconciliation_side) t.sections ≡ true)
      × (any (λ s. is_right s.reconciliation_side) t.sections ≡ true)
unfolding parse_count_sheet_template
parse_count_sheet_template_sound unicode value t h =
    elim (Result-cases (exact_dict template_keys value)) [
      | inr (f, bad) ↦ absurd (ground (arith, bad, h))
      | inl (fs, dict) ↦ elim (Result-cases (bounded_list 2 20 (get_field (codes "sections") fs))) [
        | inr (f, bad) ↦ absurd (ground (arith, dict, bad, h))
        | inl (raw, bounded) ↦
            let read : parse_sections unicode [] [] raw ≡ ok t.sections =
              ground (arith, dict, bounded, h) in
            let (low, high) =
              bounded_list_bounds 2 20 (get_field (codes "sections") fs) raw bounded in
            let (fresh, rows, sized, many) =
              parse_sections-Fresh unicode [] [] raw t.sections read in
            (
              fresh.1,
              rows.1,
              omega arith,
              omega arith,
              sized,
              ground (arith, dict, bounded, read, h),
              ground (arith, dict, bounded, read, h),
            )
      ]
    ]
