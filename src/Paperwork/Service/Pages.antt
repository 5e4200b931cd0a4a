-- ===== src/Paperwork/Service/Pages.antt =====
-- paperwork/service.py: reading the records page by page, by the cursors of list_paperwork_records.
use prison_policy_ai.Prelude.{
  ℕ, zero, suc, ◌+◌, ◌≤◌, ◌<◌, ◌≡◌, ◌≢◌, refl, sym, ap, ◌∙◌, subst, List, [], ◌∷◌, ◌++◌, map,
  append_assoc, Option, none, some, true, false, not, ◌&&◌, Text, text_eq, arith, all, All, find,
  ltb, ◌==◌, select, length, length-append, Bool-cases, inl, inr, Unique, hex_bound,
  read_uuid-uuid_text, limit_rows, order_rows, Ordered, order_rows-Ordered, select-order_rows,
  select-after, select-select, select-true, Unique-select, All-middle, select-All, order_rows-All,
  length-select, length-order_rows, limit_rows-all, limit_rows-more, limit_rows-cut, last_row-snoc,
}
use prison_policy_ai.Fault.{Result, ok, raised}
use prison_policy_ai.Identity.Elevation.{Actor}
use prison_policy_ai.Paperwork.CountSheet.{entry}
use prison_policy_ai.Paperwork.Models.{PaperworkRecord, PaperworkView, PaperworkDb}
use prison_policy_ai.Paperwork.Service.{view_of}
use prison_policy_ai.Paperwork.Service.Lists.{
  Isoformat, ListFilter, Cursor, PaperworkPage, replace_z, cursor_position, read_cursor, is_after,
  comes_first, is_listed, is_valid_shift, cursor_to, page_of, list_paperwork_records,
}

-- the text of a time has no Z, and is read back
abbrev pub IsReadable : Isoformat → Type 0
IsReadable iso =
    (t : ℕ)
    → (all (λ c. not (c == b'Z')) (iso.isoformat t) ≡ true)
      × (iso.fromisoformat (iso.isoformat t) ≡ some t)

replace_z_plain : (s : Text) → all (λ c. not (c == b'Z')) s ≡ true → replace_z s ≡ s
unfolding replace_z all
replace_z_plain [] h = refl
replace_z_plain (c ∷ s) h = ground (arith, replace_z_plain s)

read_cursor-cursor_to :
    (iso : Isoformat) (row : PaperworkRecord)
    → IsReadable iso
    → row.id < hex_bound 32
    → read_cursor iso (some (cursor_to iso row)) ≡ ok (some (row.updated_at, row.id))
unfolding read_cursor cursor_position entry find text_eq
read_cursor-cursor_to iso row readable small =
    let (plain, back) = readable row.updated_at in
    rw
      (replace_z_plain (iso.isoformat row.updated_at) plain, back, read_uuid-uuid_text row.id small)
      refl

before_trans :
    (x y z : PaperworkRecord)
    → comes_first x y ≡ true
    → comes_first y z ≡ true
    → comes_first x z ≡ true
before_trans x y z h k = ground arith

before_asym : (x y : PaperworkRecord) → comes_first x y ≡ true → comes_first y x ≡ false
before_asym x y h = ground arith

before_total :
    (x y : PaperworkRecord) → x.id ≢ y.id → comes_first x y ≡ false → comes_first y x ≡ true
before_total x y n h = ground arith

-- the rows of the actor and the filter, in order
abbrev pub listed_rows : Actor → ListFilter → PaperworkDb → List PaperworkRecord
listed_rows actor filter db = order_rows comes_first (select (is_listed actor filter) db.records)

map-cut :
    {A B : Type 0} (f : A → B) (ys zs : List A) (c : A)
    → map f (ys ++ c ∷ []) ++ map f zs ≡ map f (ys ++ c ∷ zs)
map-cut f [] zs c = refl
map-cut f (y ∷ ys) zs c = ap (λ l. f y ∷ l) (map-cut f ys zs c)

module _ (iso : Isoformat) (actor : Actor) (filter : ListFilter) (limit : ℕ)
    (db : PaperworkDb) where
  -- what a client reads that follows the cursors, over so many pages at most
  unfoldable pub read_pages : ℕ → Option Cursor → Result (List PaperworkView)
  read_pages zero cursor = ok []
  read_pages (suc fuel) cursor = elim (list_paperwork_records iso actor filter limit cursor db) [
    | raised f ↦ raised f
    | ok page ↦ elim page.next_cursor [
      | none ↦ ok page.items
      | some next ↦ elim (read_pages fuel (some next)) [
        | raised f ↦ raised f
        | ok rest ↦ ok (page.items ++ rest)
      ]
    ]
  ]

  rows_from : Option (ℕ × ℕ) → List PaperworkRecord
  rows_from position =
      order_rows comes_first
        (select (λ row. is_listed actor filter row && is_after position row) db.records)

  rows_from-start : rows_from none ≡ listed_rows actor filter db
  unfolding rows_from
  rows_from-start = ap (order_rows comes_first) (select-true (is_listed actor filter) db.records)

  rows_from-row :
      (c : PaperworkRecord) (xs ys : List PaperworkRecord)
      → Unique (λ (r : PaperworkRecord). r.id) db.records
      → listed_rows actor filter db ≡ xs ++ c ∷ ys
      → rows_from (some (c.updated_at, c.id)) ≡ ys
  unfolding rows_from
  rows_from-row c xs ys u full =
      let key = λ (r : PaperworkRecord). r.id in
      let rows = select (is_listed actor filter) db.records in
      let u' = Unique-select key (is_listed actor filter) db.records u in
      let ordered =
        order_rows-Ordered comes_first key before_trans before_asym before_total rows u' in
      ap (order_rows comes_first)
        (select-select (is_listed actor filter) (comes_first c) db.records)
      ∙ sym (
          select-order_rows comes_first key before_trans before_asym before_total (comes_first c)
            rows u')
      ∙ ap (select (comes_first c)) full
      ∙ select-after comes_first key before_trans before_asym before_total c xs ys
          (subst (Ordered comes_first) full ordered)

  module _ (readable : IsReadable iso) (u : Unique (λ (r : PaperworkRecord). r.id) db.records)
      (small : All (λ (r : PaperworkRecord). r.id < hex_bound 32) db.records) (low : 1 ≤ limit)
      (high : limit ≤ 50) (valid : is_valid_shift filter.shift ≡ true) where
    abbrev last_page : List PaperworkRecord → PaperworkPage
    last_page xs = record { items = map view_of xs; next_cursor = none }

    list-page_of :
        (cursor : Option Cursor) (position : Option (ℕ × ℕ))
        → read_cursor iso cursor ≡ ok position
        → list_paperwork_records iso actor filter limit cursor db
          ≡ ok (page_of iso limit (limit_rows (limit + 1) (rows_from position)))
    unfolding list_paperwork_records rows_from
    list-page_of cursor position read = ground (arith, read, valid)

    page_of-last :
        (xs : List PaperworkRecord)
        → length xs ≤ limit
        → page_of iso limit (limit_rows (limit + 1) xs) ≡ last_page xs
    unfolding page_of
    page_of-last xs few =
        ground (arith, limit_rows-all (limit + 1) xs, limit_rows-all limit xs, few)

    abbrev full_page : List PaperworkRecord → PaperworkRecord → PaperworkPage
    full_page ys c = record {
      items = map view_of (ys ++ c ∷ []);
      next_cursor = some (cursor_to iso c);
    }

    page_of-full :
        (xs ys : List PaperworkRecord) (c : PaperworkRecord)
        → limit < length xs
        → limit_rows limit xs ≡ ys ++ c ∷ []
        → page_of iso limit (limit_rows (limit + 1) xs) ≡ full_page ys c
    unfolding page_of
    page_of-full xs ys c many cut =
        let (more, same) = limit_rows-more limit xs many in
        let one : limit + 1 ≡ suc limit = omega arith in
        let first : limit_rows limit (limit_rows (limit + 1) xs) ≡ ys ++ c ∷ [] =
          rw (one, same, cut) refl in
        let reached : ltb limit (length (limit_rows (limit + 1) xs)) ≡ true =
          rw one (ground arith) in
        rw (first, reached, last_row-snoc ys c) refl

    read_pages-on :
        (fuel : ℕ) (cursor : Option Cursor) (ys : List PaperworkRecord) (c : PaperworkRecord)
        (rest : List PaperworkView)
        → list_paperwork_records iso actor filter limit cursor db ≡ ok (full_page ys c)
        → read_pages fuel (some (cursor_to iso c)) ≡ ok rest
        → read_pages (suc fuel) cursor ≡ ok (map view_of (ys ++ c ∷ []) ++ rest)
    unfolding read_pages
    read_pages-on fuel cursor ys c rest got later = ground (arith, got, later)

    listed-small :
        (xs ys : List PaperworkRecord) (c : PaperworkRecord)
        → listed_rows actor filter db ≡ xs ++ c ∷ ys
        → c.id < hex_bound 32
    listed-small xs ys c full =
        let P = λ (r : PaperworkRecord). r.id < hex_bound 32 in
        All-middle P xs c ys (
          subst (All P) full (
            order_rows-All comes_first P (select (is_listed actor filter) db.records)
              (select-All P (is_listed actor filter) db.records small)))

    read_pages-from :
        (fuel : ℕ) (cursor : Option Cursor) (position : Option (ℕ × ℕ))
        (pre xs : List PaperworkRecord)
        → read_cursor iso cursor ≡ ok position
        → rows_from position ≡ xs
        → listed_rows actor filter db ≡ pre ++ xs
        → length xs < fuel
        → read_pages fuel cursor ≡ ok (map view_of xs)
    unfolding read_pages
    read_pages-from zero cursor position pre xs read from full enough = absurd (omega arith)
    read_pages-from (suc fuel) cursor position pre xs read from full enough =
        let got =
          list-page_of cursor position read
          ∙ ap (λ rows. ok (page_of iso limit (limit_rows (limit + 1) rows))) from in
        elim (Bool-cases (ltb limit (length xs))) [
          | inr few ↦ let page = page_of-last xs (ground arith) in ground (arith, got, page)
          | inl many ↦
              let (ys, c, zs, e, cut) = limit_rows-cut limit xs (ground arith) low in
              let page = page_of-full xs ys c (ground arith) cut in
              let at : listed_rows actor filter db ≡ (pre ++ ys) ++ c ∷ zs =
                full ∙ ap (λ l. pre ++ l) e ∙ sym (append_assoc pre ys (c ∷ zs)) in
              let longer = ap length e ∙ length-append ys (c ∷ zs) in
              let rest =
                read_pages-from fuel (some (cursor_to iso c)) (some (c.updated_at, c.id))
                  ((pre ++ ys) ++ c ∷ []) zs
                  (read_cursor-cursor_to iso c readable (listed-small (pre ++ ys) zs c at))
                  (rows_from-row c (pre ++ ys) zs u at)
                  (at ∙ sym (append_assoc (pre ++ ys) (c ∷ []) zs)) (omega arith) in
              read_pages-on fuel cursor ys c (map view_of zs) (got ∙ ap ok page) rest
              ∙ ap ok (map-cut view_of ys zs c ∙ ap (map view_of) (sym e))
        ]

-- A client that reads the list page by page, handing each cursor back, over as many pages as there are
-- records or more. It gets each record that the query selects for the actor and the filter, once, in the
-- order of the query, the last updated first, whatever the size of a page from 1 to 50; and it gets them
-- all. Ids are distinct, as the primary key demands, and of 128 bits; the text of a time is read back as
-- the time; and a shift to filter by is one that the query accepts.
pub read_pages_complete :
    (iso : Isoformat) (actor : Actor) (filter : ListFilter) (limit : ℕ) (db : PaperworkDb)
    (fuel : ℕ)
    → IsReadable iso
    → Unique (λ (r : PaperworkRecord). r.id) db.records
    → All (λ (r : PaperworkRecord). r.id < hex_bound 32) db.records
    → 1 ≤ limit
    → limit ≤ 50
    → is_valid_shift filter.shift ≡ true
    → length db.records < fuel
    → read_pages iso actor filter limit db fuel none
      ≡ ok (map view_of (listed_rows actor filter db))
unfolding read_cursor
read_pages_complete iso actor filter limit db fuel readable u small low high valid enough =
    let rows = listed_rows actor filter db in
    let few : length rows < fuel = omega (
      arith,
      length-order_rows comes_first (select (is_listed actor filter) db.records),
      length-select (is_listed actor filter) db.records,
    ) in
    read_pages-from iso actor filter limit db readable u small low high valid fuel none none [] rows
      refl (rows_from-start iso actor filter limit db) refl few
