-- ===== src/Paperwork/Service/Recopies.antt =====
-- paperwork/service.py: a copy of the roster of a day and shift is made once.
use prison_policy_ai.Prelude.{
  ℕ, ◌≡◌, ◌≢◌, refl, sym, ap, ◌∙◌, List, [], ◌∷◌, ◌++◌, Option, none, some, Bool, true, false, ◌||◌,
  Text, text_eq_refl, ltb, find, find-append, ==_iff, select, length, arith, Bool-cases,
  Option-cases, inl, inr,
}
use prison_policy_ai.Fault.{ok, raised, paperwork_already_exists, Result-cases}
use prison_policy_ai.Identity.Json.{Fields}
use prison_policy_ai.Identity.Models.{is_admin}
use prison_policy_ai.Identity.Normalization.{join_words, is_empty}
use prison_policy_ai.Identity.Normalization.Words.{split-join-split}
use prison_policy_ai.Identity.Elevation.{Actor}
use prison_policy_ai.Paperwork.Models.{
  PaperworkKind, assignment_roster, PaperworkRecord, PaperworkView, PaperworkDb,
}
use prison_policy_ai.Paperwork.Schemas.{SavePaperworkRequest, save_request, normalize_shift}
use prison_policy_ai.Paperwork.Daily.Derived.{prepare_copied_roster_payload}
use prison_policy_ai.Paperwork.Service.{Rules, Call, view_of}
use prison_policy_ai.Paperwork.Service.Rows.{new_record}
use prison_policy_ai.Paperwork.Service.Saves.{save_paperwork_record, with_payload}
use prison_policy_ai.Paperwork.Service.Copies.{
  Rosters, is_roster_of, is_source, latest, copy_request, copy_to, normalized_shift,
  copy_previous_daily_record,
}
use prison_policy_ai.Paperwork.Service.Effects.{Saved, replays, creates, appends, save-Saved}

copy_request-asks :
    (rosters : Rosters) (source : PaperworkRecord) (target_work_date : ℕ) (shift : Text)
    (request : SavePaperworkRequest)
    → copy_request rosters source target_work_date shift ≡ ok request
    → (request.work_date ≡ target_work_date) × (request.shift ≡ normalize_shift (some shift))
unfolding copy_request save_request
copy_request-asks rosters source target_work_date shift request h =
    elim (Result-cases (rosters.read_roster source.current_payload)) [
      | inr (f, bad) ↦ absurd (ground (arith, bad, h))
      | inl (roster, read) ↦
          elim (Result-cases
            (prepare_copied_roster_payload rosters.definition roster target_work_date shift)) [
              | inr (f, bad) ↦ absurd (ground (arith, read, bad, h))
              | inl (copy, made) ↦ (ground (arith, read, made, h), ground (arith, read, made, h))
            ]
    ]

Saved-creates :
    {rules : Rules} {actor : Actor} {call : Call} {kind : PaperworkKind}
    {request : SavePaperworkRequest} {payload : Fields} {db after : PaperworkDb}
    {view : PaperworkView}
    → Saved rules actor call kind request none payload db after view
    → after.records ≢ db.records
    → (after.records
        ≡ db.records
          ++ new_record actor kind (with_payload request payload) call.draws.record_id call.now
            ∷ [])
      × (view
          ≡ view_of
              (new_record actor kind (with_payload request payload) call.draws.record_id call.now))
Saved-creates (replays again) wrote =
    absurd (wrote (ap (λ (d : PaperworkDb). d.records) again.is_unchanged))
Saved-creates (creates _ _ c) wrote = (c.is_records, c.is_view)
Saved-creates (appends id base current _ is_id _ _ _ _ _) wrote = absurd (ground (arith, is_id))

asked_row :
    (actor : Actor) (request : SavePaperworkRequest) (payload : Fields) (id now : ℕ)
    (target_work_date : ℕ) (shift : Text)
    → request.work_date ≡ target_work_date
    → request.shift ≡ some shift
    → is_roster_of target_work_date shift
        (new_record actor assignment_roster (with_payload request payload) id now)
      ≡ true
asked_row actor request payload id now target_work_date shift day own =
    rw (day, own, text_eq_refl shift) (ground (arith, ==_iff target_work_date target_work_date))

find_appended :
    (p : PaperworkRecord → Bool) (rows after : List PaperworkRecord) (row : PaperworkRecord)
    → find p rows ≡ none
    → p row ≡ true
    → after ≡ rows ++ row ∷ []
    → find p after ≡ some row
unfolding find
find_appended p rows after row free is_row written =
    ap (find p) written ∙ find-append p rows (row ∷ []) ∙ ground (arith, free, is_row)

written_row :
    (rules : Rules) (actor : Actor) (call : Call) (target_work_date : ℕ) (shift : Text)
    (request : SavePaperworkRequest) (db after : PaperworkDb) (view : PaperworkView)
    → request.work_date ≡ target_work_date
    → request.shift ≡ some shift
    → find (is_roster_of target_work_date shift) db.records ≡ none
    → save_paperwork_record rules actor call assignment_roster request none db ≡ (ok view, after)
    → after.records ≢ db.records
    → (row : PaperworkRecord) × (find (is_roster_of target_work_date shift) after.records
        ≡ some row)
      × (view ≡ view_of row)
written_row rules actor call target_work_date shift request db after view day own free run wrote =
    let (payload, _, effect) =
      save-Saved rules actor call assignment_roster request none db after view run in
    let (written, shown) = Saved-creates effect wrote in
    (
      new_record actor assignment_roster (with_payload request payload) call.draws.record_id
          call.now,
      find_appended (is_roster_of target_work_date shift) db.records after.records _ free
          (asked_row actor request payload call.draws.record_id call.now target_work_date shift day
            own)
          written,
      shown,
    )

-- a copy that has written has added the roster of the day and shift, which nothing was before
copy_to-writes :
    (rules : Rules) (rosters : Rosters) (actor : Actor) (call : Call) (target_work_date : ℕ)
    (shift : Text) (source_record_id : Option ℕ) (db after : PaperworkDb) (view : PaperworkView)
    → normalize_shift (some shift) ≡ some shift
    → copy_to rules rosters actor call target_work_date shift source_record_id db ≡ (ok view, after)
    → after.records ≢ db.records
    → (row : PaperworkRecord) × (find (is_roster_of target_work_date shift) after.records
        ≡ some row)
      × (view ≡ view_of row)
unfolding copy_to
copy_to-writes rules rosters actor call target_work_date shift source_record_id db after view clean
      h wrote =
    elim (Option-cases (find (is_roster_of target_work_date shift) db.records)) [
      | inr (row, found) ↦ absurd (ground (arith, found, h))
      | inl free ↦
          elim (Option-cases
            (latest (select (is_source target_work_date shift source_record_id) db.records))) [
              | inl gone ↦ absurd (ground (arith, free, gone, h))
              | inr (source, is_latest) ↦
                  elim (Result-cases (copy_request rosters source target_work_date shift)) [
                    | inr (f, bad) ↦ absurd (ground (arith, free, is_latest, bad, h))
                    | inl (request, asked) ↦
                        let run : save_paperwork_record rules actor call assignment_roster request
                              none db
                            ≡ (ok view, after) =
                          ground (arith, free, is_latest, asked, h) in
                        let (day, own) =
                          copy_request-asks rosters source target_work_date shift request asked in
                        written_row rules actor call target_work_date shift request db after view
                          day (own ∙ clean) free run wrote
                  ]
            ]
    ]

-- the checks that a copy which succeeds has passed
copy_previous-passed :
    (rules : Rules) (rosters : Rosters) (actor : Actor) (call : Call) (target_work_date : ℕ)
    (shift : Text) (source : Option ℕ) (db after : PaperworkDb) (view : PaperworkView)
    → copy_previous_daily_record rules rosters actor call assignment_roster target_work_date shift
        source db
      ≡ (ok view, after)
    → (is_empty (normalized_shift shift) || ltb 32 (length (normalized_shift shift)) ≡ false)
      × (copy_to rules rosters actor call target_work_date (normalized_shift shift) source db
          ≡ (ok view, after))
unfolding copy_previous_daily_record
copy_previous-passed rules rosters actor call target_work_date shift source db after view h =
    elim (Bool-cases (is_admin actor.role)) [
      | inr officer ↦ absurd (ground (arith, officer, h))
      | inl admin ↦
          elim (Bool-cases
            (is_empty (normalized_shift shift) || ltb 32 (length (normalized_shift shift)))) [
              | inl bad ↦ absurd (ground (arith, admin, bad, h))
              | inr good ↦ (good, ground (arith, admin, good, h))
            ]
    ]

copy_to-again :
    (rules : Rules) (rosters : Rosters) (actor : Actor) (call : Call) (target_work_date : ℕ)
    (shift : Text) (source : Option ℕ) (after : PaperworkDb) (row : PaperworkRecord)
    → find (is_roster_of target_work_date shift) after.records ≡ some row
    → copy_to rules rosters actor call target_work_date shift source after
      ≡ (raised (paperwork_already_exists row.id), after)
unfolding copy_to
copy_to-again rules rosters actor call target_work_date shift source after row found = rw found refl

-- a shift that is stored is as the code would write it again
normalize_shift-normalized :
    (shift : Text)
    → is_empty (normalized_shift shift) ≡ false
    → normalize_shift (some (normalized_shift shift)) ≡ some (normalized_shift shift)
unfolding normalize_shift
normalize_shift-normalized shift e = ground (arith, ap join_words (split-join-split shift), e)

-- A roster of a day and shift is copied once. After an administrator's copy has written, a copy to that
-- day and shift, however the words of the shift are spaced, by whichever administrator, from whichever
-- source and under whichever idempotency key, is refused with the id of the record that the first one
-- made, and writes nothing. So the first call repeated, key and all, because its answer was lost, is not
-- answered again.
pub copy_previous_daily_record-once :
    (rules : Rules) (rosters : Rosters) (actor other : Actor) (call call' : Call)
    (target_work_date : ℕ) (shift shift' : Text) (source source' : Option ℕ)
    (db after : PaperworkDb) (view : PaperworkView)
    → copy_previous_daily_record rules rosters actor call assignment_roster target_work_date shift
        source db
      ≡ (ok view, after)
    → after.records ≢ db.records
    → normalized_shift shift' ≡ normalized_shift shift
    → is_admin other.role ≡ true
    → copy_previous_daily_record rules rosters other call' assignment_roster target_work_date shift'
        source' after
      ≡ (raised (paperwork_already_exists view.record_id), after)
unfolding copy_previous_daily_record
copy_previous_daily_record-once rules rosters actor other call call' target_work_date shift shift'
      source source' db after view h wrote same admin =
    let (fits, run) =
      copy_previous-passed rules rosters actor call target_work_date shift source db after view h in
    let (row, found, shown) =
      copy_to-writes rules rosters actor call target_work_date (normalized_shift shift) source db
        after view (normalize_shift-normalized shift (ground arith)) run wrote in
    rw (admin, same, fits)
      (copy_to-again rules rosters other call' target_work_date (normalized_shift shift) source'
          after row found
        ∙ ap (λ (v : PaperworkView). (raised (paperwork_already_exists v.record_id), after))
            (sym shown))
