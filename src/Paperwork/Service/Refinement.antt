-- ===== src/Paperwork/Service/Refinement.antt =====
-- paperwork/service.py against an abstract store of versions: a log of snapshots for each id, which a
-- save opens or extends at the version that the caller has seen.
use prison_policy_ai.Prelude.{
  ℕ, zero, suc, ◌≡◌, refl, sym, ap, subst, ◌∙◌, List, [], ◌∷◌, ◌++◌, map, Option, none, some, Bool,
  true, ◌&&◌, arith, find, find_sound, All-find, Lacks, ◌==◌, ==_iff, length, length-append,
  if◌then◌else◌,
}
use prison_policy_ai.Fault.{ok}
use prison_policy_ai.Identity.Elevation.{Actor}
use prison_policy_ai.Identity.Json.{Fields}
use prison_policy_ai.Paperwork.Models.{
  PaperworkKind, count_sheet, assignment_roster, uniform_inspection, metal_detector_test,
  perimeter_check, random_search_log, detector_sign_out, kind_code, kind_eq, restored,
  PaperworkRecord, PaperworkSnapshot, PaperworkRevision, PaperworkView, PaperworkDb,
}
use prison_policy_ai.Paperwork.Schemas.{SavePaperworkRequest, changed_field_paths}
use prison_policy_ai.Paperwork.Service.{Rules, Call, by_id_kind, is_of_kind}
use prison_policy_ai.Paperwork.Service.Rows.{new_record, new_revision, edited_record}
use prison_policy_ai.Paperwork.Service.Saves.{save_action, save_paperwork_record, with_payload}
use prison_policy_ai.Paperwork.Service.Restoring.{restore_paperwork_record, revision_of}
use prison_policy_ai.Paperwork.Service.Effects.{
  Saved, IsRepeatedSave, replays, creates, appends, save-Saved, snapshot_of, requested,
}
use prison_policy_ai.Paperwork.Service.Restores.{IsRepeatedRestore, Restored, restore-Restored}
use prison_policy_ai.Paperwork.Service.Replays.{IsFresh}
use prison_policy_ai.Paperwork.Service.Log.{
  log, count_up, snapshots, IsCurrent, IsLogged, has_record-Lacks, log-fresh,
}
use prison_policy_ai.Paperwork.Service.Logged.{
  history, SameRows-IsLogged, created-IsLogged, replaced-IsLogged, history-written,
}

-- The abstract store.
abbrev pub Versions : Type 0
Versions = ℕ → List PaperworkSnapshot

-- the log of one id extended, and every other as it was
abbrev pub extend : Versions → ℕ → PaperworkSnapshot → Versions
extend before id s j = if id == j then before j ++ s ∷ [] else before j

-- What a save promises of the abstract store. If the request is a repetition nothing changes. If it is
-- fresh a log with no versions is opened, or the log of the target, which has as many versions as the
-- caller has seen, is extended by one.
pub data Commits (repetition fresh : Type 0) (before after : Versions) (target base : Option ℕ)
    (new_id : ℕ) (s : PaperworkSnapshot) : Type 0 where
  unchanged :
      repetition
      → ((j : ℕ) → after j ≡ before j)
      → Commits repetition fresh before after target base new_id s
  opens_log :
      fresh
      → target ≡ none
      → before new_id ≡ []
      → ((j : ℕ) → after j ≡ extend before new_id s j)
      → Commits repetition fresh before after target base new_id s
  extended :
      (id n : ℕ)
      → fresh
      → target ≡ some id
      → base ≡ some n
      → length (before id) ≡ n
      → ((j : ℕ) → after j ≡ extend before id s j)
      → Commits repetition fresh before after target base new_id s

length-map {ℓ κ} :
    {A : Type ℓ} {B : Type κ} (f : A → B) (xs : List A) → length (map f xs) ≡ length xs
length-map f [] = refl
length-map f (x ∷ xs) = ap suc (length-map f xs)

length-count_up : (n : ℕ) → length (count_up n) ≡ n
length-count_up zero = refl
length-count_up (suc n) = length-append (count_up n) (suc n ∷ []) ∙ omega (arith, length-count_up n)

-- a record is at the number of its versions
length-history :
    (db : PaperworkDb) (q : PaperworkRecord → Bool) (row : PaperworkRecord)
    → IsLogged db
    → find q db.records ≡ some row
    → length (history db row.id) ≡ row.current_revision_number
length-history db q row h found =
    let vs = log row.id db.revisions in
    length-map (λ (v : PaperworkRevision). v.snapshot) vs
    ∙ sym (length-map (λ (v : PaperworkRevision). v.revision_number) vs)
    ∙ ap length (All-find (IsCurrent db.revisions) q db.records row h.current found).0
    ∙ length-count_up row.current_revision_number

-- the id and the kind of a record that is found
pub by_id_kind_sound :
    (id : ℕ) (kind : PaperworkKind) (db : PaperworkDb) (row : PaperworkRecord)
    → by_id_kind id (some kind) db ≡ some row
    → (row.id ≡ id) × (kind_eq row.kind kind ≡ true)
by_id_kind_sound id kind db row found =
    let e = find_sound (λ r. r.id == id && kind_eq r.kind kind) db.records row found in
    (ground arith, ground arith)

kind_at : ℕ → PaperworkKind
kind_at n =
    if n == 0
    then count_sheet
    else if n == 1
    then assignment_roster
    else if n == 2
    then uniform_inspection
    else if n == 3
    then metal_detector_test
    else if n == 4
    then perimeter_check
    else if n == 5
    then random_search_log
    else detector_sign_out

kind_at-code : (k : PaperworkKind) → kind_at (kind_code k) ≡ k
unfolding kind_at
kind_at-code count_sheet = refl
kind_at-code assignment_roster = refl
kind_at-code uniform_inspection = refl
kind_at-code metal_detector_test = refl
kind_at-code perimeter_check = refl
kind_at-code random_search_log = refl
kind_at-code detector_sign_out = refl

kind_eq_sound : (a b : PaperworkKind) → kind_eq a b ≡ true → a ≡ b
kind_eq_sound a b h =
    sym (kind_at-code a) ∙ ap kind_at ((==_iff (kind_code a) (kind_code b)).0 h) ∙ kind_at-code b

module _ (rules : Rules) (actor : Actor) (call : Call) (kind : PaperworkKind)
    (request : SavePaperworkRequest) (record_id : Option ℕ) (payload : Fields)
    (db after : PaperworkDb) (view : PaperworkView) (h : IsLogged db)
    (fresh : Lacks (λ (r : PaperworkRecord). r.id) call.draws.record_id db.records) where
  -- the three effects of a save, on the log
  Saved-refines :
      Saved rules actor call kind request record_id payload db after view
      → IsLogged after
        × Commits
            (IsRepeatedSave rules actor call kind request record_id payload db after view)
            (IsFresh actor call (save_action record_id) db)
            (history db)
            (history after)
            record_id
            request.base_revision_number
            call.draws.record_id
            (requested kind request payload)
  Saved-refines (replays again) = (
    SameRows-IsLogged
        (
          ap (λ (d : PaperworkDb). d.records) again.is_unchanged,
          ap (λ (d : PaperworkDb). d.revisions) again.is_unchanged,
        )
        h,
    unchanged again (λ j. ap (λ d. history d j) again.is_unchanged),
  )
  Saved-refines (creates new_key new c) =
      let row =
        new_record actor kind (with_payload request payload) call.draws.record_id call.now in
      let v =
        new_revision actor call row (requested kind request payload)
          (changed_field_paths none (requested kind request payload)) request.reason in
      let empty =
        log-fresh row.id db.records db.revisions (has_record-Lacks row.id db.records fresh)
          h.owned in
      (
        created-IsLogged db after row v h refl refl refl c.is_revisions fresh refl c.is_records,
        opens_log new_key new (ap snapshots empty)
            (history-written db after row v h refl refl refl c.is_revisions),
      )
  Saved-refines (appends id n current new_key is_id is_n found at may c) =
      let s = requested kind request payload in
      let row = edited_record actor s call.now current in
      let v =
        new_revision actor call row s (changed_field_paths (some (snapshot_of current)) s)
          request.reason in
      let q = λ (r : PaperworkRecord). r.id == id && kind_eq r.kind kind in
      let (own, of_kind) = by_id_kind_sound id kind db current found in
      let shown : s ≡ snapshot_of row =
        ap (λ k. requested k request payload) (sym (kind_eq_sound current.kind kind of_kind)) in
      (
        replaced-IsLogged db after row v h refl refl shown c.is_revisions q current found refl refl
            c.is_records,
        extended id n new_key is_id is_n
            (ap (λ k. length (history db k)) (sym own) ∙ length-history db q current h found ∙ at)
            (λ j.
              subst (λ k. history after j ≡ extend (history db) k s j) own
                (subst (λ t. history after j ≡ extend (history db) current.id t j) (sym shown)
                  (history-written db after row v h refl refl shown c.is_revisions j))),
      )

-- A save that succeeds is a step of the abstract store. Either it repeats a request: its key has a
-- completed record of the same account, action and digest that has not expired, and then it writes
-- nothing and answers with what that record's reference shows. Or its key is new or has expired, and then
-- it has no target and opens the log of the new record with the state that was asked for, validated;
-- or it extends the log of its target by that state, where the log has as many versions as the caller
-- has seen. No other log changes. Afterwards again the revisions of each record are numbered from 1 to
-- its current one and the last of them has what the record shows. Ids are distinct, and the new record's
-- is new, as the primary key demands.
pub save_paperwork_record_refines :
    (rules : Rules) (actor : Actor) (call : Call) (kind : PaperworkKind)
    (request : SavePaperworkRequest) (record_id : Option ℕ) (db after : PaperworkDb)
    (view : PaperworkView)
    → IsLogged db
    → Lacks (λ (r : PaperworkRecord). r.id) call.draws.record_id db.records
    → save_paperwork_record rules actor call kind request record_id db ≡ (ok view, after)
    → IsLogged after
      × ((payload : Fields) × (rules.validate_payload_for_kind kind request.payload ≡ ok payload)
          × Commits
              (IsRepeatedSave rules actor call kind request record_id payload db after view)
              (IsFresh actor call (save_action record_id) db)
              (history db)
              (history after)
              record_id
              request.base_revision_number
              call.draws.record_id
              (requested kind request payload))
save_paperwork_record_refines rules actor call kind request record_id db after view h fresh run =
    let (payload, valid, effect) =
      save-Saved rules actor call kind request record_id db after view run in
    let (logged, commits) =
      Saved-refines rules actor call kind request record_id payload db after view h fresh effect in
    (logged, (payload, valid, commits))

-- what a restore promises: nothing changes if it is a repetition; if it is fresh, the log of the target
-- is extended by the state of one of its revisions
pub data Restores (repetition fresh : Type 0) (before after : Versions) (id n : ℕ)
    (db : PaperworkDb) : Type 0 where
  repeats :
      repetition → ((j : ℕ) → after j ≡ before j) → Restores repetition fresh before after id n db
  brings_back :
      (source : PaperworkRevision)
      → fresh
      → revision_of id n db ≡ some source
      → ((j : ℕ) → after j ≡ extend before id source.snapshot j)
      → Restores repetition fresh before after id n db

Restored-refines :
    (rules : Rules) (actor : Actor) (call : Call) (record_id n : ℕ)
    (expected : Option PaperworkKind) (db after : PaperworkDb) (view : PaperworkView)
    → IsLogged db
    → Restored rules actor call record_id n expected db after view
    → IsLogged after
      × Restores
          (IsRepeatedRestore rules actor call record_id n expected db after view)
          (IsFresh actor call "paperwork.restore" db)
          (history db)
          (history after)
          record_id
          n
          db
Restored-refines rules actor call record_id n expected db after view h (Restored.replays again) = (
  SameRows-IsLogged
      (
        ap (λ (d : PaperworkDb). d.records) again.is_unchanged,
        ap (λ (d : PaperworkDb). d.revisions) again.is_unchanged,
      )
      h,
  repeats again (λ j. ap (λ d. history d j) again.is_unchanged),
)
Restored-refines rules actor call record_id n expected db after view h
      (Restored.appends current source new_key found may at kind c) =
    let s = source.snapshot in
    let row = record (edited_record actor s call.now current) { kind = s.kind } in
    let v =
      new_revision actor call row s (changed_field_paths (some (snapshot_of current)) s) restored in
    let q = λ (r : PaperworkRecord). r.id == record_id && is_of_kind expected r in
    let e = find_sound q db.records current found in
    let own : current.id ≡ record_id = ground arith in
    (
      replaced-IsLogged db after row v h refl refl refl c.is_revisions q current found refl refl
          c.is_records,
      brings_back source new_key at (λ j.
          subst (λ k. history after j ≡ extend (history db) k s j) own
            (history-written db after row v h refl refl refl c.is_revisions j)),
    )

-- A restore that succeeds either repeats a request: its key has a completed record of the same account,
-- action and digest that has not expired, and then it writes nothing and answers with what that record's
-- reference shows. Or its key is new or has expired, and then it appends the state of the revision
-- that it names to the log of the record, as one more version: the revisions before stay, no other log
-- changes, and the numbering and the record's state agree with the log again.
pub restore_paperwork_record_refines :
    (rules : Rules) (actor : Actor) (call : Call) (record_id n : ℕ)
    (expected : Option PaperworkKind) (db after : PaperworkDb) (view : PaperworkView)
    → IsLogged db
    → restore_paperwork_record rules actor call record_id n expected db ≡ (ok view, after)
    → IsLogged after
      × Restores
          (IsRepeatedRestore rules actor call record_id n expected db after view)
          (IsFresh actor call "paperwork.restore" db)
          (history db)
          (history after)
          record_id
          n
          db
restore_paperwork_record_refines rules actor call record_id n expected db after view h run =
    Restored-refines rules actor call record_id n expected db after view h
      (restore-Restored rules actor call record_id n expected db after view run)
