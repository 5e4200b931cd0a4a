-- ===== src/Paperwork/Service/Writes.antt =====
-- paperwork/service.py: what a save and a restore that succeed have written.
use prison_policy_ai.Prelude.{
  ℕ, ◌≡◌, refl, List, [], ◌∷◌, ◌++◌, Option, none, some, true, false, ◌==◌, Text, arith,
  update_where, Option-cases, inl, inr, ap, ◌∙◌,
}
use prison_policy_ai.Fault.{ok, bind-ok, Result-cases, ◌>>◌}
use prison_policy_ai.Identity.Json.{Fields}
use prison_policy_ai.Identity.Idempotency.{IdempotencyClaim}
use prison_policy_ai.Identity.Models.{AuditEvent}
use prison_policy_ai.Identity.Elevation.{Actor}
use prison_policy_ai.Paperwork.Models.{
  PaperworkKind, PaperworkRecord, PaperworkSnapshot, PaperworkRevision, PaperworkView, PaperworkDb,
  RevisionReason, restored,
}
use prison_policy_ai.Paperwork.Schemas.{SavePaperworkRequest, changed_field_paths}
use prison_policy_ai.Paperwork.Service.{
  Call, locked_record, view_of, view_from_reference, get_paperwork_record, record_snapshot,
  by_id_kind, can_read_paperwork,
}
use prison_policy_ai.Paperwork.Service.Rows.{
  add_record, put_record, add_revision, new_record, edited_record, new_revision, is_taken,
}
use prison_policy_ai.Paperwork.Service.Saves.{
  record_revision, create_record, append_record, base_record, Base,
}
use prison_policy_ai.Paperwork.Service.Restoring.{restore_revision}

-- The tables of records and revisions are what they were.
abbrev pub SameRows : PaperworkDb → PaperworkDb → Type 0
SameRows db after = (after.records ≡ db.records) × (after.revisions ≡ db.revisions)

record_revision-writes :
    (call : Call) (claim : IdempotencyClaim) (status : ℕ) (row : PaperworkRecord)
    (revision : PaperworkRevision) (event : AuditEvent) (db after : PaperworkDb)
    (view : PaperworkView)
    → record_revision call claim status row revision event db ≡ (ok view, after)
    → (after.records ≡ db.records)
      × (after.revisions ≡ db.revisions ++ revision ∷ [])
      × (view ≡ view_of row)
unfolding record_revision add_revision
record_revision-writes call claim status row revision event db after view h = ground arith

pub view_from_reference-keeps :
    (actor : Actor) (reference : Fields) (expected : Option PaperworkKind) (db after : PaperworkDb)
    (view : PaperworkView)
    → view_from_reference actor reference expected db ≡ (ok view, after)
    → after ≡ db
unfolding view_from_reference get_paperwork_record locked_record
view_from_reference-keeps actor reference expected db after view h = ground arith

-- a base that is found: a record that the actor may edit, of the kind, at the revision asked for
pub base_record-found :
    (actor : Actor) (kind : PaperworkKind) (id base : ℕ) (db after : PaperworkDb) (found : Base)
    → base_record actor kind id base db ≡ (ok found, after)
    → (after ≡ db)
      × ((row : PaperworkRecord) × (previous : PaperworkSnapshot) × (found ≡ some (row, previous))
          × (by_id_kind id (some kind) db ≡ some row)
          × (row.current_revision_number ≡ base)
          × (can_read_paperwork actor row ≡ true)
          × (record_snapshot row ≡ ok previous))
unfolding base_record locked_record
base_record-found actor kind id base db after found h =
    elim (Option-cases (by_id_kind id (some kind) db)) [
      | inl gone ↦ absurd (ground (arith, gone, h))
      | inr (row, e) ↦ elim (Result-cases (record_snapshot row)) [
        | inr (f, bad) ↦ absurd (ground (arith, e, bad, h))
        | inl (previous, good) ↦ (
          ground (arith, e, good, h),
          (
            row,
            previous,
            ground (arith, e, good, h),
            e,
            ground (arith, e, good, h),
            ground (arith, e, good, h),
            good,
          ),
        )
      ]
    ]

add_record_lem :
    (row : PaperworkRecord) (db after : PaperworkDb) (u : Unit {0})
    → add_record row db ≡ (ok u, after)
    → (after ≡ record db { records = db.records ++ row ∷ [] }) × (is_taken row db.records ≡ false)
unfolding add_record
add_record_lem row db after u h = (ground arith, ground arith)

put_record_lem :
    (row : PaperworkRecord) (db after : PaperworkDb) (u : Unit {0})
    → put_record row db ≡ (ok u, after)
    → (after ≡ record db { records = update_where (λ r. r.id == row.id) (λ _. row) db.records })
      × (is_taken row db.records ≡ false)
unfolding put_record
put_record_lem row db after u h = (ground arith, ground arith)

-- what a creation has written
pub record Created (actor : Actor) (call : Call) (row : PaperworkRecord)
    (snapshot : PaperworkSnapshot) (reason : RevisionReason) (db after : PaperworkDb)
    (view : PaperworkView) : Type 0 where
  pub is_records : after.records ≡ db.records ++ row ∷ []
  pub is_revisions :
      after.revisions
      ≡ db.revisions
        ++ new_revision actor call row snapshot (changed_field_paths none snapshot) reason ∷ []
  pub is_view : view ≡ view_of row
  pub is_free : is_taken row db.records ≡ false

added :
    (actor : Actor) (call : Call) (claim : IdempotencyClaim) (row : PaperworkRecord)
    (snapshot : PaperworkSnapshot) (reason : RevisionReason) (event : AuditEvent)
    (db after : PaperworkDb) (view : PaperworkView)
    → (add_record row
          >> record_revision call claim 201 row
              (new_revision actor call row snapshot (changed_field_paths none snapshot) reason)
              event)
        db
      ≡ (ok view, after)
    → Created actor call row snapshot reason db after view
added actor call claim row snapshot reason event db after view h =
    let revision =
      new_revision actor call row snapshot (changed_field_paths none snapshot) reason in
    let (u, mid, first, rest) =
      bind-ok (add_record row) (λ _. record_revision call claim 201 row revision event) db after
        view h in
    let (is_mid, free) = add_record_lem row db mid u first in
    let (same_records, new_revisions, is_view) =
      record_revision-writes call claim 201 row revision event mid after view rest in
    record {
      is_records = same_records ∙ ap (λ (d : PaperworkDb). d.records) is_mid;
      is_revisions =
          new_revisions
          ∙ ap (λ (vs : List PaperworkRevision). vs ++ revision ∷ [])
              (ap (λ (d : PaperworkDb). d.revisions) is_mid);
      is_view = is_view;
      is_free = free;
    }

pub create_record-Created :
    (actor : Actor) (call : Call) (kind : PaperworkKind) (request : SavePaperworkRequest)
    (snapshot : PaperworkSnapshot) (claim : IdempotencyClaim) (db after : PaperworkDb)
    (view : PaperworkView)
    → create_record actor call kind request snapshot claim db ≡ (ok view, after)
    → Created actor call
        (new_record actor kind request call.draws.record_id call.now)
        snapshot
        request.reason
        db
        after
        view
unfolding create_record
create_record-Created actor call kind request snapshot claim db after view h =
    added actor call claim (new_record actor kind request call.draws.record_id call.now) snapshot
      request.reason _ db after view h

-- what a save or a restore has written to a record that was there
pub record Replaced (actor : Actor) (call : Call) (current row : PaperworkRecord)
    (snapshot : PaperworkSnapshot) (paths : List Text) (reason : RevisionReason)
    (db after : PaperworkDb) (view : PaperworkView) : Type 0 where
  pub is_records : after.records ≡ update_where (λ r. r.id == current.id) (λ _. row) db.records
  pub is_revisions :
      after.revisions ≡ db.revisions ++ new_revision actor call row snapshot paths reason ∷ []
  pub is_view : view ≡ view_of row
  pub is_free : is_taken row db.records ≡ false

replaced :
    (actor : Actor) (call : Call) (claim : IdempotencyClaim) (current row : PaperworkRecord)
    (snapshot : PaperworkSnapshot) (paths : List Text) (reason : RevisionReason)
    (event : AuditEvent) (db after : PaperworkDb) (view : PaperworkView)
    → row.id ≡ current.id
    → (put_record row
          >> record_revision call claim 200 row
              (new_revision actor call row snapshot paths reason)
              event)
        db
      ≡ (ok view, after)
    → Replaced actor call current row snapshot paths reason db after view
replaced actor call claim current row snapshot paths reason event db after view same h =
    let revision = new_revision actor call row snapshot paths reason in
    let (u, mid, first, rest) =
      bind-ok (put_record row) (λ _. record_revision call claim 200 row revision event) db after
        view h in
    let (is_mid, free) = put_record_lem row db mid u first in
    let (same_records, new_revisions, is_view) =
      record_revision-writes call claim 200 row revision event mid after view rest in
    record {
      is_records =
          same_records
          ∙ ap (λ (d : PaperworkDb). d.records) is_mid
          ∙ ap (λ k. update_where (λ (r : PaperworkRecord). r.id == k) (λ _. row) db.records) same;
      is_revisions =
          new_revisions
          ∙ ap (λ (vs : List PaperworkRevision). vs ++ revision ∷ [])
              (ap (λ (d : PaperworkDb). d.revisions) is_mid);
      is_view = is_view;
      is_free = free;
    }

pub append_record-Replaced :
    (actor : Actor) (call : Call) (kind : PaperworkKind) (request : SavePaperworkRequest)
    (snapshot : PaperworkSnapshot) (claim : IdempotencyClaim) (current : PaperworkRecord)
    (previous : PaperworkSnapshot) (db after : PaperworkDb) (view : PaperworkView)
    → append_record actor call kind request snapshot claim current previous db ≡ (ok view, after)
    → Replaced actor call current
        (edited_record actor snapshot call.now current)
        snapshot
        (changed_field_paths (some previous) snapshot)
        request.reason
        db
        after
        view
unfolding append_record
append_record-Replaced actor call kind request snapshot claim current previous db after view h =
    replaced actor call claim current (edited_record actor snapshot call.now current) snapshot
      (changed_field_paths (some previous) snapshot) request.reason _ db after view refl h

pub restore_revision-Replaced :
    (actor : Actor) (call : Call) (n : ℕ) (claim : IdempotencyClaim) (current : PaperworkRecord)
    (source previous : PaperworkSnapshot) (db after : PaperworkDb) (view : PaperworkView)
    → restore_revision actor call n claim current source previous db ≡ (ok view, after)
    → Replaced actor call current
        (record (edited_record actor source call.now current) { kind = source.kind })
        source
        (changed_field_paths (some previous) source)
        restored
        db
        after
        view
unfolding restore_revision
restore_revision-Replaced actor call n claim current source previous db after view h =
    replaced actor call claim current
      (record (edited_record actor source call.now current) { kind = source.kind }) source
      (changed_field_paths (some previous) source) restored _ db after view refl h
