-- ===== src/Paperwork/Service/Conflicts.antt =====
-- paperwork/service.py: the optimistic check of a save, against a record that has moved on.
use prison_policy_ai.Prelude.{
  ℕ, ◌+◌, ◌≡◌, ◌≢◌, refl, ap, subst, ◌∙◌, List, [], ◌∷◌, Text, some, Bool, true, ◌&&◌, ◌||◌, arith,
  find, update_where, Bool-cases, inl, inr, ◌==◌,
}
use prison_policy_ai.Fault.{ok, raised, paperwork_revision_conflict}
use prison_policy_ai.Identity.Elevation.{Actor}
use prison_policy_ai.Identity.Json.{Fields}
use prison_policy_ai.Identity.Models.{is_admin}
use prison_policy_ai.Paperwork.Models.{
  PaperworkKind, kind_eq, PaperworkRecord, PaperworkSnapshot, PaperworkView, PaperworkDb,
  RevisionReason,
}
use prison_policy_ai.Paperwork.Schemas.{
  SavePaperworkRequest, snapshot_for_request, changed_field_paths,
}
use prison_policy_ai.Paperwork.Service.{Rules, Call, by_id_kind, can_read_paperwork, locked_record}
use prison_policy_ai.Paperwork.Service.Rows.{edited_record}
use prison_policy_ai.Paperwork.Service.Saves.{
  save_paperwork_record, save_validated, save_base, base_record, with_payload,
}
use prison_policy_ai.Paperwork.Service.Writes.{Replaced}
use prison_policy_ai.Paperwork.Service.Effects.{
  Saved, replays, creates, appends, save-Saved, requested, snapshot_of,
}
use prison_policy_ai.Paperwork.Service.Refinement.{by_id_kind_sound}

-- a request that validation accepts
pub record IsValid (rules : Rules) (kind : PaperworkKind) (request : SavePaperworkRequest)
    : Type 0 where
  pub payload : Fields
  pub snapshot : PaperworkSnapshot
  pub accepted : rules.validate_payload_for_kind kind request.payload ≡ ok payload
  pub fits : snapshot_for_request kind (with_payload request payload) ≡ ok snapshot

save-conflict :
    (rules : Rules) (actor : Actor) (call : Call) (kind : PaperworkKind)
    (request : SavePaperworkRequest) (id base : ℕ) (db : PaperworkDb) (current : PaperworkRecord)
    → IsValid rules kind request
    → request.base_revision_number ≡ some base
    → by_id_kind id (some kind) db ≡ some current
    → can_read_paperwork actor current ≡ true
    → current.current_revision_number ≢ base
    → save_paperwork_record rules actor call kind request (some id) db
      ≡ (raised (paperwork_revision_conflict current.current_revision_number), db)
unfolding save_paperwork_record save_validated save_base base_record locked_record
save-conflict rules actor call kind request id base db current valid is_base found may moved =
    let (_, of_kind) = by_id_kind_sound id kind db current found in
    ground (arith, valid.accepted, valid.fits, is_base, found, may, moved, of_kind)

-- a record that is put in the place of the one found is found
find-put :
    (q : PaperworkRecord → Bool) (row current : PaperworkRecord) (rows : List PaperworkRecord)
    → q row ≡ true
    → find q rows ≡ some current
    → find q (update_where (λ r. r.id == current.id) (λ _. row) rows) ≡ some row
unfolding find update_where
find-put q row current [] good found = ground arith
find-put q row current (x ∷ xs) good found = elim (Bool-cases (x.id == current.id)) [
  | inl e ↦ rw (e, good) refl
  | inr e ↦ elim (Bool-cases (q x)) [
    | inl here ↦
        let same : x ≡ current = ground arith in
        absurd (ground (arith, e, ap (λ (r : PaperworkRecord). r.id) same))
    | inr later ↦ rw (e, later) (find-put q row current xs good (rw later at found))
  ]
]

-- the record as an appending save leaves it
Replaced-found :
    (actor : Actor) (call : Call) (kind : PaperworkKind) (id : ℕ) (current row : PaperworkRecord)
    (snapshot : PaperworkSnapshot) (paths : List Text) (reason : RevisionReason)
    (db after : PaperworkDb) (view : PaperworkView)
    → by_id_kind id (some kind) db ≡ some current
    → row.id ≡ current.id
    → row.kind ≡ current.kind
    → Replaced actor call current row snapshot paths reason db after view
    → by_id_kind id (some kind) after ≡ some row
Replaced-found actor call kind id current row snapshot paths reason db after view found is_id
      is_kind c =
    let (own, of_kind) = by_id_kind_sound id kind db current found in
    let q = λ (r : PaperworkRecord). r.id == id && kind_eq r.kind kind in
    ap (find q) c.is_records
    ∙ find-put q row current db.records (ground (arith, own, of_kind, is_id, is_kind)) found

Saved-conflict :
    (rules : Rules) (actor other : Actor) (call call' : Call) (kind : PaperworkKind)
    (request request' : SavePaperworkRequest) (id base : ℕ) (payload : Fields)
    (db after : PaperworkDb) (view : PaperworkView)
    → Saved rules actor call kind request (some id) payload db after view
    → after.revisions ≢ db.revisions
    → request.base_revision_number ≡ some base
    → request'.base_revision_number ≡ some base
    → IsValid rules kind request'
    → is_admin other.role || view.created_by_staff_member_id == other.staff_member_id ≡ true
    → save_paperwork_record rules other call' kind request' (some id) after
      ≡ (raised (paperwork_revision_conflict (base + 1)), after)
unfolding can_read_paperwork
Saved-conflict rules actor other call call' kind request request' id base payload db after view
      (replays again) wrote is_base is_base' valid may =
    absurd (wrote (ap (λ (d : PaperworkDb). d.revisions) again.is_unchanged))
Saved-conflict rules actor other call call' kind request request' id base payload db after view
      (creates _ new c) wrote is_base is_base' valid may =
    absurd (ground (arith, new))
Saved-conflict rules actor other call call' kind request request' id base payload db after view
      (appends i n current _ is_id is_n found at _ c) wrote is_base is_base' valid may =
    let same_id : i ≡ id = ground arith in
    let same_n : n ≡ base = ground (arith, is_n, is_base) in
    let s = requested kind request payload in
    let row = edited_record actor s call.now current in
    let found' =
      Replaced-found actor call kind i current row s
        (changed_field_paths (some (snapshot_of current)) s) request.reason db after view found refl
        refl c in
    let creator : view.created_by_staff_member_id ≡ row.created_by_staff_member_id =
      ap (λ (v : PaperworkView). v.created_by_staff_member_id) c.is_view in
    save-conflict rules other call' kind request' id base after row valid is_base'
      (subst (λ k. by_id_kind k (some kind) after ≡ some row) same_id found') (rw (← creator) may)
      (omega arith)
    ∙ ap (λ k. (raised (paperwork_revision_conflict k), after)) (omega arith)

-- Once somebody's save has appended a revision to a record, a save of the record from the same base is a
-- revision conflict that names the new revision, whoever makes it, under whichever idempotency key, and
-- it writes nothing. It is made by an administrator or the creator of the record, with a request that
-- validation accepts. So the second of two editors is told; and so is a client that repeats its own
-- save, key and all, because the answer was lost: the claim of the key comes after the check.
pub stale_save_conflicts :
    (rules : Rules) (actor other : Actor) (call call' : Call) (kind : PaperworkKind)
    (request request' : SavePaperworkRequest) (id base : ℕ) (db after : PaperworkDb)
    (view : PaperworkView)
    → save_paperwork_record rules actor call kind request (some id) db ≡ (ok view, after)
    → after.revisions ≢ db.revisions
    → request.base_revision_number ≡ some base
    → request'.base_revision_number ≡ some base
    → IsValid rules kind request'
    → is_admin other.role || view.created_by_staff_member_id == other.staff_member_id ≡ true
    → save_paperwork_record rules other call' kind request' (some id) after
      ≡ (raised (paperwork_revision_conflict (base + 1)), after)
stale_save_conflicts rules actor other call call' kind request request' id base db after view run
      wrote is_base is_base' valid may =
    let (payload, _, effect) =
      save-Saved rules actor call kind request (some id) db after view run in
    Saved-conflict rules actor other call call' kind request request' id base payload db after view
      effect wrote is_base is_base' valid may
