-- ===== src/Paperwork/Service/Access.antt =====
-- paperwork/policy.py: a record of another officer is as one that is not there.
use prison_policy_ai.Prelude.{
  ℕ, suc, ◌≡◌, ◌≢◌, Option, none, some, false, ◌&&◌, arith, All, All-find, find_sound, Option-cases,
  inl, inr, ◌==◌,
}
use prison_policy_ai.Fault.{raised, paperwork_not_found}
use prison_policy_ai.Identity.Elevation.{Actor}
use prison_policy_ai.Identity.Models.{is_admin}
use prison_policy_ai.Paperwork.Models.{PaperworkKind, PaperworkRecord, PaperworkDb}
use prison_policy_ai.Paperwork.Schemas.{SavePaperworkRequest}
use prison_policy_ai.Paperwork.Service.{
  Rules, Call, by_id_kind, is_of_kind, visible, can_read_paperwork, locked_record,
  get_paperwork_record,
}
use prison_policy_ai.Paperwork.Service.Saves.{
  save_paperwork_record, save_validated, save_base, base_record,
}
use prison_policy_ai.Paperwork.Service.Restoring.{restore_paperwork_record}
use prison_policy_ai.Paperwork.Service.Conflicts.{IsValid}

-- the actor is no administrator, and no record that has the id is of the actor's making
abbrev pub IsHidden : Actor → ℕ → PaperworkDb → Type 0
IsHidden actor id db =
    (is_admin actor.role ≡ false)
    × All
        (λ (r : PaperworkRecord). r.id ≡ id → r.created_by_staff_member_id ≢ actor.staff_member_id)
        db.records

visible-IsHidden :
    (actor : Actor) (id : ℕ) (expected : Option PaperworkKind) (db : PaperworkDb)
    → IsHidden actor id db
    → visible actor (by_id_kind id expected db) ≡ none
unfolding can_read_paperwork
visible-IsHidden actor id expected db h = elim (Option-cases (by_id_kind id expected db)) [
  | inl gone ↦ rw gone
  | inr (row, found) ↦
      let q = λ (r : PaperworkRecord). r.id == id && is_of_kind expected r in
      let own : row.id ≡ id = ground (arith, find_sound q db.records row found) in
      let other =
        All-find
          (λ (r : PaperworkRecord).
            r.id ≡ id → r.created_by_staff_member_id ≢ actor.staff_member_id)
          q db.records row h.1 found own in
      let off : row.created_by_staff_member_id == actor.staff_member_id ≡ false = ground arith in
      rw (found, h.0, off)
]

-- An officer who is neither the creator of a record nor an administrator is told that it is not found,
-- by a read, by a save that validation accepts, from whatever base, and by a restore from whatever
-- revision; and nothing is written. It is the answer that the same call has where no record has the id.
pub hidden_paperwork :
    (rules : Rules) (actor : Actor) (call : Call) (kind : PaperworkKind)
    (request : SavePaperworkRequest) (id base n : ℕ) (expected : Option PaperworkKind)
    (db : PaperworkDb)
    → IsHidden actor id db
    → IsValid rules kind request
    → request.base_revision_number ≡ some base
    → (get_paperwork_record actor id expected db ≡ (raised paperwork_not_found, db))
      × (save_paperwork_record rules actor call kind request (some id) db
          ≡ (raised paperwork_not_found, db))
      × (restore_paperwork_record rules actor call id (suc n) expected db
          ≡ (raised paperwork_not_found, db))
unfolding get_paperwork_record save_paperwork_record save_validated save_base base_record
    restore_paperwork_record locked_record
hidden_paperwork rules actor call kind request id base n expected db h valid is_base =
    let hidden = visible-IsHidden actor id expected db h in
    let hidden' = visible-IsHidden actor id (some kind) db h in
    (
      ground (arith, hidden),
      ground (arith, valid.accepted, valid.fits, is_base, hidden'),
      ground (arith, hidden),
    )
