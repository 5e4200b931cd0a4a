-- ===== src/Paperwork/Service/References.antt =====
-- paperwork/service.py: the reference that a save or a restore leaves with its idempotency key, read back.
use prison_policy_ai.Prelude.{
  ℕ, ◌≤◌, ◌<◌, ◌≡◌, Option, some, true, text_eq, arith, hex_bound, read-decimal,
  read_uuid-uuid_text,
}
use prison_policy_ai.Fault.{ok}
use prison_policy_ai.Identity.Elevation.{Actor}
use prison_policy_ai.Paperwork.Models.{PaperworkKind, PaperworkRecord, PaperworkDb}
use prison_policy_ai.Paperwork.Values.{lookup_field}
use prison_policy_ai.Paperwork.Service.{
  by_id_kind, can_read_paperwork, locked_record, get_paperwork_record, reference_to, read_reference,
  view_from_reference, uuid_of, int_of, view_of,
}

read_reference-reference_to :
    (id n : ℕ) → id < hex_bound 32 → read_reference (reference_to id n) ≡ ok (id, n)
unfolding read_reference lookup_field text_eq uuid_of int_of
read_reference-reference_to id n small =
    ground (arith, read_uuid-uuid_text id small, read-decimal n)

-- The reference to a record and to one of its revisions, as `reference_to` writes it, is read back: for
-- an administrator or the creator of the record, `view_from_reference` gives the view of the record as
-- it stands now, whatever was saved since, and leaves the tables as they are. The id has 128 bits.
pub view_from_reference-reference_to :
    (actor : Actor) (id n : ℕ) (expected : Option PaperworkKind) (row : PaperworkRecord)
    (db : PaperworkDb)
    → id < hex_bound 32
    → by_id_kind id expected db ≡ some row
    → can_read_paperwork actor row ≡ true
    → 1 ≤ n
    → n ≤ row.current_revision_number
    → view_from_reference actor (reference_to id n) expected db ≡ (ok (view_of row), db)
unfolding view_from_reference get_paperwork_record locked_record
view_from_reference-reference_to actor id n expected row db small found may low high =
    ground (arith, read_reference-reference_to id n small, found, may)
