-- ===== src/Paperwork/Service/Logged.antt =====
-- paperwork/service.py: saves and restores keep the log of revisions, and only append to it.
use prison_policy_ai.Prelude.{
  ℕ, ◌+◌, ◌≡◌, sym, ap, subst, ◌∙◌, List, [], ◌∷◌, ◌++◌, some, Bool, true, false, arith, All, find,
  All-find, All-append, All-weaken, All-unit, Lacks, Unique-append, Bool-cases, inl, inr, ◌==◌,
  ==_iff, if◌then◌else◌, update_where,
}
use prison_policy_ai.Paperwork.Models.{
  PaperworkRecord, PaperworkSnapshot, PaperworkRevision, PaperworkDb,
}
use prison_policy_ai.Paperwork.Service.Writes.{SameRows}
use prison_policy_ai.Paperwork.Service.Effects.{snapshot_of}
use prison_policy_ai.Paperwork.Service.Log.{
  log, count_up, numbers, snapshots, IsCurrent, has_record, IsLogged, log-append, IsCurrent-other,
  IsCurrent-moved, put, put-Unique, All-put, has_record-put, has_record-append, has_record-find,
  has_record-Lacks, log-fresh, map-snoc,
}

-- the states that a record has had, oldest first
abbrev pub history : PaperworkDb → ℕ → List PaperworkSnapshot
history db id = snapshots (log id db.revisions)

pub SameRows-IsLogged : {db after : PaperworkDb} → SameRows db after → IsLogged db → IsLogged after
SameRows-IsLogged s h = record {
  ids = rw (s.0) h.ids;
  owned = rw (s.0, s.1) h.owned;
  current = rw (s.0, s.1) h.current;
}

module _ (db after : PaperworkDb) (row : PaperworkRecord) (v : PaperworkRevision) (h : IsLogged db)
    (own : v.record_id ≡ row.id) (same : v.revision_number ≡ row.current_revision_number)
    (shown : v.snapshot ≡ snapshot_of row)
    (is_revisions : after.revisions ≡ db.revisions ++ v ∷ []) where
  -- where the revision's record is in the table, and no record leaves it
  owned-append :
      (rows : List PaperworkRecord)
      → ((id : ℕ) → has_record db.records id ≡ true → has_record rows id ≡ true)
      → has_record rows row.id ≡ true
      → All (λ w. has_record rows w.record_id ≡ true) (db.revisions ++ v ∷ [])
  owned-append rows keeps has =
      All-append (λ (w : PaperworkRevision). has_record rows w.record_id ≡ true) db.revisions
        (v ∷ [])
        (All-weaken {R = λ _. Unit {0}} db.revisions (λ w e _. keeps w.record_id e) h.owned
          (All-unit db.revisions))
        (rw own has, tt)

  pub created-IsLogged :
      Lacks (λ (r : PaperworkRecord). r.id) row.id db.records
      → row.current_revision_number ≡ 1
      → after.records ≡ db.records ++ row ∷ []
      → IsLogged after
  created-IsLogged fresh first is_records =
      let new : has_record db.records row.id ≡ false = has_record-Lacks row.id db.records fresh in
      record {
        ids =
            rw is_records
              (Unique-append (λ (r : PaperworkRecord). r.id) db.records row h.ids fresh);
        owned =
            rw (is_records, is_revisions)
              (owned-append (db.records ++ row ∷ [])
                (λ id e. has_record-append db.records row id ∙ ground (arith, e))
                (has_record-append db.records row row.id ∙ ground (arith, ==_iff row.id row.id)));
        current =
            rw (is_records, is_revisions)
              (All-append (IsCurrent (db.revisions ++ v ∷ [])) db.records (row ∷ [])
                (All-weaken db.records
                  (λ r c apart. IsCurrent-other db.revisions v r (ground (arith, own, apart)) c)
                  h.current fresh)
                (
                  IsCurrent-moved db.revisions v 0 row
                      (ap numbers (log-fresh row.id db.records db.revisions new h.owned)) own
                      (omega arith) (omega arith) shown,
                  tt,
                ));
      }

  pub replaced-IsLogged :
      (q : PaperworkRecord → Bool) (current : PaperworkRecord)
      → find q db.records ≡ some current
      → row.id ≡ current.id
      → row.current_revision_number ≡ current.current_revision_number + 1
      → after.records ≡ update_where (λ r. r.id == current.id) (λ _. row) db.records
      → IsLogged after
  replaced-IsLogged q current found is_id next is_records =
      let is_put : after.records ≡ put row db.records =
        is_records
        ∙ ap (λ k. update_where (λ (r : PaperworkRecord). r.id == k) (λ _. row) db.records)
            (sym is_id) in
      let (was_numbered, was_shown) =
        All-find (IsCurrent db.revisions) q db.records current h.current found in
      record {
        ids = rw is_put (put-Unique row db.records h.ids);
        owned =
            rw (is_put, is_revisions)
              (owned-append (put row db.records) (λ id e. has_record-put row db.records id ∙ e)
                (has_record-put row db.records row.id
                  ∙ ap (has_record db.records) is_id
                  ∙ has_record-find q db.records current found));
        current =
            rw (is_put, is_revisions)
              (All-put row db.records
                (λ x apart c. IsCurrent-other db.revisions v x (ground (arith, own, apart)) c)
                (IsCurrent-moved db.revisions v current.current_revision_number row
                  (subst
                    (λ k. numbers (log k db.revisions) ≡ count_up current.current_revision_number)
                    (sym is_id) was_numbered)
                  own next (omega arith) shown)
                h.current);
      }

  -- the log of every record after the write
  pub history-written :
      (id : ℕ)
      → history after id
        ≡ (if v.record_id == id then history db id ++ snapshot_of row ∷ [] else history db id)
  history-written id = elim (Bool-cases (v.record_id == id)) [
    | inl e ↦ rw e (
        ap snapshots (ap (log id) is_revisions ∙ log-append id db.revisions v ∙ ground (arith, e))
        ∙ map-snoc (λ (w : PaperworkRevision). w.snapshot) (log id db.revisions) v
        ∙ ap (λ s. history db id ++ s ∷ []) shown)
    | inr e ↦
        rw e (
          ap snapshots
            (ap (log id) is_revisions ∙ log-append id db.revisions v ∙ ground (arith, e)))
  ]
