-- ===== src/Paperwork/Service/Restores.antt =====
-- paperwork/service.py: how a restore that succeeds ends.
use prison_policy_ai.Prelude.{
  ℕ, ◌≡◌, Option, some, true, arith, Bool-cases, Option-cases, inl, inr, subst,
}
use prison_policy_ai.Fault.{ok, bind-ok, Result-cases}
use prison_policy_ai.Identity.Idempotency.{IdempotencyClaim}
use prison_policy_ai.Identity.Elevation.{Actor}
use prison_policy_ai.Paperwork.Models.{
  PaperworkKind, PaperworkRecord, PaperworkSnapshot, PaperworkRevision, PaperworkView, PaperworkDb,
  restored,
}
use prison_policy_ai.Paperwork.Schemas.{changed_field_paths}
use prison_policy_ai.Paperwork.Service.{
  restore_of, Rules, Call, locked_record, record_snapshot, by_id_kind, can_read_paperwork,
}
use prison_policy_ai.Paperwork.Service.Rows.{edited_record}
use prison_policy_ai.Paperwork.Service.Restoring.{
  restore_paperwork_record, restore_fresh, restore_source, restore_claimed, claim_restore,
  revision_of, checked_snapshot, is_expected,
}
use prison_policy_ai.Paperwork.Service.Writes.{SameRows, Replaced, restore_revision-Replaced}
use prison_policy_ai.Paperwork.Service.Replays.{IsReplay, IsFresh, claim-IsReplay, claim-IsFresh}
use prison_policy_ai.Paperwork.Service.Effects.{
  Replaced-SameRows, snapshot_of, paperwork_snapshot_lem,
}

claim_restore-SameRows :
    (rules : Rules) (actor : Actor) (call : Call) (record_id n : ℕ) (db after : PaperworkDb)
    (claim : IdempotencyClaim)
    → claim_restore rules actor call record_id n db ≡ (ok claim, after)
    → SameRows db after
unfolding claim_restore
claim_restore-SameRows rules actor call record_id n db after claim h = (ground arith, ground arith)

-- a restore that repeats one, answered with its reference and without a write
abbrev pub IsRepeatedRestore :
    Rules
    → Actor
    → Call
    → ℕ
    → ℕ
    → Option PaperworkKind
    → PaperworkDb
    → PaperworkDb
    → PaperworkView
    → Type 0
IsRepeatedRestore rules actor call record_id n =
    IsReplay actor call "paperwork.restore" (rules.request_digest (restore_of record_id n))

-- A restore replays its answer, or appends the snapshot of the source revision.
pub data Restored (rules : Rules) (actor : Actor) (call : Call) (record_id n : ℕ)
    (expected : Option PaperworkKind) (db after : PaperworkDb) (view : PaperworkView) : Type 0 where
  replays :
      IsRepeatedRestore rules actor call record_id n expected db after view
      → Restored rules actor call record_id n expected db after view
  appends :
      (current : PaperworkRecord) (source : PaperworkRevision)
      → IsFresh actor call "paperwork.restore" db
      → by_id_kind record_id expected db ≡ some current
      → can_read_paperwork actor current ≡ true
      → revision_of record_id n db ≡ some source
      → is_expected expected source.snapshot.kind ≡ true
      → Replaced actor call current
          (record (edited_record actor source.snapshot call.now current) {
            kind = source.snapshot.kind;
          })
          source.snapshot
          (changed_field_paths (some (snapshot_of current)) source.snapshot)
          restored
          db
          after
          view
      → Restored rules actor call record_id n expected db after view

module _ (rules : Rules) (actor : Actor) (call : Call) (record_id n : ℕ)
    (expected : Option PaperworkKind) where
  restore_fresh-Restored :
      (claim : IdempotencyClaim) (current : PaperworkRecord) (source : PaperworkRevision)
      (db mid after : PaperworkDb) (view : PaperworkView)
      → SameRows db mid
      → IsFresh actor call "paperwork.restore" db
      → by_id_kind record_id expected db ≡ some current
      → can_read_paperwork actor current ≡ true
      → revision_of record_id n db ≡ some source
      → restore_fresh actor call n expected claim current source mid ≡ (ok view, after)
      → Restored rules actor call record_id n expected db after view
  unfolding restore_fresh
  restore_fresh-Restored claim current source db mid after view same new_key found may at h =
      let kept = source.snapshot in
      elim (Result-cases (checked_snapshot kept)) [
        | inr (f, bad) ↦ absurd (ground (arith, bad, h))
        | inl (snapshot, good) ↦
            let is_kept : snapshot ≡ kept =
              paperwork_snapshot_lem kept.kind kept.work_date kept.shift kept.payload snapshot
                good in
            elim (Bool-cases (is_expected expected snapshot.kind)) [
              | inr other ↦ absurd (ground (arith, good, other, h))
              | inl kind ↦ elim (Result-cases (record_snapshot current)) [
                | inr (f, bad) ↦ absurd (ground (arith, good, kind, bad, h))
                | inl (previous, fits) ↦
                    let is_previous : previous ≡ snapshot_of current =
                      paperwork_snapshot_lem current.kind current.work_date current.shift
                        current.current_payload previous fits in
                    appends current source new_key found may at
                      (subst (λ (s : PaperworkSnapshot). is_expected expected s.kind ≡ true) is_kept
                        kind)
                      (rw (← is_previous, ← is_kept)
                        (Replaced-SameRows {mid = mid} same (
                          restore_revision-Replaced actor call n claim current snapshot previous mid
                            after view (ground (arith, good, kind, fits, h)))))
              ]
            ]
      ]

  restore_claimed-Restored :
      (claim : IdempotencyClaim) (current : PaperworkRecord) (source : PaperworkRevision)
      (db mid after : PaperworkDb) (view : PaperworkView)
      → claim_restore rules actor call record_id n db ≡ (ok claim, mid)
      → by_id_kind record_id expected db ≡ some current
      → can_read_paperwork actor current ≡ true
      → revision_of record_id n db ≡ some source
      → restore_claimed actor call n expected current source claim mid ≡ (ok view, after)
      → Restored rules actor call record_id n expected db after view
  unfolding restore_claimed claim_restore
  restore_claimed-Restored claim current source db mid after view claimed found may at h =
      let digest = rules.request_digest (restore_of record_id n) in
      elim (Bool-cases claim.replayed) [
        | inl again ↦ replays (
            claim-IsReplay actor call "paperwork.restore" digest expected db mid after claim view
              claimed again (ground (arith, again, h)))
        | inr first ↦
            restore_fresh-Restored claim current source db mid after view
              (claim_restore-SameRows rules actor call record_id n db mid claim claimed)
              (claim-IsFresh actor call "paperwork.restore" digest db mid claim claimed first) found
              may at (ground (arith, first, h))
      ]

pub restore-Restored :
    (rules : Rules) (actor : Actor) (call : Call) (record_id n : ℕ)
    (expected : Option PaperworkKind) (db after : PaperworkDb) (view : PaperworkView)
    → restore_paperwork_record rules actor call record_id n expected db ≡ (ok view, after)
    → Restored rules actor call record_id n expected db after view
unfolding restore_paperwork_record locked_record restore_source
restore-Restored rules actor call record_id n expected db after view h =
    elim (Option-cases (by_id_kind record_id expected db)) [
      | inl gone ↦ absurd (ground (arith, gone, h))
      | inr (current, found) ↦ elim (Bool-cases (can_read_paperwork actor current)) [
        | inr hidden ↦ absurd (ground (arith, found, hidden, h))
        | inl may ↦ elim (Option-cases (revision_of record_id n db)) [
          | inl gone ↦ absurd (ground (arith, found, may, gone, h))
          | inr (source, at) ↦
              let (claim, mid, claimed, rest) =
                bind-ok (claim_restore rules actor call record_id n)
                  (restore_claimed actor call n expected current source) db after view
                  (ground (arith, found, may, at, h)) in
              restore_claimed-Restored rules actor call record_id n expected claim current source db
                mid after view claimed found may at rest
        ]
      ]
    ]
