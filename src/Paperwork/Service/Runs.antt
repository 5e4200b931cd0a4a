-- ===== src/Paperwork/Service/Runs.antt =====
-- paperwork/service.py over any sequence of requests, each committed or rolled back as the routes do.
use prison_policy_ai.Prelude.{
  ℕ, ◌≡◌, refl, sym, ◌∙◌, ap, List, [], ◌∷◌, ◌++◌, Option, append_assoc, Lacks, ◌==◌, Bool-cases,
  inl, inr,
}
use prison_policy_ai.Fault.{ok}
use prison_policy_ai.Identity.Elevation.{Actor}
use prison_policy_ai.Paperwork.Models.{
  PaperworkKind, PaperworkRecord, PaperworkSnapshot, PaperworkView, PaperworkDb,
}
use prison_policy_ai.Paperwork.Schemas.{SavePaperworkRequest}
use prison_policy_ai.Paperwork.Service.{Rules, Call}
use prison_policy_ai.Paperwork.Service.Saves.{save_paperwork_record}
use prison_policy_ai.Paperwork.Service.Restoring.{restore_paperwork_record}
use prison_policy_ai.Paperwork.Service.Log.{IsLogged}
use prison_policy_ai.Paperwork.Service.Logged.{history}
use prison_policy_ai.Paperwork.Service.Refinement.{
  Versions, extend, Commits, unchanged, opens_log, extended, Restores, repeats, brings_back,
  save_paperwork_record_refines, restore_paperwork_record_refines,
}

-- a request that is committed; one that raises is rolled back and is no step
pub data Step (rules : Rules) : PaperworkDb → PaperworkDb → Type 0 where
  saves :
      (actor : Actor) (call : Call) (kind : PaperworkKind) (request : SavePaperworkRequest)
      (record_id : Option ℕ) (db after : PaperworkDb) (view : PaperworkView)
      → Lacks (λ (r : PaperworkRecord). r.id) call.draws.record_id db.records
      → save_paperwork_record rules actor call kind request record_id db ≡ (ok view, after)
      → Step rules db after
  restores :
      (actor : Actor) (call : Call) (record_id n : ℕ) (expected : Option PaperworkKind)
      (db after : PaperworkDb) (view : PaperworkView)
      → restore_paperwork_record rules actor call record_id n expected db ≡ (ok view, after)
      → Step rules db after

pub data Reach (rules : Rules) (db : PaperworkDb) : PaperworkDb → Type 0 where
  here : Reach rules db db
  next :
      {mid after : PaperworkDb} → Reach rules db mid → Step rules mid after → Reach rules db after

-- every log of the first is the beginning of the log of the second
abbrev pub Continues : Versions → Versions → Type 0
Continues before after = (id : ℕ) → (more : List PaperworkSnapshot) × (after id ≡ before id ++ more)

append-nil {ℓ} : {A : Type ℓ} (xs : List A) → xs ++ [] ≡ xs
append-nil [] = refl
append-nil (x ∷ xs) = ap (λ ys. x ∷ ys) (append-nil xs)

extend-Continues :
    (before after : Versions) (id : ℕ) (s : PaperworkSnapshot)
    → ((j : ℕ) → after j ≡ extend before id s j)
    → Continues before after
extend-Continues before after id s e j = elim (Bool-cases (id == j)) [
  | inl own ↦ (s ∷ [], e j ∙ rw own)
  | inr other ↦ ([], e j ∙ rw other (sym (append-nil (before j))))
]

same-Continues : (before after : Versions) → ((j : ℕ) → after j ≡ before j) → Continues before after
same-Continues before after e j = ([], e j ∙ sym (append-nil (before j)))

Commits-Continues :
    {repetition fresh : Type 0} (before after : Versions) (target base : Option ℕ) (new_id : ℕ)
    (s : PaperworkSnapshot)
    → Commits repetition fresh before after target base new_id s
    → Continues before after
Commits-Continues before after target base new_id s (unchanged _ e) = same-Continues before after e
Commits-Continues before after target base new_id s (opens_log _ _ _ e) =
    extend-Continues before after new_id s e
Commits-Continues before after target base new_id s (extended id n _ _ _ _ e) =
    extend-Continues before after id s e

Restores-Continues :
    {repetition fresh : Type 0} (before after : Versions) (id n : ℕ) (db : PaperworkDb)
    → Restores repetition fresh before after id n db
    → Continues before after
Restores-Continues before after id n db (repeats _ e) = same-Continues before after e
Restores-Continues before after id n db (brings_back source _ _ e) =
    extend-Continues before after id source.snapshot e

Step-keeps :
    {rules : Rules} {db after : PaperworkDb}
    → Step rules db after
    → IsLogged db
    → IsLogged after × Continues (history db) (history after)
Step-keeps {rules} (saves actor call kind request record_id db after view fresh run) h =
    let (logged, (payload, _, commits)) =
      save_paperwork_record_refines rules actor call kind request record_id db after view h fresh
        run in
    (logged, Commits-Continues _ _ _ _ _ _ commits)
Step-keeps {rules} (restores actor call record_id n expected db after view run) h =
    let (logged, restored) =
      restore_paperwork_record_refines rules actor call record_id n expected db after view h run in
    (logged, Restores-Continues _ _ _ _ _ restored)

Continues-trans :
    (before mid after : Versions)
    → Continues before mid
    → Continues mid after
    → Continues before after
Continues-trans before mid after c d id =
    let (more, e) = c id in
    let (most, e') = d id in
    (more ++ most, e' ∙ ap (λ xs. xs ++ most) e ∙ append_assoc (before id) more most)

-- Over any sequence of saves and restores that succeed, by whichever officers, the history of a record
-- only grows: every state that it has had stays in its place. And at every moment the revisions of each
-- record are numbered from 1 to its current one and the last of them has what the record shows, as long
-- as they were at first.
pub Reach-keeps_history :
    {rules : Rules} {db after : PaperworkDb}
    → Reach rules db after
    → IsLogged db
    → IsLogged after × Continues (history db) (history after)
Reach-keeps_history {db = db} here h = (h, same-Continues (history db) (history db) (λ j. refl))
Reach-keeps_history {db = db} {after = after} (next {mid = mid} r step) h =
    let (logged, grown) = Reach-keeps_history r h in
    let (logged', grown') = Step-keeps step logged in
    (logged', Continues-trans (history db) (history mid) (history after) grown grown')
