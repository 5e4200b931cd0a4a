-- ===== src/Jobs/Service/Leases.antt =====
-- A job is executed under a lease, and it ends once.
use prison_policy_ai.Prelude.{
  ℕ, ◌+◌, ◌≡◌, ◌≢◌, ◌<◌, refl, sym, ap, Option, none, some, true, false, String, arith, find_sound,
  find-update_where, update_where, Bool-cases, Option-cases, inl, inr, ◌==◌, ==_iff, minutes, find,
  ◌⊎◌,
}
use prison_policy_ai.Fault.{ok, Result-cases}
use prison_policy_ai.Identity.Models.{account_by_id}
use prison_policy_ai.Jobs.Models.{
  JobState, queued, cancelled, running, succeeded, failed, stopped, completed, ResultReference,
  normalize_job_result_reference, AiJob, Incident, Store,
}
use prison_policy_ai.Jobs.Service.{
  is_terminal, is_running, is_claimable, is_current_claim, is_stale_result, job_by_id, claimed_job,
  claim_job, failed_job, succeeded_job, fail_job, succeed_job, finish_job, has_result_targets,
  apply_job_result, incident_of,
}
use prison_policy_ai.Jobs.Service.Keeps.{find_own, claim-keeps, apply-keeps}

-- One call of the service at the time `now`, whatever it answers; an application of a result presents
-- no token of those that `P` excludes.
pub data Call (P : Option ℕ → Type 0) (now : ℕ) (store : Store) : Store → Type 0 where
  claims : (job_id token : ℕ) → Call P now store (claim_job job_id now token store).1
  applies :
      (job_id expected : ℕ) (token : Option ℕ) (reference : ResultReference) (request_id : String)
      → P token
      → Call P now store (apply_job_result job_id expected token reference now request_id store).1

-- Calls one after the other, each at a time that `T` allows.
pub data Calls (P : Option ℕ → Type 0) (T : ℕ → Type 0) (store : Store) : Store → Type 0 where
  none_yet : Calls P T store store
  one_more :
      {before after : Store} (now : ℕ)
      → Calls P T store before
      → T now
      → Call P now before after
      → Calls P T store after

keeps_terminal :
    {P : Option ℕ → Type 0} {now : ℕ} {before after : Store} (id : ℕ) (job : AiJob)
    → Call P now before after
    → is_terminal job.state ≡ true
    → job_by_id id before ≡ some job
    → job_by_id id after ≡ some job
keeps_terminal {now} {before} id job (claims i token) over found =
    claim-keeps id i now token before job found (unfold is_claimable in ground (arith, over))
keeps_terminal {now} {before} id job (applies i expected token reference request_id p) over found =
    apply-keeps id i expected token reference now request_id before job found (inl over)

-- A job ends once: from the time that it has succeeded, failed or been cancelled, no sequence of claims
-- and results, with whatever tokens and at whatever times, changes its row.
pub Calls-KeepsTerminal :
    {store after : Store} (id : ℕ) (job : AiJob)
    → Calls (λ _. Unit) (λ _. Unit) store after
    → is_terminal job.state ≡ true
    → job_by_id id store ≡ some job
    → job_by_id id after ≡ some job
Calls-KeepsTerminal id job none_yet over found = found
Calls-KeepsTerminal id job (one_more now before _ call) over found =
    keeps_terminal id job call over (Calls-KeepsTerminal id job before over found)

other_claim :
    (job : AiJob) (other : Option ℕ) (token now : ℕ)
    → other ≢ some token
    → job.claim_token ≡ some token
    → is_current_claim job other now ≡ false
unfolding is_current_claim
other_claim job none token now p own = refl
other_claim job (some t) token now p own = elim (Bool-cases (token == t)) [
  | inl same ↦ absurd (p (ap some (sym ((==_iff token t).0 same))))
  | inr apart ↦ ground (arith, own, apart)
]

keeps_leased :
    {now : ℕ} {before after : Store} (id until token : ℕ) (job : AiJob)
    → job.state ≡ running
    → job.lease_expires_at ≡ some until
    → job.claim_token ≡ some token
    → now < until
    → Call (λ other. other ≢ some token) now before after
    → job_by_id id before ≡ some job
    → job_by_id id after ≡ some job
keeps_leased {now} {before} id until token job run lease own soon (claims i other) found =
    claim-keeps id i now other before job found (unfold is_claimable in ground arith)
keeps_leased {now} {before} id until token job run lease own soon
      (applies i expected other reference request_id p) found =
    apply-keeps id i expected other reference now request_id before job found
      (inr (other_claim job other token now p own))

Calls-KeepsLeased :
    (id until token : ℕ) (job : AiJob) {store after : Store}
    → job.state ≡ running
    → job.lease_expires_at ≡ some until
    → job.claim_token ≡ some token
    → Calls (λ other. other ≢ some token) (λ now. now < until) store after
    → job_by_id id store ≡ some job
    → job_by_id id after ≡ some job
Calls-KeepsLeased id until token job run lease own none_yet found = found
Calls-KeepsLeased id until token job run lease own (one_more now before soon call) found =
    keeps_leased id until token job run lease own soon call
      (Calls-KeepsLeased id until token job run lease own before found)

-- A claim is exclusive. A claim that succeeds gives the job the state running and a lease of 20 minutes.
-- As long as the lease runs, no sequence of calls that do not present its token changes the row; every
-- other claim of the job finds nothing.
pub claim_job-exclusive :
    (id start token : ℕ) (store claimed_store after : Store) (job : AiJob)
    → claim_job id start token store ≡ (some job, claimed_store)
    → Calls (λ other. other ≢ some token) (λ now. now < start + minutes 20) claimed_store after
    → (job_by_id id after ≡ some job)
      × (job.state ≡ running)
      × ((now other : ℕ) → now < start + minutes 20 → claim_job id now other after ≡ (none, after))
unfolding claim_job
claim_job-exclusive id start token store claimed_store after job h calls =
    elim (Option-cases (job_by_id id store)) [
      | inl gone ↦ absurd (ground arith)
      | inr (row, found) ↦
          let is_job : job ≡ claimed_job start token row = ground arith in
          let e : claimed_store.jobs
              ≡ update_where (λ (j : AiJob). j.id == id) (claimed_job start token) store.jobs =
            ground arith in
          let at : job_by_id id claimed_store ≡ some job =
            rw
              (
                e,
                find-update_where (λ (j : AiJob). j.id == id) (λ (j : AiJob). j.id == id)
                    (claimed_job start token) store.jobs (λ x. refl),
                found,
              )
              (ground
                (arith, find_sound (λ (j : AiJob). j.id == id) store.jobs row found, is_job)) in
          let kept =
            Calls-KeepsLeased id (start + minutes 20) token job (rw is_job refl) (rw is_job refl)
              (rw is_job refl) calls at in
          let busy : (now : ℕ) → now < start + minutes 20 → is_claimable job now ≡ false =
            λ now soon. rw is_job (unfold is_claimable in ground (arith, soon)) in
          (kept, rw is_job refl, λ now other soon. ground (arith, kept, busy now soon))
    ]

-- A claim is current when the token at hand is the job's and its lease has not run out.
is_current_claim_sound :
    (job : AiJob) (token : Option ℕ) (now : ℕ)
    → is_current_claim job token now ≡ true
    → (held : ℕ) × (until : ℕ) × (token ≡ some held)
      × (job.claim_token ≡ some held)
      × (job.lease_expires_at ≡ some until)
      × (now < until)
unfolding is_current_claim
is_current_claim_sound job none now h = absurd (ground arith)
is_current_claim_sound job (some held) now h = elim (Option-cases job.claim_token) [
  | inl free ↦ absurd (ground arith)
  | inr (own, e) ↦ elim (Option-cases job.lease_expires_at) [
    | inl over ↦ absurd (ground arith)
    | inr (until, e') ↦ (held, until, refl, ground (arith, ==_iff own held), e', ground arith)
  ]
]

is_running_sound : (state : JobState) → is_running state ≡ true → state ≡ running
is_running_sound running h = refl
is_running_sound queued h = absurd (ground arith)
is_running_sound succeeded h = absurd (ground arith)
is_running_sound failed h = absurd (ground arith)
is_running_sound cancelled h = absurd (ground arith)

stale_result :
    (job : AiJob) (incident : Incident) (expected : ℕ)
    → (expected ≢ job.base_incident_revision) ⊎ (incident.current_revision_number ≢ expected)
    → is_stale_result job incident expected ≡ true
stale_result job incident expected (inl other) = ground arith
stale_result job incident expected (inr moved) = ground arith

fresh_result :
    (job : AiJob) (incident : Incident) (expected : ℕ)
    → expected ≡ job.base_incident_revision
    → incident.current_revision_number ≡ expected
    → is_stale_result job incident expected ≡ false
fresh_result job incident expected e e' = ground (
  arith,
  ==_iff expected job.base_incident_revision,
  ==_iff incident.current_revision_number expected,
)

-- A result that is accepted for a job that has not ended ends it: the caller holds the job's running
-- lease, and the job fails with a conflict if the incident has moved on from the revision that the
-- result is for, and succeeds with the normalized reference, whose targets exist, if it has not. Only
-- the holder's reference is stored, and the lease is given up.
pub apply_job_result-ends :
    (id expected : ℕ) (token : Option ℕ) (given : ResultReference) (now : ℕ) (request_id : String)
    (store after : Store) (job : AiJob)
    → job_by_id id store ≡ some job
    → is_terminal job.state ≡ false
    → apply_job_result id expected token given now request_id store ≡ (ok tt, after)
    → (job.state ≡ running)
      × ((held : ℕ) × (until : ℕ) × (token ≡ some held)
          × (job.claim_token ≡ some held)
          × (job.lease_expires_at ≡ some until)
          × (now < until))
      × ((incident : Incident) × (find (λ (i : Incident). i.id == job.incident_id) store.incidents
            ≡ some incident)
          × ((expected ≢ job.base_incident_revision) ⊎ (incident.current_revision_number ≢ expected)
              → job_by_id id after
                ≡ some (record job {
                  state = failed;
                  stage = stopped;
                  error_code = some "job_result_conflict";
                  completed_at = some now;
                  claim_token = none;
                  lease_expires_at = none;
                }))
          × (expected ≡ job.base_incident_revision
              → incident.current_revision_number ≡ expected
              → (reference : ResultReference) × (normalize_job_result_reference given
                  ≡ ok reference)
                × (has_result_targets job reference store ≡ true)
                × (job_by_id id after
                    ≡ some (record job {
                      state = succeeded;
                      stage = completed;
                      error_code = none;
                      result_reference = reference;
                      completed_at = some now;
                      claim_token = none;
                      lease_expires_at = none;
                    }))))
unfolding apply_job_result finish_job fail_job succeed_job
apply_job_result-ends id expected token given now request_id store after job found live h =
    elim (Result-cases (normalize_job_result_reference given)) [
      | inr (f, e) ↦ absurd (ground arith)
      | inl (reference, e) ↦ elim (Option-cases (incident_of job store)) [
        | inl gone ↦ absurd (ground arith)
        | inr (incident, at) ↦
            elim (Option-cases (account_by_id job.requested_by_account_id store.identity)) [
              | inl gone ↦ absurd (ground arith)
              | inr (account, known) ↦ (
                is_running_sound job.state (ground arith),
                is_current_claim_sound job token now (ground arith),
                (
                  incident,
                  at,
                  λ moved.
                      let stale = stale_result job incident expected moved in
                      let e' : after.jobs
                          ≡ update_where (λ (j : AiJob). j.id == job.id) (failed_job now)
                              store.jobs =
                        ground (arith, stale) in
                      rw e' (find_own id (failed_job now) store.jobs job (λ x. refl) found),
                  λ based unmoved.
                      let fresh = fresh_result job incident expected based unmoved in
                      let e' : after.jobs
                          ≡ update_where (λ (j : AiJob). j.id == job.id)
                              (succeeded_job reference now) store.jobs =
                        ground (arith, fresh) in
                      (
                        reference,
                        e,
                        ground arith,
                        rw e' (
                            find_own id (succeeded_job reference now) store.jobs job (λ x. refl)
                              found),
                      ),
                ),
              )
            ]
      ]
    ]
