-- ===== src/Storage/Jobs/Waiting.antt =====
-- The operations on jobs that wait, for a worker or for their user, and cancellation.
use jitforge.Base.{
  ℕ, String, Bool, true, false, not, ◌&&◌, Option, none, some, List, [], ◌∷◌, ◌≡◌, refl, sym, ap,
  ◌∙◌, subst, arith, find?, In, inl, inr, ◌⊎◌, select-In, find?-In, All, All-In, All-append,
  All-update, DistinctBy-eq, eq-of-==, update, any-In, any, ◌++◌, ◌==◌, Bool-cases, leb,
  if◌then◌else◌,
}
use jitforge.Protocol.{JobStatus, JobInputAnswer, JobAnswerRequest, is_terminal, awaiting_input}
use jitforge.Storage.Schema.{Db, Job, JobInput}
use jitforge.Storage.Tx.Ends.{
  weaken-Ends, Ends, bind-Ends, fetch_then, query_then, execute_then, ensure_then, pure-Ends,
  execute-Ends,
}
use jitforge.Storage.Rows.{has_id, is_awaiting, find_job, set_jobs}
use jitforge.Storage.Events.{Codec}
use jitforge.Storage.Frame.{SameRows, event-Ends, jobs-set_version_of, inputs-set_version_of}
use jitforge.Storage.Claim.{
  claimable, older, oldest, start_job, candidate, claim_candidate, claim_synthesis_job,
}
use jitforge.Storage.Progress.{find_leased}
use jitforge.Storage.Inputs.{
  cancelled, cancel_with, cancel_job, set_inputs, answer_input, NewJobInput, insert_input,
  pending_input, suspend, suspend_with, suspend_job_for_input, validate_job_input_answer,
  answer_with, answer_transaction, find_asked, is_asked, resume,
}
use jitforge.Storage.Ops.{is_working}
use jitforge.Storage.Jobs.{IsSound, claim, cancel, suspend_for_input, answer}
use jitforge.Storage.Jobs.Rules.{JobStep, still, updated, the_one, Leases-found}

oldest-In : (js : List Job) (j : Job) → oldest js ≡ some j → In j js
unfolding oldest
oldest-In [] j h = absurd cc
oldest-In (k ∷ ks) j h = go (oldest ks) (oldest-In ks j) h
  where
    go : (o : Option Job) → (o ≡ some j → In j ks) → older k o ≡ some j → (k ≡ j) ⊎ In j ks
    go none rest e = inl (ground arith)
    go (some x) rest e =
        elim (leb k.created_at x.created_at)
            as (λ b. (if b then some k else some x) ≡ some j → (k ≡ j) ⊎ In j ks) [
              | true ↦ λ e. inl (ground arith)
              | false ↦ λ e. inr (rest e)
            ]
          e

-- The job that is claimed is a claimable one.
pub candidate-claimable :
    (locked : ℕ → Bool) (now : ℕ) (db : Db) (j : Job)
    → candidate locked now db ≡ some j
    → In j db.jobs × (claimable now j ≡ true) × (locked j.id ≡ false)
unfolding candidate
candidate-claimable locked now db j h =
    let (i, t) = select-In _ db.jobs j (oldest-In _ j h) in (i, ground arith, ground arith)

is_awaiting_eq : (t : JobStatus) → is_awaiting t ≡ true → t ≡ awaiting_input
is_awaiting_eq t h = ground arith

module _ (now : ℕ) (db : Db) (s : IsSound db) where
  claim_candidate-Ends :
      (locked : ℕ → Bool) (worker : String) (lease : ℕ) (o : Option Job)
      → candidate locked now db ≡ o
      → Ends (λ a db'. JobStep (some worker) now db db') (claim_candidate worker lease now o db)
  unfolding claim_candidate set_jobs
  claim_candidate-Ends locked worker lease none e =
      pure-Ends none db (still (some worker) now db db s refl refl)
  claim_candidate-Ends locked worker lease (some c) e =
      let (ic, claimed, free) = candidate-claimable locked now db c e in
      execute_then _ _ db (
        execute_then _ _ _ (
          fetch_then _ _ _ _ (λ row found. pure-Ends _ _ (
            updated (some worker) now db _ (has_id c.id) (start_job worker lease now) s
              (jobs-set_version_of c.id _ _ _) (rw (inputs-set_version_of c.id) s.resumable)
              (λ j. unfold start_job in refl)
              (λ j i h.
                claim worker lease refl
                  (subst (λ (x : Job). claimable now x ≡ true)
                    (DistinctBy-eq (λ (x : Job). x.id) db.jobs c j s.distinct ic i
                      (sym (eq-of-== j.id c.id h)))
                    claimed)
                  refl)))))

  pub claim-Ends :
      (locked : ℕ → Bool) (worker : String) (lease : ℕ)
      → Ends
          (λ a db'. JobStep (some worker) now db db')
          (claim_synthesis_job locked worker lease now db)
  unfolding claim_synthesis_job
  claim-Ends locked worker lease =
      query_then _ _ db (claim_candidate-Ends locked worker lease (candidate locked now db) refl)

  -- Every input keeps its stage when it is answered.
  answered_resumable :
      (p : JobInput → Bool) (a : JobInputAnswer)
      → All
          (λ (i : JobInput). is_working i.resume_stage ≡ true)
          (update p (answer_input a now) db.inputs)
  unfolding answer_input
  answered_resumable p a = All-update _ p _ db.inputs (λ i e w. w) s.resumable

  pub cancel-Ends :
      (codec : Codec) (job_id : ℕ) (reason : String)
      → Ends (λ a db'. JobStep none now db db') (cancel_job codec job_id reason now db)
  unfolding cancel_job cancel_with set_jobs set_inputs
  cancel-Ends codec job_id reason = ensure_then _ _ _ db (λ fits. fetch_then _ _ _ db (λ job found.
      ensure_then _ _ _ db (λ live. execute_then _ _ db (
        execute_then _ _ _ (
          execute_then _ _ _ (
            weaken-Ends _ _ (event-Ends codec job_id _ _ _ now _) (λ a db' same.
              updated none now db db' (has_id job_id) _ s
                (same.jobs ∙ jobs-set_version_of job_id _ _ _)
                (rw (same.inputs, inputs-set_version_of job_id) (answered_resumable _ _))
                (λ j. unfold cancelled in refl)
                (λ j i h. cancel _ (still_live job_id job j found live i h) refl))))))))
    where
      still_live :
          (job_id : ℕ) (job j : Job)
          → find_job job_id db ≡ some job
          → not (is_terminal job.status) ≡ true
          → In j db.jobs
          → has_id job_id j ≡ true
          → is_terminal j.status ≡ false
      still_live job_id job j found live i h =
          subst (λ (x : Job). is_terminal x.status ≡ false)
            (the_one db job_id (has_id job_id) job j s (unfold find_job in found)
              (λ x e. eq-of-== x.id job_id e) i h)
            (ground arith)

  suspend_with-Ends :
      (codec : Codec) (job_id : ℕ) (worker : String) (input : NewJobInput) (job : Job)
      (existing : Option JobInput)
      → find_leased job_id worker db ≡ some job
      → is_working job.stage ≡ true
      → Ends
          (λ a db'. JobStep (some worker) now db db')
          (suspend_with codec job_id input job.stage now existing db)
  unfolding suspend_with insert_input set_jobs
  suspend_with-Ends codec job_id worker input job (some old) found works =
      pure-Ends old.id db (still (some worker) now db db s refl refl)
  suspend_with-Ends codec job_id worker input job none found works =
      bind-Ends (λ a db'. (db'.jobs ≡ db.jobs) × (db'.inputs ≡ db.inputs ++ new ∷ [])) _ _ db
        (query_then _ _ db (ensure_then _ _ _ db (λ free. execute-Ends _ db (refl, refl))))
        (λ a mid inserted.
          bind-Ends (SameRows' mid) _ _ mid (event-Ends codec job_id _ _ _ now mid) (λ a' db' same.
            execute_then _ _ db' (
              pure-Ends _ _ (
                updated (some worker) now db _ (has_id job_id) (suspend now) s
                  (ap (update (has_id job_id) (suspend now)) (same.jobs ∙ inserted.0))
                  (rw (same.inputs, inserted.1)
                    (All-append _ db.inputs (new ∷ []) s.resumable
                      (unfold pending_input in (works, tt))))
                  (λ j. unfold suspend in refl)
                  (λ j i h.
                    suspend_for_input worker refl (Leases-found db job_id worker job j s found i h)
                      refl)))))
    where
      new : JobInput
      new = pending_input input job_id job.stage now

      SameRows' : Db → Unit {0} → Db → Type 0
      SameRows' mid a db' = SameRows mid db'

  pub suspend-Ends :
      (codec : Codec) (job_id : ℕ) (worker : String) (input : NewJobInput)
      → Ends
          (λ a db'. JobStep (some worker) now db db')
          (suspend_job_for_input codec job_id worker input now db)
  unfolding suspend_job_for_input
  suspend-Ends codec job_id worker input = fetch_then _ _ _ db (λ job found.
      ensure_then _ _ _ db (λ works.
        query_then _ _ db (suspend_with-Ends codec job_id worker input job _ found (ground arith))))

  awaiting_job :
      (job_id input_id : ℕ) (i : JobInput) (j : Job)
      → find_asked input_id job_id db ≡ some i
      → In j db.jobs
      → has_id job_id j ≡ true
      → (j.status ≡ awaiting_input) × (is_working i.resume_stage ≡ true)
  unfolding find_asked
  awaiting_job job_id input_id i j h ij same =
      elim (Bool-cases (any (λ k. k.id == job_id && is_awaiting k.status) db.jobs)) [
        | inl waits ↦
            let (k, ik, t) = any-In _ db.jobs waits in
            let found : find? (is_asked input_id job_id) db.inputs ≡ some i = ground arith in
            (
              subst (λ (x : Job). x.status ≡ awaiting_input)
                  (DistinctBy-eq (λ (x : Job). x.id) db.jobs k j s.distinct ik ij
                    (ground (arith, eq-of-== j.id job_id same)))
                  (is_awaiting_eq k.status (ground arith)),
              All-In _ db.inputs i s.resumable (find?-In _ db.inputs i found).0,
            )
        | inr never ↦ absurd (ground arith)
      ]

  pub answer-Ends :
      (codec : Codec) (job_id : ℕ) (request : JobAnswerRequest)
      → Ends (λ a db'. JobStep none now db db') (answer_transaction codec job_id request now db)
  unfolding answer_transaction answer_with validate_job_input_answer set_jobs set_inputs
  answer-Ends codec job_id request = fetch_then _ _ _ db (λ input_id parsed.
      fetch_then _ _ _ db (λ i found. ensure_then _ _ _ db (λ fits. execute_then _ _ db (
        execute_then _ _ _ (
          weaken-Ends _ _ (event-Ends codec job_id _ _ _ now _) (λ a db' same.
            updated none now db db' (has_id job_id) _ s same.jobs
              (rw same.inputs (answered_resumable _ _)) (λ j. unfold resume in refl)
              (λ j ij h.
                let (waits, works) = awaiting_job job_id input_id i j found ij h in
                answer i.resume_stage waits works refl)))))))
