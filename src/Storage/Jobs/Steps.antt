-- ===== src/Storage/Jobs/Steps.antt =====
-- The operations of the registry against the edges of a job.
use jitforge.Base.{
  ℕ, String, Bool, true, false, not, ◌||◌, Option, none, some, [], ◌∷◌, ◌≡◌, refl, ◌∙◌, arith,
  Evolves-append, DistinctBy-append, All-of-not-any, ◌==◌,
}
use jitforge.Domain.{ToolName}
use jitforge.Protocol.{RegistrationRequest}
use jitforge.Storage.Schema.{Db, Job, Version, Tool}
use jitforge.Storage.Tx.{Result, commit}
use jitforge.Storage.Tx.Ends.{
  Ends, bind-Ends, fetch_then, query_then, execute_then, ensure_then, pure-Ends, execute-Ends,
  ensure-Ends, commit_ends,
}
use jitforge.Storage.Rows.{set_versions}
use jitforge.Storage.Events.{Codec}
use jitforge.Storage.Register.{
  Registration, has_key, insert_tool, insert_version, insert_job, queued_job, register_new,
  register_with, register,
}
use jitforge.Storage.Versions.{replace_stable, revoke_tool_version}
use jitforge.Storage.Capabilities.{
  approve_http_capability, revoke_http_capability, record_worker_heartbeat,
}
use jitforge.Storage.References.{compact_agent_traces}
use jitforge.Storage.Ops.{
  Op, registers, claims, renews, cancels, checkpoints, suspends, answers, appends_event, compacts,
  stages_job, stages_version, saves_contract, publishes, rejects, revokes, approves_capability,
  revokes_capability, beats, apply, StagesWork, actor,
}
use jitforge.Storage.Jobs.{Edge, stay, IsFresh, IsSound}
use jitforge.Storage.Jobs.Rules.{JobStep, still}
use jitforge.Storage.Jobs.Leased.{
  renew-Ends, stage-Ends, reject-Ends, publish-Ends, checkpoint-Ends, append_event-Ends,
  contract-Ends, stage_version-Ends,
}
use jitforge.Storage.Jobs.Waiting.{claim-Ends, cancel-Ends, suspend-Ends, answer-Ends}

-- The jobs and the inputs of `db'` are those of `db`.
record SameJobs (db db' : Db) : Type 0 where
  jobs : db'.jobs ≡ db.jobs
  inputs : db'.inputs ≡ db.inputs

insert_tool-Ends :
    (name : ToolName) (id now : ℕ) (db : Db)
    → Ends (λ a db'. SameJobs db db') (insert_tool name id now db)
unfolding insert_tool
insert_tool-Ends name id now db = query_then _ _ db (
    query_then _ _ db
      (ensure_then _ _ _ db (λ e. execute-Ends _ db (record { jobs = refl; inputs = refl }))))

insert_version-Ends :
    (v : Version) (db : Db) → Ends (λ a db'. SameJobs db db') (insert_version v db)
unfolding insert_version
insert_version-Ends v db =
    query_then _ _ db
      (ensure_then _ _ _ db (λ e. execute-Ends _ db (record { jobs = refl; inputs = refl })))

insert_job-Ends :
    (now : ℕ) (j : Job) (db mid : Db)
    → IsSound db
    → SameJobs db mid
    → IsFresh j
    → Ends (λ a db'. JobStep none now db db') (insert_job j mid)
unfolding insert_job
insert_job-Ends now j db mid s same fresh = query_then _ _ mid (
    ensure_then _ _ _ mid (λ free. execute-Ends _ mid (record {
      evolves =
          rw same.jobs
            (Evolves-append (Edge none now) IsFresh (λ x. stay refl) db.jobs (j ∷ []) (fresh, tt));
      sound = record {
        distinct = rw same.jobs (
            DistinctBy-append (λ (x : Job). x.id) db.jobs j
              (All-of-not-any _ _ db.jobs (rw same.jobs at (not_true free)) (λ y t e. other y t e))
              s.distinct);
        resumable = rw same.inputs s.resumable;
      };
    })))
  where
    not_true : {b : Bool} → not b ≡ true → b ≡ false
    not_true {b} e = ground arith

    other : (y : Job) → (y.id == j.id || has_key j.idempotency_key y) ≡ false → y.id ≡ j.id → ⊥
    other y t e = ground arith

register_with-Ends :
    (codec : Codec) (name : ToolName) (request : RegistrationRequest) (key fingerprint : String)
    (tool_id job_id now : ℕ) (r : Option Registration) (db : Db)
    → IsSound db
    → Ends
        (λ a db'. JobStep none now db db')
        (register_with codec name request key fingerprint tool_id job_id now r db)
unfolding register_with register_new
register_with-Ends codec name request key fingerprint tool_id job_id now (some r) db s =
    ensure_then _ _ _ db (λ e. pure-Ends _ db (still none now db db s refl refl))
register_with-Ends codec name request key fingerprint tool_id job_id now none db s =
    bind-Ends _ _ _ db (insert_tool-Ends name tool_id now db) (λ a db1 same.
      fetch_then _ _ _ db1 (λ tool found. ensure_then _ _ _ db1 (λ room. execute_then _ _ db1 (
        bind-Ends _ _ _ _ (insert_version-Ends _ _) (λ a' db2 same2.
          bind-Ends _ _ _ db2
            (insert_job-Ends now _ db db2 s
              (record { jobs = same2.jobs ∙ same.jobs; inputs = same2.inputs ∙ same.inputs })
              (unfold queued_job in
                record {
                  status = refl;
                  stage = refl;
                  attempts = refl;
                  lease_until = refl;
                  worker_id = refl;
                }))
            (λ a'' db3 step. pure-Ends _ db3 step))))))

replace_stable-Ends :
    (tool : Tool) (revision now : ℕ) (b : Bool) (db mid : Db)
    → JobStep none now db mid
    → (mid.jobs ≡ db.jobs)
    → (mid.inputs ≡ db.inputs)
    → IsSound db
    → Ends (λ a db'. JobStep none now db db') (replace_stable tool revision now b mid)
unfolding replace_stable
replace_stable-Ends tool revision now false db mid step j i s = pure-Ends _ mid step
replace_stable-Ends tool revision now true db mid step j i s =
    query_then _ _ mid (execute_then _ _ mid (pure-Ends _ _ (still none now db _ s j i)))

module _ (codec : Codec) (now : ℕ) (db : Db) (s : IsSound db) where
  revoke-Ends :
      (name : ToolName) (revision : ℕ) (reason : String)
      → Ends (λ a db'. JobStep none now db db') (revoke_tool_version name revision reason now db)
  unfolding revoke_tool_version set_versions
  revoke-Ends name revision reason = ensure_then _ _ _ db (λ e. fetch_then _ _ _ db (λ tool found.
      fetch_then _ _ _ db (λ v found'. ensure_then _ _ _ db (λ e'. execute_then _ _ db (
        bind-Ends _ _ _ _
          (replace_stable-Ends tool revision now _ db _ (still none now db _ s refl refl) refl refl
            s)
          (λ a db' step. pure-Ends _ db' step))))))

  compact-Ends : Ends (λ a db'. JobStep none now db db') (compact_agent_traces now db)
  unfolding compact_agent_traces
  compact-Ends =
      query_then _ _ db
        (execute_then _ _ db (execute_then _ _ _ (pure-Ends _ _ (still none now db _ s refl refl))))

  revoke_capability-Ends :
      (hash reason : String)
      → Ends (λ a db'. JobStep none now db db') (revoke_http_capability hash reason now db)
  unfolding revoke_http_capability
  revoke_capability-Ends hash reason = ensure_then _ _ _ db (λ e.
      query_then _ _ db
        (execute_then _ _ db (ensure-Ends _ _ _ (λ e'. still none now db _ s refl refl))))

  -- What holds of the tables that a successful transaction leaves holds of those that `commit` leaves.
  committed :
      {A : Type 0} (who : Option String) (m : Db → Result (A × Db))
      → Ends (λ a db'. JobStep who now db db') (m db)
      → JobStep who now db (commit m db)
  committed who m h = commit_ends (JobStep who now db) m db (still who now db db s refl refl) h

  -- In sound tables, every operation that writes no stage but one of work moves each job along one edge
  -- of `Edge`, of which `stay` is one, adds only fresh jobs, behind the others, and leaves the tables
  -- sound.
  pub apply-JobStep : (op : Op) → StagesWork op → JobStep (actor op) now db (apply codec now op db)
  unfolding apply
  apply-JobStep (registers name request key tool_id job_id) w = committed _ _ (
      unfold register in
      query_then _ _ db (register_with-Ends codec name request key _ tool_id job_id now _ db s))
  apply-JobStep (claims locked worker lease) w =
      committed _ _ (claim-Ends now db s locked worker lease)
  apply-JobStep (renews job worker lease) w = committed _ _ (renew-Ends now job worker db s lease)
  apply-JobStep (cancels job reason) w = committed _ _ (cancel-Ends now db s codec job reason)
  apply-JobStep (checkpoints job worker engine version value) w =
      committed _ _ (checkpoint-Ends now job worker db s engine version value)
  apply-JobStep (suspends job worker input) w =
      committed _ _ (suspend-Ends now db s codec job worker input)
  apply-JobStep (answers job request) w = committed _ _ (answer-Ends now db s codec job request)
  apply-JobStep (appends_event job worker kind payload) w =
      committed _ _ (append_event-Ends now job worker db s codec kind payload)
  apply-JobStep compacts w = committed _ _ compact-Ends
  apply-JobStep (stages_job job worker target) w =
      committed _ _ (stage-Ends now job worker db s target w)
  apply-JobStep (stages_version job target) w =
      committed _ _ (stage_version-Ends now job target db s)
  apply-JobStep (saves_contract job worker terms assumptions) w =
      committed _ _ (contract-Ends now job worker db s terms assumptions)
  apply-JobStep (publishes job worker artifact) w =
      committed _ _ (publish-Ends now job worker db s codec artifact)
  apply-JobStep (rejects job worker error_code message details) w =
      committed _ _ (reject-Ends now job worker db s error_code message details)
  apply-JobStep (revokes name revision reason) w = committed _ _ (revoke-Ends name revision reason)
  apply-JobStep (approves_capability hash capability job) w = committed _ _ (
      unfold approve_http_capability in
      query_then _ _ db
        (ensure_then _ _ _ db (λ known. execute-Ends _ db (still none now db _ s refl refl))))
  apply-JobStep (revokes_capability hash reason) w =
      committed _ _ (revoke_capability-Ends hash reason)
  apply-JobStep (beats worker version) w =
      committed _ _
        (unfold record_worker_heartbeat in execute-Ends _ db (still none now db _ s refl refl))
