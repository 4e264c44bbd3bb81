-- ===== src/Storage/Progress.antt =====
-- crates/jit-storage/src/lib.rs: what the worker that leases a job writes while it runs and when it
-- ends: `save_agent_checkpoint`, `set_job_stage`, `save_contract`, `publish_job`, `reject_job`.
use jitforge.Base.{
  ℕ, ◌+◌, ◌*◌, String, true, ◌||◌, Option, none, some, List, [], ◌∷◌, ◌++◌, ◌==◌, str_eq,
  if◌then◌else◌, is_some, find?, any, count, update,
}
use jitforge.Domain.{ToolVersionStatus, building, validating, synthesizing, ready, rejected}
use jitforge.Protocol.{
  Value, string, array, Items, nil, cons, object, end, field, get, as_text, JobStage, JobStatus,
  complete,
}
use jitforge.Storage.Schema.{
  Db, Job, Version, AgentRun, Artifact, job_lease_lost, database, not_null_violation, second,
}
use jitforge.Storage.Tx.{Tx, ◌>>=◌, ◌>>◌, pure, query, execute, fetch, ensure}
use jitforge.Storage.Rows.{
  has_id, is_leased, is_version, of_job, run_of, set_jobs, set_versions, set_version_of,
}
use jitforge.Storage.Events.{
  Codec, ensure_job_owner, append_agent_event_in_transaction, agent_trace_limit_bytes,
}

-- `INSERT … ON CONFLICT (job_id) DO UPDATE`
unfoldable pub upsert_run : ℕ → String → String → Value → List AgentRun → List AgentRun
upsert_run job_id engine engine_version checkpoint runs =
    if any (run_of job_id) runs
    then update (run_of job_id)
        (λ r. record r {
          engine = engine;
          engine_version = engine_version;
          checkpoint = checkpoint;
        })
        runs
    else runs
      ++ record {
        job_id = job_id;
        engine = engine;
        engine_version = engine_version;
        checkpoint = checkpoint;
        trace_bytes = 0;
      }
        ∷ []

unfoldable pub save_agent_checkpoint : ℕ → String → String → String → Value → Tx Unit
unfolding ensure_job_owner upsert_run
save_agent_checkpoint job_id worker engine engine_version checkpoint = do
  ensure_job_owner job_id worker
  execute (λ db. record db { runs = upsert_run job_id engine engine_version checkpoint db.runs })

-- The first statement of `set_job_stage`, which commits by itself.
unfoldable pub set_stage_of_job : ℕ → String → JobStage → ℕ → Tx Unit
set_stage_of_job job_id worker stage now = do
  affected ← query (λ db. count (is_leased job_id worker) db.jobs)
  execute (
      set_jobs (is_leased job_id worker) (λ j. record j {
        stage = stage;
        lease_until = some (now + 300 * second);
        updated_at = now;
      }))
  ensure (affected == 1) job_lease_lost

abbrev pub version_status_of : JobStage → Option ToolVersionStatus
version_status_of JobStage.building = some building
version_status_of JobStage.validating = some validating
version_status_of JobStage.contract = some synthesizing
version_status_of JobStage.synthesizing = some synthesizing
version_status_of JobStage.repairing = some synthesizing
version_status_of JobStage.queued = none
version_status_of JobStage.awaiting_input = none
version_status_of complete = none

-- Its second statement, for the status that goes with the stage.
unfoldable pub write_version_status : ℕ → Option ToolVersionStatus → ℕ → Tx Unit
write_version_status job_id none now = pure tt
write_version_status job_id (some s) now =
    execute (set_version_of job_id (λ v. true) (λ v. record v { status = s; updated_at = now }))

unfoldable pub set_version_status : ℕ → JobStage → ℕ → Tx Unit
unfolding write_version_status
set_version_status job_id stage now = write_version_status job_id (version_status_of stage) now

-- The two with nothing in between.
unfoldable pub set_job_stage : ℕ → String → JobStage → ℕ → Tx Unit
unfolding set_stage_of_job set_version_status
set_job_stage job_id worker stage now = do
  set_stage_of_job job_id worker stage now
  set_version_status job_id stage now

-- `serde_json::to_value(assumptions)`
unfoldable pub text_items : List String → Items
text_items [] = nil
text_items (s ∷ ss) = cons (string s) (text_items ss)

-- `$3->>'summary'` of a contract whose summary is a text, as the worker's are.
abbrev pub summary_text : Option Value → Option String
summary_text none = none
summary_text (some v) = as_text v

abbrev pub or_else : Option String → String → String
or_else none s = s
or_else (some t) s = t

-- The job that the caller leases, if it does.
unfoldable pub find_leased : ℕ → String → Db → Option Job
find_leased job_id worker db = find? (is_leased job_id worker) db.jobs

abbrev pub count_version : Option Job → List Version → ℕ
count_version none vs = 0
count_version (some j) vs = count (of_job j) vs

unfoldable pub save_contract : ℕ → String → Value → List String → ℕ → Tx Unit
unfolding text_items get find_leased
save_contract job_id worker contract assumptions now = do
  leased ← query (find_leased job_id worker)
  affected ← query (λ db. count_version leased db.versions)
  ensure (affected == 0 || is_some (summary_text (get "summary" contract)))
      (database not_null_violation)
  execute (λ db. elim leased [
    | none ↦ db
    | some j ↦
        set_versions (of_job j)
          (λ v. record v {
            contract = some contract;
            description = or_else (summary_text (get "summary" contract)) v.description;
            assumptions = array (text_items assumptions);
            updated_at = now;
          })
          db
  ])
  ensure (affected == 1) job_lease_lost

pub record PublishedArtifact : Type 0 where
  pub digest : String
  pub relative_path : String
  pub size_bytes : ℕ
  pub manifest : Value
  pub contract : Value
  pub assumptions : Value
  pub validation_summary : Value

-- `INSERT … ON CONFLICT (digest) DO NOTHING`
unfoldable pub insert_artifact : PublishedArtifact → List Artifact → List Artifact
insert_artifact a rows =
    if any (λ r. str_eq r.digest a.digest) rows
    then rows
    else rows
      ++ record {
        digest = a.digest;
        relative_path = a.relative_path;
        size_bytes = a.size_bytes;
        manifest = a.manifest;
        validation_summary = a.validation_summary;
      }
        ∷ []

unfoldable pub publish_version : PublishedArtifact → ℕ → Version → Version
publish_version a now v = record v {
  status = ready;
  contract = some a.contract;
  assumptions = a.assumptions;
  artifact_digest = some a.digest;
  validation_summary = some a.validation_summary;
  error_code = none;
  error_message = none;
  updated_at = now;
}

unfoldable pub finish_job : ℕ → Job → Job
finish_job now j = record j {
  status = JobStatus.ready;
  stage = complete;
  lease_until = none;
  updated_at = now;
}

unfoldable pub publish_job : Codec → ℕ → String → PublishedArtifact → ℕ → Tx Unit
unfolding find_leased insert_artifact publish_version finish_job append_agent_event_in_transaction
publish_job codec job_id worker artifact now = do
  owner ← fetch (find_leased job_id worker) job_lease_lost
  execute (λ db. record db { artifacts = insert_artifact artifact db.artifacts })
  execute (set_versions (is_version owner.tool_id owner.revision) (publish_version artifact now))
  execute (λ db. record db {
    tools =
        update (λ t. t.id == owner.tool_id)
          (λ t. record t { stable_revision = some owner.revision; updated_at = now }) db.tools;
  })
  execute (set_jobs (has_id job_id) (finish_job now))
  append_agent_event_in_transaction codec job_id "candidate_validated"
      (object (field "digest" (string artifact.digest) end)) agent_trace_limit_bytes now

unfoldable pub fail_job : String → String → Option Value → ℕ → Job → Job
fail_job code message details now j = record j {
  status = JobStatus.rejected;
  stage = complete;
  error_code = some code;
  error_message = some message;
  details = details;
  lease_until = none;
  updated_at = now;
}

unfoldable pub fail_version : String → String → ℕ → Version → Version
fail_version code message now v = record v {
  status = rejected;
  error_code = some code;
  error_message = some message;
  updated_at = now;
}

unfoldable pub reject_job : ℕ → String → String → String → Option Value → ℕ → Tx Unit
unfolding fail_job fail_version
reject_job job_id worker code message details now = do
  affected ← query (λ db. count (is_leased job_id worker) db.jobs)
  execute (set_jobs (is_leased job_id worker) (fail_job code message details now))
  ensure (affected == 1) job_lease_lost
  execute (set_version_of job_id (λ v. true) (fail_version code message now))
