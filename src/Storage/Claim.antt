-- ===== src/Storage/Claim.antt =====
-- crates/jit-storage/src/lib.rs: `claim_synthesis_job` and `renew_job_lease`.
pub mod Order
use jitforge.Base.{
  ℕ, ◌+◌, ◌*◌, String, Bool, true, false, not, ◌&&◌, ◌||◌, Option, none, some, List, [], ◌∷◌, leb,
  ltb, ◌==◌, if◌then◌else◌, find?, select, count, ◌≡◌,
}
use jitforge.Domain.{ToolVersionStatus, draft, contract_ready, synthesizing as synthesizing_version}
use jitforge.Protocol.{Value, IoFormat, ToolExample, JobStage, running, contract}
use jitforge.Storage.Schema.{
  Db, Job, Tool, Version, AgentRun, StorageError, database, row_not_found, job_lease_lost, second,
}
use jitforge.Storage.Tx.{Tx, ◌>>=◌, ◌>>◌, pure, query, execute, fetch, ensure}
use jitforge.Storage.Rows.{
  has_id, is_running, is_queued, is_leased, of_job, run_of, set_jobs, set_version_of, find_job,
}

pub record AgentCheckpointRecord : Type 0 where
  pub engine : String
  pub engine_version : String
  pub checkpoint : Value

pub record ClaimedSynthesisJob : Type 0 where
  pub job_id : ℕ
  pub tool_id : ℕ
  pub tool : String
  pub revision : ℕ
  pub intent : String
  pub input_format : IoFormat
  pub output_format : IoFormat
  pub examples : List ToolExample
  pub input_samples : List String
  pub attempts : ℕ
  pub agent_checkpoint : Option AgentCheckpointRecord

-- `lease_until < now()`; NULL is not below anything.
abbrev pub lease_expired : ℕ → Option ℕ → Bool
lease_expired now none = false
lease_expired now (some t) = ltb t now

unfoldable pub claimable : ℕ → Job → Bool
claimable now j =
    is_queued j.status && leb j.available_at now
    || is_running j.status && lease_expired now j.lease_until

-- `ORDER BY created_at LIMIT 1`
abbrev pub older : Job → Option Job → Option Job
older j none = some j
older j (some k) = if leb j.created_at k.created_at then some j else some k

unfoldable pub oldest : List Job → Option Job
oldest [] = none
oldest (j ∷ js) = older j (oldest js)

-- `stage = 'queued'`
abbrev pub is_queued_stage : JobStage → Bool
is_queued_stage JobStage.queued = true
is_queued_stage _ = false

-- The UPDATE of the job that is claimed.
unfoldable pub start_job : String → ℕ → ℕ → Job → Job
start_job worker lease_seconds now j = record j {
  status = running;
  stage = if is_queued j.status && is_queued_stage j.stage then contract else j.stage;
  attempts = j.attempts + (if is_queued j.status && not (is_queued_stage j.stage) then 0 else 1);
  worker_id = some worker;
  lease_until = some (now + lease_seconds * second);
  updated_at = now;
}

-- `v.status IN ('draft', 'contract_ready', 'synthesizing')`
abbrev pub is_startable : ToolVersionStatus → Bool
is_startable draft = true
is_startable contract_ready = true
is_startable synthesizing_version = true
is_startable _ = false

abbrev pub to_checkpoint : Option AgentRun → Option AgentCheckpointRecord
to_checkpoint none = none
to_checkpoint (some r) =
    some
      (record { engine = r.engine; engine_version = r.engine_version; checkpoint = r.checkpoint })

-- The row of the job joined with its tool, its version and, if there is one, its agent run.
abbrev pub claimed_row :
    Option Job → Option Tool → Option Version → Option AgentRun → Option ClaimedSynthesisJob
claimed_row (some j) (some t) (some v) r = some (record {
  job_id = j.id;
  tool_id = j.tool_id;
  tool = t.name;
  revision = j.revision;
  intent = v.requested_intent;
  input_format = v.input_format;
  output_format = v.output_format;
  examples = v.examples;
  input_samples = j.input_samples;
  attempts = j.attempts;
  agent_checkpoint = to_checkpoint r;
})
claimed_row _ _ _ r = none

abbrev pub tool_of : Option Job → List Tool → Option Tool
tool_of none ts = none
tool_of (some j) ts = find? (λ t. t.id == j.tool_id) ts

abbrev pub version_of : Option Job → List Version → Option Version
version_of none vs = none
version_of (some j) vs = find? (of_job j) vs

unfoldable pub find_claimed : ℕ → Db → Option ClaimedSynthesisJob
find_claimed job_id db =
    let j = find_job job_id db in
    claimed_row j (tool_of j db.tools) (version_of j db.versions) (find? (run_of job_id) db.runs)

unfoldable pub claim_candidate : String → ℕ → ℕ → Option Job → Tx (Option ClaimedSynthesisJob)
unfolding start_job
claim_candidate worker lease_seconds now none = pure none
claim_candidate worker lease_seconds now (some c) = do
  execute (set_jobs (has_id c.id) (start_job worker lease_seconds now))
  execute (
      set_version_of c.id (λ v. is_startable v.status)
        (λ v. record v { status = synthesizing_version; updated_at = now }))
  claimed ← fetch (find_claimed c.id) (database row_not_found)
  pure (some claimed)

-- `locked` tells the rows that other transactions hold, which SKIP LOCKED passes over.
unfoldable pub candidate : (ℕ → Bool) → ℕ → Db → Option Job
candidate locked now db = oldest (select (λ j. claimable now j && not (locked j.id)) db.jobs)

unfoldable pub claim_synthesis_job : (ℕ → Bool) → String → ℕ → ℕ → Tx (Option ClaimedSynthesisJob)
unfolding candidate claim_candidate
claim_synthesis_job locked worker lease_seconds now = do
  c ← query (candidate locked now)
  claim_candidate worker lease_seconds now c

unfoldable pub renew_job_lease : ℕ → String → ℕ → ℕ → Tx Unit
renew_job_lease job_id worker lease_seconds now = do
  affected ← query (λ db. count (is_leased job_id worker) db.jobs)
  execute (
      set_jobs (is_leased job_id worker)
        (λ j. record j { lease_until = some (now + lease_seconds * second); updated_at = now }))
  ensure (affected == 1) job_lease_lost
