-- ===== src/Storage/Ops.antt =====
-- The registry as one machine: every call of the server and the workers that changes the tables, with
-- its arguments, is an `Op`, and a history of the registry is a list of them with their times. The two
-- statements of `set_job_stage` commit one by one, so each is an operation: others may stand between.
use jitforge.Base.{ℕ, String, Bool, true, false, Option, none, some, List, [], ◌∷◌, ◌≡◌}
use jitforge.Domain.{ToolName}
use jitforge.Protocol.{
  Value, RegistrationRequest, JobStage, JobAnswerRequest, HttpCapability, contract, synthesizing,
  building, validating, repairing,
}
use jitforge.Storage.Schema.{Db}
use jitforge.Storage.Tx.{commit}
use jitforge.Storage.Events.{Codec, append_agent_event}
use jitforge.Storage.Claim.{claim_synthesis_job, renew_job_lease}
use jitforge.Storage.Progress.{
  save_agent_checkpoint, set_stage_of_job, set_version_status, save_contract, PublishedArtifact,
  publish_job, reject_job,
}
use jitforge.Storage.Register.{register}
use jitforge.Storage.Inputs.{cancel_job, NewJobInput, suspend_job_for_input, answer_transaction}
use jitforge.Storage.Versions.{revoke_tool_version}
use jitforge.Storage.Capabilities.{
  approve_http_capability, revoke_http_capability, record_worker_heartbeat,
}
use jitforge.Storage.References.{compact_agent_traces}

pub data Op : Type 0 where
  registers : ToolName → RegistrationRequest → String → ℕ → ℕ → Op
  claims : (ℕ → Bool) → String → ℕ → Op
  renews : ℕ → String → ℕ → Op
  cancels : ℕ → String → Op
  checkpoints : ℕ → String → String → String → Value → Op
  suspends : ℕ → String → NewJobInput → Op
  answers : ℕ → JobAnswerRequest → Op
  appends_event : ℕ → String → String → Value → Op
  compacts : Op
  stages_job : ℕ → String → JobStage → Op
  stages_version : ℕ → JobStage → Op
  saves_contract : ℕ → String → Value → List String → Op
  publishes : ℕ → String → PublishedArtifact → Op
  rejects : ℕ → String → String → String → Option Value → Op
  revokes : ToolName → ℕ → String → Op
  approves_capability : String → HttpCapability → ℕ → Op
  revokes_capability : String → String → Op
  beats : String → String → Op

-- The worker that makes a call on a job that it holds or claims.
abbrev pub actor : Op → Option String
actor (claims locked worker lease) = some worker
actor (renews job worker lease) = some worker
actor (checkpoints job worker engine version value) = some worker
actor (suspends job worker input) = some worker
actor (appends_event job worker kind payload) = some worker
actor (stages_job job worker stage) = some worker
actor (saves_contract job worker terms assumptions) = some worker
actor (publishes job worker artifact) = some worker
actor (rejects job worker code message details) = some worker
actor op = none

-- The tables after an operation at a time; a failed one leaves them as they were.
unfoldable pub apply : Codec → ℕ → Op → Db → Db
apply codec now (registers name request key tool_id job_id) =
    commit (register codec name request key tool_id job_id now)
apply codec now (claims locked worker lease) = commit (claim_synthesis_job locked worker lease now)
apply codec now (renews job worker lease) = commit (renew_job_lease job worker lease now)
apply codec now (cancels job reason) = commit (cancel_job codec job reason now)
apply codec now (checkpoints job worker engine version value) =
    commit (save_agent_checkpoint job worker engine version value)
apply codec now (suspends job worker input) =
    commit (suspend_job_for_input codec job worker input now)
apply codec now (answers job request) = commit (answer_transaction codec job request now)
apply codec now (appends_event job worker kind payload) =
    commit (append_agent_event codec job worker kind payload now)
apply codec now compacts = commit (compact_agent_traces now)
apply codec now (stages_job job worker stage) = commit (set_stage_of_job job worker stage now)
apply codec now (stages_version job stage) = commit (set_version_status job stage now)
apply codec now (saves_contract job worker terms assumptions) =
    commit (save_contract job worker terms assumptions now)
apply codec now (publishes job worker artifact) = commit (publish_job codec job worker artifact now)
apply codec now (rejects job worker code message details) =
    commit (reject_job job worker code message details now)
apply codec now (revokes name revision reason) =
    commit (revoke_tool_version name revision reason now)
apply codec now (approves_capability hash capability job) =
    commit (approve_http_capability hash capability job now)
apply codec now (revokes_capability hash reason) = commit (revoke_http_capability hash reason now)
apply codec now (beats worker version) = commit (record_worker_heartbeat worker version now)

unfoldable pub run : Codec → List (ℕ × Op) → Db → Db
run codec [] db = db
run codec ((now, op) ∷ rest) db = run codec rest (apply codec now op db)

-- The stages in which a job is worked on.
abbrev pub is_working : JobStage → Bool
is_working contract = true
is_working synthesizing = true
is_working building = true
is_working validating = true
is_working repairing = true
is_working _ = false

-- What jobs.rs passes to `set_job_stage` is always such a stage.
abbrev pub StagesWork : Op → Type 0
StagesWork (stages_job job worker stage) = is_working stage ≡ true
StagesWork op = Unit
