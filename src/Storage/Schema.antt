-- ===== src/Storage/Schema.antt =====
-- The tables of migrations/*.sql, a record for each row, and the errors of crates/jit-storage.
-- A UUID is a number, a time stamp a number of microseconds. A column that a CHECK confines to the
-- texts of an enumeration holds a value of it, and a BIGINT confined to no sign a natural number.
use jitforge.Base.{ℕ, ◌-◌, ◌^◌, String, Option, List, []}
use jitforge.Domain.{ToolVersionStatus}
use jitforge.Protocol.{
  Value, IoFormat, ToolExample, JobStatus, JobStage, JobInputKind, JobInputChoice, JobInputAnswer,
  HttpCapability,
}

pub record Tool : Type 0 where
  pub id : ℕ
  pub name : String
  pub latest_revision : ℕ
  pub stable_revision : Option ℕ
  pub created_at : ℕ
  pub updated_at : ℕ

pub record Version : Type 0 where
  pub tool_id : ℕ
  pub revision : ℕ
  pub requested_intent : String
  pub description : String
  pub input_format : IoFormat
  pub output_format : IoFormat
  pub examples : List ToolExample
  pub status : ToolVersionStatus
  pub contract : Option Value
  pub assumptions : Value
  pub artifact_digest : Option String
  pub validation_summary : Option Value
  pub error_code : Option String
  pub error_message : Option String
  pub created_at : ℕ
  pub updated_at : ℕ

pub record Job : Type 0 where
  pub id : ℕ
  pub tool_id : ℕ
  pub revision : ℕ
  pub idempotency_key : String
  pub request_fingerprint : String
  pub input_samples : List String
  pub status : JobStatus
  pub stage : JobStage
  pub attempts : ℕ
  pub available_at : ℕ
  pub lease_until : Option ℕ
  pub worker_id : Option String
  pub error_code : Option String
  pub error_message : Option String
  pub details : Option Value
  pub created_at : ℕ
  pub updated_at : ℕ

pub data InputStatus : Type 0 where
  pending answered : InputStatus

pub record JobInput : Type 0 where
  pub id : ℕ
  pub job_id : ℕ
  pub agent_call_id : String
  pub kind : JobInputKind
  pub prompt : String
  pub choices : List JobInputChoice
  pub context : Value
  pub resume_stage : JobStage
  pub status : InputStatus
  pub answer : Option JobInputAnswer
  pub created_at : ℕ
  pub answered_at : Option ℕ

-- `synthesis_agent_runs`
pub record AgentRun : Type 0 where
  pub job_id : ℕ
  pub engine : String
  pub engine_version : String
  pub checkpoint : Value
  pub trace_bytes : ℕ

-- `synthesis_agent_events`
pub record AgentEvent : Type 0 where
  pub id : ℕ
  pub job_id : ℕ
  pub kind : String
  pub payload : Value
  pub payload_size : ℕ
  pub created_at : ℕ

-- What an archive has of an event: a JSON object of these four fields.
pub record ArchivedEvent : Type 0 where
  pub id : ℕ
  pub kind : String
  pub payload : Value
  pub created_at : ℕ

-- `synthesis_agent_trace_archives`
pub record TraceArchive : Type 0 where
  pub job_id : ℕ
  pub event_count : ℕ
  pub events : List ArchivedEvent

pub record Artifact : Type 0 where
  pub digest : String
  pub relative_path : String
  pub size_bytes : ℕ
  pub manifest : Value
  pub validation_summary : Value

pub data ApprovalStatus : Type 0 where
  active revoked : ApprovalStatus

-- `http_capability_approvals`
pub record Approval : Type 0 where
  pub capability_hash : String
  pub capability : HttpCapability
  pub status : ApprovalStatus
  pub approved_by_job : Option ℕ
  pub approved_at : ℕ
  pub revoked_at : Option ℕ
  pub revoked_reason : Option String

pub record Heartbeat : Type 0 where
  pub worker_id : String
  pub version : String
  pub last_seen_at : ℕ

pub record Db : Type 0 where
  pub tools : List Tool
  pub versions : List Version
  pub jobs : List Job
  pub inputs : List JobInput
  pub runs : List AgentRun
  pub events : List AgentEvent
  pub archives : List TraceArchive
  pub artifacts : List Artifact
  pub approvals : List Approval
  pub heartbeats : List Heartbeat
  pub next_event_id : ℕ

abbrev pub empty_db : Db
empty_db = record {
  tools = [];
  versions = [];
  jobs = [];
  inputs = [];
  runs = [];
  events = [];
  archives = [];
  artifacts = [];
  approvals = [];
  heartbeats = [];
  next_event_id = 1;
}

-- A refusal of the database (UNIQUE, a foreign key, NOT NULL), and `fetch_one` on no row.
pub data DbFault : Type 0 where
  unique_violation foreign_key_violation not_null_violation row_not_found : DbFault

pub data StorageError : Type 0 where
  tool_not_found version_not_found job_not_found invalid_cancellation_reason : StorageError
  job_input_not_found invalid_job_input_answer http_capability_not_found : StorageError
  invalid_revocation_reason idempotency_conflict tool_not_ready : StorageError
  artifact_not_found job_lease_lost : StorageError
  version_not_revocable : ToolVersionStatus → StorageError
  job_not_cancellable : JobStatus → StorageError
  invariant : String → StorageError
  database : DbFault → StorageError

-- The largest `i64`, a PostgreSQL BIGINT.
abbrev pub i64_max : ℕ
i64_max = 2 ^ 63 - 1

abbrev pub i32_max : ℕ
i32_max = 2 ^ 31 - 1

-- `interval '1 second'` in microseconds.
abbrev pub second : ℕ
second = 1_000_000
