-- ===== src/Examples.antt =====
-- Concrete inputs: a codec, a registration, tables with one job, and a history of one job.
pub mod Jobs
pub mod Records
pub mod Texts
pub mod Worker
pub mod Reviews
pub mod Web
use jitforge.Base.{
  ℕ, String, Bool, true, false, Option, none, some, List, [], ◌∷◌, str_eq, ◌==◌, if◌then◌else◌,
}
use jitforge.Domain.{ToolName, ready as ready_version, draft}
use jitforge.Protocol.{
  Value, null, string, array, nil, object, end, IoFormat, RegistrationRequest, clarification,
  JobInputAnswer, JobAnswerRequest, running, ready, complete, JobStage,
}
use jitforge.Storage.Schema.{Db, Tool, Version, Job, AgentRun, AgentEvent, empty_db}
use jitforge.Storage.Events.{Codec}
use jitforge.Storage.Inputs.{NewJobInput}
use jitforge.Storage.Progress.{PublishedArtifact}

abbrev pub encoded : Value → String
encoded (string s) = s
encoded v = "{}"

abbrev pub plain : Codec
plain = record {
  encode = encoded;
  encode_request = λ r. r.intent;
  sha256_hex = λ s. s;
  uuid_text = λ n. if n == 1 then "1" else if n == 2 then "2" else "3";
  parse_uuid = λ s. if str_eq s "2" then some 2 else none;
  rfc3339 = λ t. "2024-01-01T00:00:00Z";
}

abbrev pub slug : ToolName
slug = record { text = "slug" }

abbrev pub slug_request : RegistrationRequest
slug_request = record {
  intent = "turn a title into a slug";
  input_format = IoFormat.text;
  output_format = IoFormat.text;
  examples = [];
  input_samples = "Hello World" ∷ [];
}

abbrev pub question : NewJobInput
question = record {
  id = 2;
  agent_call_id = "call";
  kind = clarification;
  prompt = "Which separator?";
  choices = [];
  context = null;
}

abbrev pub reply : JobAnswerRequest
reply = record { input_id = "2"; answer = JobInputAnswer.text "a dash" }

abbrev pub built : PublishedArtifact
built = record {
  digest = "d1";
  relative_path = "artifacts/d1";
  size_bytes = 10;
  manifest = object end;
  contract = object end;
  assumptions = array nil;
  validation_summary = object end;
}

-- A job that the worker `a` has leased until 900.
abbrev pub held_job : Job
held_job = record {
  id = 1;
  tool_id = 7;
  revision = 1;
  idempotency_key = "key";
  request_fingerprint = "f";
  input_samples = [];
  status = running;
  stage = JobStage.building;
  attempts = 1;
  available_at = 100;
  lease_until = some 900;
  worker_id = some "a";
  error_code = none;
  error_message = none;
  details = none;
  created_at = 100;
  updated_at = 200;
}

abbrev pub published_job : Job
published_job = record held_job { status = ready; stage = complete; lease_until = none }

abbrev pub slug_tool : Tool
slug_tool = record {
  id = 7;
  name = "slug";
  latest_revision = 1;
  stable_revision = some 1;
  created_at = 100;
  updated_at = 200;
}

abbrev pub slug_version : Version
slug_version = record {
  tool_id = 7;
  revision = 1;
  requested_intent = "turn a title into a slug";
  description = "slugs";
  input_format = IoFormat.text;
  output_format = IoFormat.text;
  examples = [];
  status = ready_version;
  contract = none;
  assumptions = array nil;
  artifact_digest = some "d1";
  validation_summary = none;
  error_code = none;
  error_message = none;
  created_at = 100;
  updated_at = 200;
}

abbrev pub slug_run : AgentRun
slug_run = record {
  job_id = 1;
  engine = "agent";
  engine_version = "1";
  checkpoint = object end;
  trace_bytes = 0;
}

abbrev pub with_job : Job → Db
with_job j = record empty_db {
  tools = slug_tool ∷ [];
  versions = slug_version ∷ [];
  jobs = j ∷ [];
  runs = slug_run ∷ [];
}

-- The same without the agent run.
abbrev pub without_run : Db
without_run = record empty_db {
  tools = slug_tool ∷ [];
  versions = slug_version ∷ [];
  jobs = held_job ∷ [];
}
