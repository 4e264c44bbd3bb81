-- ===== src/Worker/Types.antt =====
-- The agent's workspace and what it is made of: apps/jit-worker/src/jobs.rs and synthesizer.rs.
use jitforge.Base.{ℕ, ℤ, String, Option, none, List, []}
use jitforge.Protocol.{Value, ToolExample, IoFormat, HttpCapability}
use jitforge.Storage.Schema.{StorageError}
use jitforge.Artifact.{ToolContract, ToolTestCase}

pub record SynthesisDraft : Type 0 where
  pub contract : ToolContract
  pub tests : List ToolTestCase
  pub user_test_count : ℕ

pub data TestOrigin : Type 0 where
  user generated input_sample : TestOrigin

pub record ValidationFailure : Type 0 where
  pub test_name : String
  pub test_origin : TestOrigin
  pub diagnostic : String
  pub actual_stdout : String
  pub actual_stderr : String
  pub actual_exit_code : Option ℤ

pub record ResolvedDecision : Type 0 where
  pub key : String
  pub question : String
  pub answer : String

pub record ApprovedExampleCorrection : Type 0 where
  pub example_index : ℕ
  pub original : ToolExample
  pub corrected : ToolExample
  pub reason : String

pub data ContractReviewDecision : Type 0 where
  accept revise reject : ContractReviewDecision

pub record ContractReview : Type 0 where
  pub decision : ContractReviewDecision
  pub reason : String
  pub issues : List String

pub data TestVerdictKind : Type 0 where
  implementation_wrong oracle_wrong ambiguous : TestVerdictKind

pub record TestVerdict : Type 0 where
  pub classification : TestVerdictKind
  pub reason : String
  pub expected_stdout : Option String
  pub expected_exit_code : Option ℤ

pub record ContractReviewRequest : Type 0 where
  pub name : String
  pub intent : String
  pub input_format : IoFormat
  pub output_format : IoFormat
  pub input_samples_without_expected_output : List String
  pub immutable_user_examples : List ToolExample
  pub resolved_decisions : List ResolvedDecision
  pub approved_example_corrections : List ApprovedExampleCorrection
  pub prior_reviews : List ContractReview
  pub proposed_contract : ToolContract
  pub proposed_generated_tests : List ToolTestCase
  pub approved_http_capabilities : List HttpCapability

pub record TestVerificationRequest : Type 0 where
  pub intent : String
  pub input_format : IoFormat
  pub output_format : IoFormat
  pub contract : ToolContract
  pub immutable_user_tests : List ToolTestCase
  pub generated_test : ToolTestCase
  pub current_source : String
  pub failure : ValidationFailure
  pub review_reason : String

pub record AgentMetrics : Type 0 where
  pub turns : ℕ
  pub source_revisions : ℕ
  pub generated_test_corrections : ℕ
  pub probes_run : ℕ
  pub web_searches : ℕ
  pub documents_fetched : ℕ
  pub http_probes : ℕ

pub record ApprovedHttpCapability : Type 0 where
  pub hash : String
  pub capability : HttpCapability

pub record HttpProbeRecord : Type 0 where
  pub capability_hash : String
  pub request_url : String
  pub final_url : String
  pub status : ℕ
  pub content_type : String
  pub body : String

-- The hash sets are lists, of which only membership is read; the maps are in the order of their keys.
pub record AgentWorkspace : Type 0 where
  pub draft : Option SynthesisDraft
  pub source : Option String
  pub current_artifact_digest : Option String
  pub latest_failure : Option ValidationFailure
  pub metrics : AgentMetrics
  pub candidate_digests : List String
  pub candidate_sources : List String
  pub http_capabilities : List ApprovedHttpCapability
  pub http_probe_records : List HttpProbeRecord
  pub resolved_decisions : List (String × ResolvedDecision)
  pub example_corrections : List (ℕ × ApprovedExampleCorrection)
  pub probe_results : List (String × Value)
  pub contract_reviews : List ContractReview

abbrev pub no_metrics : AgentMetrics
no_metrics = record {
  turns = 0;
  source_revisions = 0;
  generated_test_corrections = 0;
  probes_run = 0;
  web_searches = 0;
  documents_fetched = 0;
  http_probes = 0;
}

-- `AgentWorkspace::default()`
abbrev pub empty_workspace : AgentWorkspace
empty_workspace = record {
  draft = none;
  source = none;
  current_artifact_digest = none;
  latest_failure = none;
  metrics = no_metrics;
  candidate_digests = [];
  candidate_sources = [];
  http_capabilities = [];
  http_probe_records = [];
  resolved_decisions = [];
  example_corrections = [];
  probe_results = [];
  contract_reviews = [];
}

-- An error of serde_json stands by its text.
pub data SynthesisError : Type 0 where
  missing_config invalid_config model : String → SynthesisError
  model_timeout invalid_source : SynthesisError
  context_limit : ℕ → SynthesisError
  invalid_action json : String → SynthesisError

-- The errors of the runner, the store, serde_json and the web stand by their texts.
pub data JobError : Type 0 where
  awaiting_input attempts_exhausted : JobError
  agent_aborted agent_limit agent_protocol agent_runtime : String → JobError
  incompatible_checkpoint : String → String → JobError
  synthesis : SynthesisError → JobError
  runner_error artifact_error json_error web_error : String → JobError
  storage_error : StorageError → JobError
