-- ===== src/Worker/Outside.antt =====
-- What stands around the worker, as parameters: serde_json, sha2, the url crate and UTF-8 decoding in
-- `Texts`; the registry's other users, the clock, the UUIDs, the model, the runner, the artifact store
-- and the web in `Outside`. An answer from outside may depend on the number of the call.
use jitforge.Base.{ℕ, ℤ, String, Option, List, Attempt}
use jitforge.Protocol.{Value, HttpCapability, JobInputChoice}
use jitforge.Storage.Schema.{Db, DbFault}
use jitforge.Storage.Events.{Codec}
use jitforge.Artifact.{ToolTestCase, HttpFixture, NewArtifact, StoredArtifact}
use jitforge.Worker.Types.{
  ContractReviewRequest, ContractReview, TestVerificationRequest, TestVerdict, SynthesisError,
}

-- What the code reads of a `url::Url`.
pub record Url : Type 0 where
  pub scheme : String
  pub host_str : Option String
  pub port_or_known_default : Option ℕ
  pub username : String
  pub password : Option String
  pub fragment : Option String
  pub path : String
  pub query_keys : List String  -- the keys of `query_pairs`
  pub text : String

-- The arguments of the agent's tools.
pub record SubmitContractArgs : Type 0 where
  pub summary : String
  pub assumptions : List String
  pub invariants : List String
  pub tests : List ToolTestCase
  pub reason : String

pub record WriteSourceArgs : Type 0 where
  pub source : String
  pub reason : String

pub record EditSourceArgs : Type 0 where
  pub old_text : String
  pub new_text : String
  pub reason : String

pub record ProbeArgs : Type 0 where
  pub args : List String
  pub stdin : String
  pub reason : String

pub record ReviewGeneratedTestArgs : Type 0 where
  pub test_name : String
  pub reason : String

pub record AbortArgs : Type 0 where
  pub reason : String

pub record RequestClarificationArgs : Type 0 where
  pub decision_key : String
  pub question : String
  pub choices : List JobInputChoice
  pub reason : String

pub record RequestExampleCorrectionArgs : Type 0 where
  pub example_index : ℕ
  pub corrected_input : String
  pub corrected_output : String
  pub reason : String

pub record SearchWebArgs : Type 0 where
  pub query : String
  pub reason : String

pub record FetchDocumentArgs : Type 0 where
  pub url : String
  pub reason : String

pub record RequestHttpCapabilityArgs : Type 0 where
  pub host : String
  pub path_prefix : String
  pub query_keys : List String
  pub purpose : String
  pub reason : String

pub record ReleaseHttpCapabilityArgs : Type 0 where
  pub capability_hash : String
  pub reason : String

pub record ProbeHttpArgs : Type 0 where
  pub url : String
  pub reason : String

-- `parse_args` for each of them, serde_json on texts and bytes, and the texts of other crates' values.
-- A failure is the text of the error.
pub record Texts : Type 0 where
  pub submit_contract_args : Value → Attempt String SubmitContractArgs
  pub write_source_args : Value → Attempt String WriteSourceArgs
  pub edit_source_args : Value → Attempt String EditSourceArgs
  pub probe_args : Value → Attempt String ProbeArgs
  pub review_generated_test_args : Value → Attempt String ReviewGeneratedTestArgs
  pub abort_args : Value → Attempt String AbortArgs
  pub request_clarification_args : Value → Attempt String RequestClarificationArgs
  pub request_example_correction_args : Value → Attempt String RequestExampleCorrectionArgs
  pub search_web_args : Value → Attempt String SearchWebArgs
  pub fetch_document_args : Value → Attempt String FetchDocumentArgs
  pub request_http_capability_args : Value → Attempt String RequestHttpCapabilityArgs
  pub release_http_capability_args : Value → Attempt String ReleaseHttpCapabilityArgs
  pub probe_http_args : Value → Attempt String ProbeHttpArgs
  pub parse_json : String → Attempt String Value
  pub parse_json_bytes : List ℕ → Attempt String Value
  pub from_utf8 : List ℕ → Attempt String String
  pub from_utf8_lossy : List ℕ → String
  pub debug_text : String → String  -- `{:?}`
  pub database_text : DbFault → String  -- of an `sqlx::Error`
  pub fixture_bytes : List HttpFixture → ℕ  -- the length of the fixtures as JSON
  pub parse_url : String → Attempt String Url
  pub parse_domain : String → Option String  -- `url::Host::parse`, if it is a domain

pub record ExecutionOutput : Type 0 where
  pub exit_code : ℤ
  pub stdout : List ℕ
  pub stderr : List ℕ

pub record ProbedResponse : Type 0 where
  pub url : String
  pub status : ℕ
  pub content_type : String
  pub body : List ℕ

pub record Outside : Type 0 where
  pub codec : Codec
  pub texts : Texts
  pub worker_id : String
  pub now : ℕ → ℕ
  pub others : ℕ → Db → Db
  pub uuid : ℕ → ℕ
  pub review_contract : ContractReviewRequest → ℕ → Attempt SynthesisError ContractReview
  pub verify_generated_test : TestVerificationRequest → ℕ → Attempt SynthesisError TestVerdict
  pub put : NewArtifact → ℕ → Attempt String StoredArtifact
  pub build_artifact : String → ℕ → Attempt String String
  pub execute : String → List String → List ℕ → ℕ → Attempt String ExecutionOutput
  pub execute_with_fixtures :
      String → List String → List ℕ → List HttpFixture → ℕ → Attempt String ExecutionOutput
  pub search : String → ℕ → Attempt String Value
  pub fetch_document : String → ℕ → Attempt String Value
  pub probe : String → HttpCapability → ℕ → Attempt String ProbedResponse
