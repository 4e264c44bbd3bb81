-- ===== src/Artifact.antt =====
-- crates/jit-artifact/src/lib.rs: contracts, tests, and the artifact that holds them.
use jitforge.Base.{ℕ, ℤ, String, List}
use jitforge.Protocol.{IoFormat, HttpCapability}

pub record ToolContract : Type 0 where
  pub summary : String
  pub assumptions : List String
  pub invariants : List String

pub record HttpFixture : Type 0 where
  pub request_url : String
  pub response_url : String
  pub status : ℕ  -- u16
  pub content_type : String
  pub body : String

pub record ToolTestCase : Type 0 where
  pub name : String
  pub args : List String
  pub stdin : String
  pub expected_stdout : String
  pub expected_exit_code : ℤ
  pub http_fixtures : List HttpFixture

pub record ValidationSummary : Type 0 where
  pub tests_total : ℕ
  pub tests_passed : ℕ
  pub input_samples_total : ℕ
  pub input_samples_passed : ℕ
  pub repair_rounds : ℕ
  pub agent_turns : ℕ
  pub generated_test_corrections : ℕ
  pub probes_run : ℕ
  pub validated_at : String

-- crates/jit-protocol/src/lib.rs
pub record HttpCapabilityGrant : Type 0 where
  pub approval_hash : String
  pub capability : HttpCapability

pub record ArtifactManifest : Type 0 where
  pub format_version : ℕ
  pub runtime : String
  pub input_format : IoFormat
  pub output_format : IoFormat
  pub source_sha256 : String
  pub http_capabilities : List HttpCapabilityGrant

pub record ArtifactBundle : Type 0 where
  pub manifest : ArtifactManifest
  pub contract : ToolContract
  pub source : String
  pub tests : List ToolTestCase
  pub validation : ValidationSummary

pub record NewArtifact : Type 0 where
  pub input_format : IoFormat
  pub output_format : IoFormat
  pub contract : ToolContract
  pub source : String
  pub tests : List ToolTestCase
  pub validation : ValidationSummary
  pub http_capabilities : List HttpCapabilityGrant

pub record StoredArtifact : Type 0 where
  pub digest : String
  pub relative_path : String
  pub directory : String
  pub size_bytes : ℕ
  pub bundle : ArtifactBundle
