-- ===== src/Worker/Tools/Kept.antt =====
-- The changes that the agent's tools make to the workspace, each with what the tool has tested before it:
-- an interface that an invariant of the workspace fills.
pub mod Shared
pub mod Drafts
pub mod Answers
pub mod All
use jitforge.Base.{ℕ, ◌-◌, String, true, none, some, ltb, length, ◌≡◌, done, get_index, ℤ, Option}
use jitforge.Protocol.{Value, HttpCapability}
use jitforge.Storage.Claim.{ClaimedSynthesisJob}
use jitforge.Artifact.{StoredArtifact}
use jitforge.Worker.Types.{
  AgentWorkspace, SynthesisDraft, ValidationFailure, ContractReview, ResolvedDecision,
  HttpProbeRecord, ApprovedExampleCorrection,
}
use jitforge.Worker.Outside.{Outside, SubmitContractArgs, RequestExampleCorrectionArgs}
use jitforge.Worker.Rules.{validate_example_correction}
use jitforge.Worker.Rules.Contract.{validate_contract, apply_example_correction}
use jitforge.Worker.Evaluate.Publish.{remember_candidate, set_failure}
use jitforge.Worker.Tools.Contract.{add_review, set_draft}
use jitforge.Worker.Tools.Source.{
  revise_source, count_probe, keep_probe, max_source_revisions, max_probes,
}
use jitforge.Worker.Tools.Review.{correct_oracle, max_generated_test_corrections}
use jitforge.Worker.Tools.Asking.{keep_decision}
use jitforge.Worker.Tools.Web.{count_search, count_document, max_web_searches, max_document_fetches}
use jitforge.Worker.Tools.Http.{
  add_capability, remove_capability, count_http_probe, keep_http_probe, max_http_capabilities,
  max_http_probes,
}

pub record Kept (out : Outside) (job : ClaimedSynthesisJob) (R : AgentWorkspace → Type 0)
    : Type 0 where
  pub candidate : (a : StoredArtifact) (ws : AgentWorkspace) → R ws → R (remember_candidate a ws)
  pub failure : (f : Option ValidationFailure) (ws : AgentWorkspace) → R ws → R (set_failure f ws)
  pub review : (r : ContractReview) (ws : AgentWorkspace) → R ws → R (add_review r ws)
  pub draft :
      (args : SubmitContractArgs) (d : SynthesisDraft) (r : ContractReview) (ws : AgentWorkspace)
      → validate_contract out.texts args job ws ≡ done d
      → R ws
      → R (set_draft d (add_review r ws))
  pub source :
      (s : String) (ws : AgentWorkspace)
      → ltb ws.metrics.source_revisions max_source_revisions ≡ true
      → R ws
      → R (revise_source s ws)
  pub probing :
      (ws : AgentWorkspace)
      → ltb ws.metrics.probes_run max_probes ≡ true
      → R ws
      → R (count_probe ws)
  pub probed :
      (fingerprint : String) (v : Value) (ws : AgentWorkspace)
      → R ws
      → R (keep_probe fingerprint v ws)
  pub oracle :
      (d : SynthesisDraft) (name stdout : String) (code : ℤ) (ws : AgentWorkspace)
      → ltb ws.metrics.generated_test_corrections max_generated_test_corrections ≡ true
      → ws.draft ≡ some d
      → R ws
      → R (correct_oracle d name stdout code ws)
  pub decision : (d : ResolvedDecision) (ws : AgentWorkspace) → R ws → R (keep_decision d ws)
  pub correction :
      (args : RequestExampleCorrectionArgs) (c : ApprovedExampleCorrection)
      (ws ws' : AgentWorkspace)
      → validate_example_correction out.texts job args ≡ done c
      → apply_example_correction c ws ≡ done ws'
      → R ws
      → R ws'
  pub searching :
      (ws : AgentWorkspace)
      → ltb ws.metrics.web_searches max_web_searches ≡ true
      → R ws
      → R (count_search ws)
  pub fetching :
      (ws : AgentWorkspace)
      → ltb ws.metrics.documents_fetched max_document_fetches ≡ true
      → R ws
      → R (count_document ws)
  pub capability :
      (hash : String) (c : HttpCapability) (ws : AgentWorkspace)
      → ltb (length ws.http_capabilities) max_http_capabilities ≡ true
      → R ws
      → R (add_capability hash c ws)
  pub release : (hash : String) (ws : AgentWorkspace) → R ws → R (remove_capability hash ws)
  pub probing_http :
      (ws : AgentWorkspace)
      → ltb ws.metrics.http_probes max_http_probes ≡ true
      → R ws
      → R (count_http_probe ws)
  pub probed_http : (p : HttpProbeRecord) (ws : AgentWorkspace) → R ws → R (keep_http_probe p ws)
