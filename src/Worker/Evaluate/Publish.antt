-- ===== src/Worker/Evaluate/Publish.antt =====
-- apps/jit-worker/src/jobs.rs: a change of the source or of a test leads to a new candidate, which is
-- stored, built, run on the samples and the tests, and published if all pass.
use jitforge.Base.{
  ◌-◌, ◌^◌, min, String, false, Option, none, some, List, [], ◌∷◌, length, Attempt, done, failed,
}
use jitforge.Protocol.{end, field, building, validating}
use jitforge.Storage.Claim.{ClaimedSynthesisJob}
use jitforge.Storage.Progress.{PublishedArtifact, publish_job}
use jitforge.Artifact.{NewArtifact, StoredArtifact, HttpCapabilityGrant}
use jitforge.Worker.Types.{
  AgentWorkspace, AgentMetrics, ApprovedHttpCapability, SynthesisDraft, ValidationFailure,
  runner_error, artifact_error,
}
use jitforge.Worker.Outside.{Outside}
use jitforge.Worker.Act.{Act, ◌>>=◌, ◌>>◌, pure, require, workspace, modify, registry}
use jitforge.Worker.Errors.{invalid_action}
use jitforge.Worker.Json.{contract_value, manifest_value, validation_value, failure_value, strings}
use jitforge.Worker.Rules.Urls.{probe_records_to_fixtures}
use jitforge.Worker.Calls.{
  ToolExecution, published, set_job_stage, call, reply, ok_field, insert_new,
}
use jitforge.Worker.Evaluate.Runs.{unless_failed, validate_tests, validate_input_samples}

unfoldable pub grants : List ApprovedHttpCapability → List HttpCapabilityGrant
grants [] = []
grants (a ∷ as') = record { approval_hash = a.hash; capability = a.capability } ∷ grants as'

unfoldable pub candidate :
    ClaimedSynthesisJob
    → SynthesisDraft
    → String
    → AgentMetrics
    → List ApprovedHttpCapability
    → String
    → NewArtifact
unfolding grants
candidate job draft source metrics approved now = record {
  input_format = job.input_format;
  output_format = job.output_format;
  contract = draft.contract;
  source = source;
  tests = draft.tests;
  validation = record {
    tests_total = length draft.tests;
    tests_passed = length draft.tests;
    input_samples_total = length job.input_samples;
    input_samples_passed = length job.input_samples;
    repair_rounds = metrics.source_revisions - 1;
    agent_turns = metrics.turns;
    generated_test_corrections = metrics.generated_test_corrections;
    probes_run = metrics.probes_run;
    validated_at = now;
  };
  http_capabilities = grants approved;
}

unfoldable pub store_candidate :
    Outside → ClaimedSynthesisJob → SynthesisDraft → String → AgentWorkspace → Act StoredArtifact
unfolding candidate
store_candidate out job draft source ws =
    call (λ e. artifact_error e)
      (λ n.
        out.put
          (candidate job draft source ws.metrics ws.http_capabilities
            (out.codec.rfc3339 (out.now n)))
          n)

unfoldable pub publication : StoredArtifact → PublishedArtifact
unfolding manifest_value contract_value validation_value
publication a = record {
  digest = a.digest;
  relative_path = a.relative_path;
  size_bytes = min a.size_bytes (2 ^ 63 - 1);
  manifest = manifest_value a.bundle.manifest;
  contract = contract_value a.bundle.contract;
  assumptions = strings a.bundle.contract.assumptions;
  validation_summary = validation_value a.bundle.validation;
}

unfoldable pub publish : Outside → ClaimedSynthesisJob → StoredArtifact → Act Unit
unfolding publication
publish out job artifact =
    registry out (publish_job out.codec job.job_id out.worker_id (publication artifact))

unfoldable pub remember_candidate : StoredArtifact → AgentWorkspace → AgentWorkspace
unfolding insert_new
remember_candidate a ws = record ws {
  current_artifact_digest = some a.digest;
  candidate_digests = insert_new a.digest ws.candidate_digests;
  candidate_sources = insert_new a.bundle.manifest.source_sha256 ws.candidate_sources;
}

unfoldable pub set_failure : Option ValidationFailure → AgentWorkspace → AgentWorkspace
set_failure f ws = record ws { latest_failure = f }

-- The tests are run once the samples have passed.
unfoldable pub validate :
    Outside
    → ClaimedSynthesisJob
    → SynthesisDraft
    → AgentWorkspace
    → String
    → Act (Attempt ValidationFailure Unit)
unfolding probe_records_to_fixtures
validate out job draft ws digest =
    validate_input_samples out digest job.output_format 0 job.input_samples
      (probe_records_to_fixtures ws.http_probe_records)
    >>= λ sampled.
        unless_failed sampled
          (validate_tests out digest job.output_format 0 draft.tests draft.user_test_count)

unfoldable pub conclude :
    Outside
    → ClaimedSynthesisJob
    → StoredArtifact
    → Attempt ValidationFailure Unit
    → Act ToolExecution
unfolding failure_value
conclude out job artifact (done u) = do
  modify (set_failure none)
  publish out job artifact
  pure (published artifact.digest)
conclude out job artifact (failed f) = do
  modify (set_failure (some f))
  reply (ok_field false (field "validation_failed" (failure_value f) end))

unfoldable pub evaluate_after_mutation : Outside → ClaimedSynthesisJob → Act ToolExecution
unfolding invalid_action
evaluate_after_mutation out job = do
  ws ← workspace
  draft ← require ws.draft (invalid_action "contract is missing")
  source ← require ws.source (invalid_action "source is missing")
  set_job_stage out job building
  artifact ← store_candidate out job draft source ws
  modify (remember_candidate artifact)
  image ← call (λ e. runner_error e) (out.build_artifact artifact.digest)
  set_job_stage out job validating
  validated ← validate out job draft ws artifact.digest
  conclude out job artifact validated
