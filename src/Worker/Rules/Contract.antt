-- ===== src/Worker/Rules/Contract.antt =====
-- apps/jit-worker/src/jobs.rs: the draft that a submitted contract becomes, with the registered examples
-- as its first tests, and the correction of one of them.
use Prim.Native.Nat.{zero, suc}
use jitforge.Base.{
  ℕ, ◌+◌, ◌-◌, ◌*◌, String, len, Bool, not, ◌||◌, Option, none, some, List, [], ◌∷◌, ◌++◌, pos, ltb,
  any, length, take, if◌then◌else◌, get_index, insert_index, Attempt, done, failed, ◌>>=◌, ◌>>◌,
  check, same_int, ◌≡◌, refl,
}
use jitforge.Text.{is_empty_text, trim}
use jitforge.Text.Format.{◌+++◌, decimal}
use jitforge.Protocol.{IoFormat, text, ToolExample, string, object, end, field}
use jitforge.Storage.Claim.{ClaimedSynthesisJob}
use jitforge.Storage.Events.{Codec}
use jitforge.Artifact.{ToolTestCase, HttpFixture}
use jitforge.Worker.Types.{
  JobError, SynthesisDraft, ApprovedExampleCorrection, AgentWorkspace, ApprovedHttpCapability,
}
use jitforge.Worker.Outside.{Texts, SubmitContractArgs, ProbeArgs}
use jitforge.Worker.Errors.{invalid_action, take_chars}
use jitforge.Worker.Json.{strings}
use jitforge.Worker.Rules.{check_json}
use jitforge.Worker.Rules.Urls.{validate_http_fixtures, probe_records_to_fixtures}

abbrev pub corrected_or : ToolExample → Option ApprovedExampleCorrection → ToolExample
corrected_or example none = example
corrected_or example (some c) = c.corrected

-- The examples from an index on, each replaced by its approved correction.
unfoldable pub effective_examples :
    ℕ → List ToolExample → List (ℕ × ApprovedExampleCorrection) → List ToolExample
effective_examples i [] corrections = []
effective_examples i (e ∷ es) corrections =
    corrected_or e (get_index i corrections) ∷ effective_examples (suc i) es corrections

unfoldable pub user_test : List HttpFixture → ℕ → ToolExample → ToolTestCase
unfolding decimal
user_test fixtures i e = record {
  name = "user-example-" +++ decimal (i + 1);
  args = [];
  stdin = e.input;
  expected_stdout = e.output;
  expected_exit_code = pos 0;
  http_fixtures = fixtures;
}

unfoldable pub user_tests : List HttpFixture → ℕ → List ToolExample → List ToolTestCase
unfolding user_test
user_tests fixtures i [] = []
user_tests fixtures i (e ∷ es) = user_test fixtures i e ∷ user_tests fixtures (suc i) es

abbrev pub name_or_test : String → String
name_or_test s = if is_empty_text s then "test" else s

unfoldable pub generated_tests : ℕ → List ToolTestCase → List ToolTestCase
unfolding decimal take_chars
generated_tests i [] = []
generated_tests i (t ∷ ts) =
    record t {
      name =
          "generated-" +++ decimal (i + 1) +++ "-" +++ name_or_test (take_chars 96 (trim t.name));
    }
    ∷ generated_tests (suc i) ts

unfoldable pub test_exceeds : ToolTestCase → Bool
test_exceeds t =
    is_empty_text t.name
    || ltb 128 (len t.name)
    || ltb (1024 * 1024) (len t.stdin)
    || ltb (1024 * 1024) (len t.expected_stdout)
    || ltb 32 (length t.args)
    || any (λ a. ltb 4096 (len a)) t.args

-- A JSON output is expected of a run that succeeds.
abbrev pub expected_format : ToolTestCase → IoFormat → IoFormat
expected_format t format = if same_int t.expected_exit_code (pos 0) then format else text

unfoldable pub validate_test :
    Texts → ToolTestCase → IoFormat → List ApprovedHttpCapability → Attempt JobError Unit
unfolding test_exceeds check_json validate_http_fixtures invalid_action
validate_test texts t format approved = do
  check (not (test_exceeds t)) (invalid_action "generated test exceeds protocol limits")
  check_json texts (expected_format t format) t.expected_stdout
      (λ e. "generated test has invalid JSON: " +++ e)
  validate_http_fixtures texts t.http_fixtures approved

unfoldable pub validate_all :
    Texts → List ToolTestCase → IoFormat → List ApprovedHttpCapability → Attempt JobError Unit
unfolding validate_test
validate_all texts [] format approved = done tt
validate_all texts (t ∷ ts) format approved =
    validate_test texts t format approved >> validate_all texts ts format approved

unfoldable pub draft_of : SubmitContractArgs → ClaimedSynthesisJob → AgentWorkspace → SynthesisDraft
unfolding effective_examples user_tests generated_tests probe_records_to_fixtures
draft_of args job ws =
    let users : List ToolTestCase =
      user_tests (probe_records_to_fixtures ws.http_probe_records) 0
        (effective_examples 0 job.examples ws.example_corrections) in
    record {
      contract = record {
        summary = args.summary;
        assumptions = args.assumptions;
        invariants = args.invariants;
      };
      tests = users ++ generated_tests 0 (take 12 args.tests);
      user_test_count = length users;
    }

unfoldable pub check_contract :
    Texts
    → SubmitContractArgs
    → ClaimedSynthesisJob
    → AgentWorkspace
    → SynthesisDraft
    → Attempt JobError Unit
unfolding validate_all invalid_action
check_contract texts args job ws draft = do
  check (not (is_empty_text (trim args.summary) || ltb 4096 (len args.summary)))
      (invalid_action "contract summary must contain 1-4096 bytes")
  check
      (not (
        ltb 32 (length args.assumptions)
        || ltb 32 (length args.invariants)
        || any (λ s. ltb 4096 (len s)) (args.assumptions ++ args.invariants)))
      (invalid_action "contract assumptions or invariants exceed limits")
  check (ltb 0 (length draft.tests)) (invalid_action "contract must contain at least one test")
  validate_all texts draft.tests job.output_format ws.http_capabilities

unfoldable pub validate_contract :
    Texts
    → SubmitContractArgs
    → ClaimedSynthesisJob
    → AgentWorkspace
    → Attempt JobError SynthesisDraft
unfolding draft_of check_contract
validate_contract texts args job ws =
    check_contract texts args job ws (draft_of args job ws) >>= λ u. done (draft_of args job ws)

-- `tests[index].stdin = …; tests[index].expected_stdout = …;`
unfoldable pub correct_test : ℕ → ToolExample → List ToolTestCase → List ToolTestCase
correct_test n e [] = []
correct_test zero e (t ∷ ts) = record t { stdin = e.input; expected_stdout = e.output } ∷ ts
correct_test (suc n) e (t ∷ ts) = t ∷ correct_test n e ts

unfoldable pub correct_draft :
    ApprovedExampleCorrection → Option SynthesisDraft → Attempt JobError (Option SynthesisDraft)
unfolding correct_test invalid_action
correct_draft c none = done none
correct_draft c (some d) = do
  check (ltb (c.example_index - 1) d.user_test_count)
      (invalid_action "approved correction does not identify a user example test")
  done (some (record d { tests = correct_test (c.example_index - 1) c.corrected d.tests }))

abbrev pub corrected_workspace :
    ApprovedExampleCorrection → Option SynthesisDraft → AgentWorkspace → AgentWorkspace
corrected_workspace c draft ws = record ws {
  draft = draft;
  example_corrections = insert_index (c.example_index - 1) c ws.example_corrections;
  latest_failure = none;
}

unfoldable pub apply_example_correction :
    ApprovedExampleCorrection → AgentWorkspace → Attempt JobError AgentWorkspace
unfolding correct_draft
apply_example_correction c ws = do
  draft ← correct_draft c ws.draft
  done (corrected_workspace c draft ws)

-- What an applied correction leaves.
pub apply_example_correction_lem :
    (c : ApprovedExampleCorrection) (ws ws' : AgentWorkspace)
    → apply_example_correction c ws ≡ done ws'
    → (draft : Option SynthesisDraft) × (correct_draft c ws.draft ≡ done draft)
      × (corrected_workspace c draft ws ≡ ws')
unfolding apply_example_correction
apply_example_correction_lem c ws ws' e = go (correct_draft c ws.draft) refl e
  where
    go :
        (r : Attempt JobError (Option SynthesisDraft))
        → correct_draft c ws.draft ≡ r
        → (r >>= λ d. done (corrected_workspace c d ws)) ≡ done ws'
        → (draft : Option SynthesisDraft) × (correct_draft c ws.draft ≡ done draft)
          × (corrected_workspace c draft ws ≡ ws')
    go (done d) q e = (d, q, cc)
    go (failed x) q e = cc

unfoldable pub probe_fingerprint : Codec → String → ProbeArgs → String
probe_fingerprint codec digest args =
    "sha256:"
    +++ codec.sha256_hex (
        codec.encode (
          object (
            field "artifact_digest" (string digest)
              (field "args" (strings args.args) (field "stdin" (string args.stdin) end)))))
