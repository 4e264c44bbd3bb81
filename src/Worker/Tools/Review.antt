-- ===== src/Worker/Tools/Review.antt =====
-- The tools `review_generated_test` and `abort` of apps/jit-worker/src/jobs.rs.
use jitforge.Base.{
  ℕ, zero, suc, String, Bool, true, false, not, ◌&&◌, Option, none, some, List, [], ◌∷◌, ℤ, pos,
  ltb, str_eq, take, drop, find?, same_int, if◌then◌else◌,
}
use jitforge.Text.Format.{◌+++◌}
use jitforge.Protocol.{Value, string, field, text}
use jitforge.Storage.Claim.{ClaimedSynthesisJob}
use jitforge.Artifact.{ToolTestCase}
use jitforge.Worker.Types.{
  AgentWorkspace, SynthesisDraft, TestOrigin, user, generated, input_sample, ValidationFailure,
  TestVerificationRequest, TestVerdict, TestVerdictKind, implementation_wrong, oracle_wrong,
  ambiguous, agent_limit, agent_aborted, synthesis,
}
use jitforge.Worker.Outside.{Outside}
use jitforge.Worker.Act.{Act, ◌>>=◌, ◌>>◌, raise, ensure, require, lift, workspace, modify}
use jitforge.Worker.Errors.{invalid_action}
use jitforge.Worker.Json.{verification_value, verdict_value}
use jitforge.Worker.Rules.{check_json}
use jitforge.Worker.Calls.{
  ToolExecution, event, parse_args, check_reason, call, reply, ok_field, message_field,
}
use jitforge.Worker.Evaluate.Publish.{evaluate_after_mutation}

abbrev pub max_generated_test_corrections : ℕ
max_generated_test_corrections = 3

abbrev pub is_generated : TestOrigin → Bool
is_generated generated = true
is_generated user = false
is_generated input_sample = false

-- The latest failure, if it is that of the generated test of this name.
unfoldable pub reviewable : String → Option ValidationFailure → Option ValidationFailure
reviewable name none = none
reviewable name (some f) =
    if is_generated f.test_origin && str_eq f.test_name name then some f else none

abbrev pub is_named : String → ToolTestCase → Bool
is_named name t = str_eq t.name name

unfoldable pub replace_named : String → String → ℤ → List ToolTestCase → List ToolTestCase
replace_named name stdout exit_code [] = []
replace_named name stdout exit_code (t ∷ ts) =
    let rest = replace_named name stdout exit_code ts in
    if is_named name t
    then record t { expected_stdout = stdout; expected_exit_code = exit_code } ∷ ts
    else t ∷ rest

-- The first test of this name after `skip` tests.
unfoldable pub replace_oracle : ℕ → String → String → ℤ → List ToolTestCase → List ToolTestCase
unfolding replace_named
replace_oracle zero name stdout exit_code ts = replace_named name stdout exit_code ts
replace_oracle (suc n) name stdout exit_code [] = []
replace_oracle (suc n) name stdout exit_code (t ∷ ts) =
    t ∷ replace_oracle n name stdout exit_code ts

unfoldable pub correct_oracle :
    SynthesisDraft → String → String → ℤ → AgentWorkspace → AgentWorkspace
unfolding replace_oracle
correct_oracle draft name stdout exit_code ws = record ws {
  draft = some (record draft {
    tests = replace_oracle draft.user_test_count name stdout exit_code draft.tests;
  });
  metrics = record (ws.metrics) {
    generated_test_corrections = suc ws.metrics.generated_test_corrections;
  };
}

abbrev pub verdict_fields : String → String → String → Act ToolExecution
verdict_fields classification reason message = reply (
    ok_field true (
      field "classification" (string classification)
        (field "reason" (string reason) (message_field message))))

unfoldable pub after_verdict :
    Outside
    → ClaimedSynthesisJob
    → SynthesisDraft
    → ToolTestCase
    → String
    → TestVerdict
    → TestVerdictKind
    → Act ToolExecution
unfolding check_json invalid_action
after_verdict out job draft t name verdict implementation_wrong =
    verdict_fields "implementation_wrong" verdict.reason
      "keep the test unchanged and repair the source"
after_verdict out job draft t name verdict ambiguous =
    verdict_fields "ambiguous" verdict.reason
      "the test was not changed; implement conservatively or abort"
after_verdict out job draft t name verdict oracle_wrong = do
  stdout ←
      require verdict.expected_stdout (invalid_action "verifier omitted corrected expected_stdout")
  exit_code ←
      require verdict.expected_exit_code
        (invalid_action "verifier omitted corrected expected_exit_code")
  lift (λ e. e)
      (check_json out.texts (if same_int exit_code (pos 0) then job.output_format else text) stdout
        (λ e. "verifier returned invalid expected JSON: " +++ e))
  ensure (not (str_eq t.expected_stdout stdout && same_int t.expected_exit_code exit_code))
      (invalid_action "verifier oracle replacement did not change the test")
  modify (correct_oracle draft name stdout exit_code)
  evaluate_after_mutation out job

abbrev pub text_or_empty : Option String → String
text_or_empty none = ""
text_or_empty (some s) = s

unfoldable pub verification_request :
    ClaimedSynthesisJob
    → AgentWorkspace
    → SynthesisDraft
    → ToolTestCase
    → ValidationFailure
    → String
    → TestVerificationRequest
verification_request job ws draft t failure reason = record {
  intent = job.intent;
  input_format = job.input_format;
  output_format = job.output_format;
  contract = draft.contract;
  immutable_user_tests = take draft.user_test_count draft.tests;
  generated_test = t;
  current_source = text_or_empty ws.source;
  failure = failure;
  review_reason = reason;
}

unfoldable pub review_generated_test : Outside → ClaimedSynthesisJob → Value → Act ToolExecution
unfolding reviewable find? verification_request verification_value verdict_value invalid_action
review_generated_test out job arguments = do
  args ← parse_args (out.texts.review_generated_test_args arguments)
  check_reason args.reason
  ws ← workspace
  ensure (ltb ws.metrics.generated_test_corrections max_generated_test_corrections)
      (agent_limit "generated test correction budget exhausted")
  draft ← require ws.draft (invalid_action "contract is missing")
  failure ←
      require (reviewable args.test_name ws.latest_failure)
        (invalid_action "only the latest failing generated test may be reviewed")
  t ←
      require (find? (is_named args.test_name) (drop draft.user_test_count draft.tests))
        (invalid_action "generated test does not exist")
  event out job "verifier_request"
      (verification_value (verification_request job ws draft t failure args.reason))
  verdict ←
      call (λ e. synthesis e)
        (out.verify_generated_test (verification_request job ws draft t failure args.reason))
  event out job "verifier_response" (verdict_value verdict)
  after_verdict out job draft t args.test_name verdict verdict.classification

unfoldable pub abort : Outside → Value → Act ToolExecution
abort out arguments = do
  args ← parse_args (out.texts.abort_args arguments)
  check_reason args.reason
  raise (agent_aborted args.reason)
