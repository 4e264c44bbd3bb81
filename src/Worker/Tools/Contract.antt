-- ===== src/Worker/Tools/Contract.antt =====
-- The tool `submit_contract` of apps/jit-worker/src/jobs.rs.
use jitforge.Base.{false, true, none, some, List, [], ◌∷◌, ◌++◌, length, drop, values}
use jitforge.Text.Format.{◌+++◌}
use jitforge.Protocol.{Value, unsigned, array, object, end, field, HttpCapability}
use jitforge.Storage.Claim.{ClaimedSynthesisJob}
use jitforge.Storage.Progress.{save_contract}
use jitforge.Worker.Types.{
  AgentWorkspace, ApprovedHttpCapability, SynthesisDraft, ContractReview, ContractReviewRequest,
  ContractReviewDecision, accept, revise, reject, synthesis, agent_aborted,
}
use jitforge.Worker.Outside.{Outside}
use jitforge.Worker.Act.{Act, ◌>>=◌, ◌>>◌, raise, lift, workspace, modify, registry}
use jitforge.Worker.Json.{items_of, contract_value, test_value, review_value}
use jitforge.Worker.Rules.Contract.{validate_contract}
use jitforge.Worker.Calls.{
  ToolExecution, event, parse_args, check_reason, call, reply, ok_field, message_field, join,
}

unfoldable pub capabilities_of : List ApprovedHttpCapability → List HttpCapability
capabilities_of [] = []
capabilities_of (a ∷ as') = a.capability ∷ capabilities_of as'

unfoldable pub review_request :
    ClaimedSynthesisJob → AgentWorkspace → SynthesisDraft → ContractReviewRequest
unfolding capabilities_of values
review_request job ws draft = record {
  name = job.tool;
  intent = job.intent;
  input_format = job.input_format;
  output_format = job.output_format;
  input_samples_without_expected_output = job.input_samples;
  immutable_user_examples = job.examples;
  resolved_decisions = values ws.resolved_decisions;
  approved_example_corrections = values ws.example_corrections;
  prior_reviews = ws.contract_reviews;
  proposed_contract = draft.contract;
  proposed_generated_tests = drop draft.user_test_count draft.tests;
  approved_http_capabilities = capabilities_of ws.http_capabilities;
}

unfoldable pub request_summary : ContractReviewRequest → Value
unfolding contract_value test_value items_of
request_summary r = object (
    field "contract" (contract_value r.proposed_contract) (
      field "generated_tests" (array (items_of test_value r.proposed_generated_tests)) (
        field "input_sample_count" (unsigned (length r.input_samples_without_expected_output))
          (field "user_example_count" (unsigned (length r.immutable_user_examples)) end))))

unfoldable pub add_review : ContractReview → AgentWorkspace → AgentWorkspace
add_review r ws = record ws { contract_reviews = ws.contract_reviews ++ r ∷ [] }

unfoldable pub set_draft : SynthesisDraft → AgentWorkspace → AgentWorkspace
set_draft d ws = record ws { draft = some d; latest_failure = none }

unfoldable pub after_review :
    Outside
    → ClaimedSynthesisJob
    → SynthesisDraft
    → ContractReview
    → ContractReviewDecision
    → Act ToolExecution
unfolding contract_value review_value join
after_review out job draft review accept = do
  registry out (
      save_contract job.job_id out.worker_id (contract_value draft.contract)
        draft.contract.assumptions)
  modify (set_draft draft)
  reply (
      ok_field true
        (message_field "contract independently reviewed and accepted; write the initial source"))
after_review out job draft review revise = reply (
    ok_field false (
      field "contract_review" (review_value review) (
        message_field
          "independent review requires a corrected contract and test plan; resubmit the complete contract")))
after_review out job draft review reject = raise (
    agent_aborted (
      "contract review rejected the request: "
      +++ review.reason
      +++ "; "
      +++ join "; " review.issues))

unfoldable pub submit_contract : Outside → ClaimedSynthesisJob → Value → Act ToolExecution
unfolding review_request request_summary review_value
submit_contract out job arguments = do
  args ← parse_args (out.texts.submit_contract_args arguments)
  check_reason args.reason
  ws ← workspace
  draft ← lift (λ e. e) (validate_contract out.texts args job ws)
  event out job "contract_review_request" (request_summary (review_request job ws draft))
  review ← call (λ e. synthesis e) (out.review_contract (review_request job ws draft))
  modify (add_review review)
  event out job "contract_review_response" (review_value review)
  after_review out job draft review review.decision
