-- ===== src/Worker/Tools/Asking.antt =====
-- The tools of apps/jit-worker/src/jobs.rs that wait for the user: `request_clarification` and
-- `request_example_correction`.
use jitforge.Base.{
  is_some, ◌-◌, String, Bool, true, false, ◌&&◌, Option, none, some, List, [], str_eq, get_index,
  get_by, insert_by, if◌then◌else◌,
}
use jitforge.Text.Format.{◌+++◌, decimal}
use jitforge.Text.Bytes.{text_before}
use jitforge.Protocol.{
  Value, string, boolean, object, Fields, end, field, JobInputKind, clarification,
  example_correction, JobInputAnswer, approve, reject, JobInputChoice,
}
use jitforge.Storage.Claim.{ClaimedSynthesisJob}
use jitforge.Storage.Inputs.{suspend_job_for_input, answered_job_input}
use jitforge.Worker.Types.{
  AgentWorkspace, ResolvedDecision, ApprovedExampleCorrection, awaiting_input,
}
use jitforge.Worker.Outside.{Outside, RequestClarificationArgs}
use jitforge.Worker.Act.{Act, ◌>>=◌, ◌>>◌, raise, ensure, lift, workspace, modify, ask, registry}
use jitforge.Worker.Errors.{invalid_action}
use jitforge.Worker.Json.{decision_value, correction_value}
use jitforge.Worker.Rules.{validate_clarification, validate_example_correction, same_example}
use jitforge.Worker.Rules.Contract.{apply_example_correction}
use jitforge.Worker.Calls.{ToolCall, ToolExecution, parse_args, check_reason, reply, ok_field}
use jitforge.Worker.Evaluate.Publish.{evaluate_after_mutation}

-- The job waits with this input, and the task ends here.
unfoldable pub suspend_for :
    Outside
    → ClaimedSynthesisJob
    → ToolCall
    → JobInputKind
    → String
    → List JobInputChoice
    → Value
    → Act ToolExecution
suspend_for out job tool_call kind prompt choices context = do
  id ← ask out.uuid
  input ← registry out (
      suspend_job_for_input out.codec job.job_id out.worker_id (record {
        id = id;
        agent_call_id = tool_call.id;
        kind = kind;
        prompt = prompt;
        choices = choices;
        context = context;
      }))
  raise awaiting_input

unfoldable pub previous_answer :
    Outside → ClaimedSynthesisJob → ToolCall → Act (Option JobInputAnswer)
previous_answer out job tool_call = registry out (λ now. answered_job_input job.job_id tool_call.id)

abbrev pub decision_reply : Bool → ResolvedDecision → Act ToolExecution
decision_reply reused d =
    reply
      (ok_field true (field "reused" (boolean reused) (field "decision" (decision_value d) end)))

unfoldable pub keep_decision : ResolvedDecision → AgentWorkspace → AgentWorkspace
unfolding insert_by
keep_decision d ws = record ws {
  resolved_decisions = insert_by str_eq text_before d.key d ws.resolved_decisions;
}

unfoldable pub clarified :
    Outside
    → ClaimedSynthesisJob
    → ToolCall
    → RequestClarificationArgs
    → Option JobInputAnswer
    → Act ToolExecution
unfolding decision_value invalid_action
clarified out job tool_call args (some (JobInputAnswer.text answer)) =
    let d : ResolvedDecision = record {
      key = args.decision_key;
      question = args.question;
      answer = answer;
    } in
    modify (keep_decision d) >> decision_reply false d
clarified out job tool_call args (some approve) =
    raise (invalid_action "clarification resumed with a non-text answer")
clarified out job tool_call args (some (reject reason)) =
    raise (invalid_action "clarification resumed with a non-text answer")
clarified out job tool_call args none =
    suspend_for out job tool_call clarification args.question args.choices
      (object (field "decision_key" (string args.decision_key) end))

unfoldable pub clarify :
    Outside
    → ClaimedSynthesisJob
    → ToolCall
    → RequestClarificationArgs
    → Option ResolvedDecision
    → Act ToolExecution
unfolding decision_value
clarify out job tool_call args (some d) = decision_reply true d
clarify out job tool_call args none =
    previous_answer out job tool_call >>= clarified out job tool_call args

unfoldable pub request_clarification : Outside → ClaimedSynthesisJob → ToolCall → Act ToolExecution
unfolding validate_clarification get_by
request_clarification out job tool_call = do
  args ← parse_args (out.texts.request_clarification_args tool_call.arguments)
  check_reason args.reason
  lift (λ e. e) (validate_clarification args)
  ws ← workspace
  clarify out job tool_call args (get_by str_eq args.decision_key ws.resolved_decisions)

abbrev pub approved_fields : Bool → Fields → Fields
approved_fields approved rest = ok_field true (field "approved" (boolean approved) rest)

abbrev pub correction_reply : Bool → ApprovedExampleCorrection → Act ToolExecution
correction_reply reused c = reply (
    approved_fields true
      (field "reused" (boolean reused) (field "correction" (correction_value c) end)))

abbrev pub reason_or : String → Option String → String
reason_or message none = message
reason_or message (some reason) = reason

unfoldable pub rejected_reply : String → Option String → Act ToolExecution
rejected_reply message reason =
    reply (approved_fields false (field "reason" (string (reason_or message reason)) end))

-- An approved correction of a written source leads to a new candidate.
unfoldable pub after_correction :
    Outside → ClaimedSynthesisJob → ApprovedExampleCorrection → AgentWorkspace → Act ToolExecution
unfolding correction_value
after_correction out job c ws =
    if is_some ws.source && is_some ws.draft
    then evaluate_after_mutation out job
    else correction_reply false c

unfoldable pub corrected :
    Outside
    → ClaimedSynthesisJob
    → ToolCall
    → ApprovedExampleCorrection
    → AgentWorkspace
    → Option JobInputAnswer
    → Act ToolExecution
unfolding decimal correction_value invalid_action
corrected out job tool_call c ws (some approve) = do
  changed ← lift (λ e. e) (apply_example_correction c ws)
  modify (λ _. changed)
  after_correction out job c changed
corrected out job tool_call c ws (some (reject reason)) =
    rejected_reply "user rejected the example correction" reason
corrected out job tool_call c ws (some (JobInputAnswer.text t)) =
    raise (invalid_action "example correction resumed with a text answer")
corrected out job tool_call c ws none =
    suspend_for out job tool_call example_correction
      ("Replace registered example #"
        +++ decimal c.example_index
        +++ " with this proposed correction?")
      [] (correction_value c)

unfoldable pub propose_correction :
    Outside
    → ClaimedSynthesisJob
    → ToolCall
    → ApprovedExampleCorrection
    → AgentWorkspace
    → Option ApprovedExampleCorrection
    → Act ToolExecution
unfolding correction_value invalid_action
propose_correction out job tool_call c ws (some existing) = do
  ensure (same_example existing.corrected c.corrected)
      (invalid_action "this example already has a different approved correction")
  correction_reply true existing
propose_correction out job tool_call c ws none =
    previous_answer out job tool_call >>= corrected out job tool_call c ws

unfoldable pub request_example_correction :
    Outside → ClaimedSynthesisJob → ToolCall → Act ToolExecution
unfolding get_by
request_example_correction out job tool_call = do
  args ← parse_args (out.texts.request_example_correction_args tool_call.arguments)
  check_reason args.reason
  c ← lift (λ e. e) (validate_example_correction out.texts job args)
  ws ← workspace
  propose_correction out job tool_call c ws (get_index (c.example_index - 1) ws.example_corrections)
