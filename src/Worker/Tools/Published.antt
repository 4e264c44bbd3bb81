-- ===== src/Worker/Tools/Published.antt =====
-- Whichever tool ends with a publication, only what has passed is published: apps/jit-worker/src/jobs.rs.
use jitforge.Base.{
  is_some, String, Bool, true, false, ◌&&◌, Option, none, some, List, [], ◌∷◌, str_eq, ◌≡◌, Attempt,
  done, failed, All,
}
use jitforge.Protocol.{
  Value, JobInputKind, JobInputChoice, JobInputAnswer, approve, reject, HttpCapability,
}
use jitforge.Storage.Claim.{ClaimedSynthesisJob}
use jitforge.Artifact.{ToolTestCase}
use jitforge.Worker.Types.{
  AgentWorkspace, JobError, SynthesisDraft, ContractReview, ContractReviewDecision, accept, revise,
  reject as reject_review, TestVerdict, TestVerdictKind, implementation_wrong, oracle_wrong,
  ambiguous, ResolvedDecision, ApprovedExampleCorrection, awaiting_input, attempts_exhausted,
  agent_aborted, agent_limit, agent_protocol, agent_runtime, incompatible_checkpoint, synthesis,
  runner_error, artifact_error, json_error, web_error, storage_error,
}
use jitforge.Worker.Outside.{Outside, ProbeArgs, RequestClarificationArgs}
use jitforge.Worker.Act.{World, Act}
use jitforge.Worker.Calls.{ToolCall, ToolExecution, published}
use jitforge.Worker.Evaluate.Published.{
  HasPassed, Sound, bind-Sound, continue-Sound, raise-Sound, if-Sound,
}
use jitforge.Worker.Evaluate.Published.Candidate.{evaluate_after_mutation-Sound}
use jitforge.Worker.Tools.Contract.{submit_contract, after_review}
use jitforge.Worker.Tools.Source.{write_source, edit_source, run_probe, probe}
use jitforge.Worker.Tools.Review.{review_generated_test, after_verdict, abort}
use jitforge.Worker.Tools.Asking.{
  suspend_for, clarified, clarify, request_clarification, rejected_reply, after_correction,
  corrected, propose_correction, request_example_correction,
}
use jitforge.Worker.Tools.Web.{search_web, fetch_document}
use jitforge.Worker.Tools.Http.{
  grant, capability_answered, unless_approved, request_new, request_http_capability,
  release_http_capability, probe_http,
}
use jitforge.Worker.Tools.Execute.{lookup_tool, tools, execute_tool_inner, tell_model, execute_tool}

ruleset soundness =
    (bind-Sound, continue-Sound, raise-Sound, if-Sound, evaluate_after_mutation-Sound)

module _ {out : Outside} {job : ClaimedSynthesisJob} where
  after_review-Sound :
      (d : SynthesisDraft) (r : ContractReview) (k : ContractReviewDecision)
      → Sound out job (after_review out job d r k)
  unfolding after_review
  after_review-Sound d r accept = search soundness depth 20
  after_review-Sound d r revise = search soundness depth 20
  after_review-Sound d r reject_review = search soundness depth 20

  submit_contract-Sound : (arguments : Value) → Sound out job (submit_contract out job arguments)
  unfolding submit_contract
  submit_contract-Sound arguments = search (soundness, after_review-Sound) depth 20

  write_source-Sound : (arguments : Value) → Sound out job (write_source out job arguments)
  unfolding write_source
  write_source-Sound arguments = search soundness depth 20

  edit_source-Sound : (arguments : Value) → Sound out job (edit_source out job arguments)
  unfolding edit_source
  edit_source-Sound arguments = search soundness depth 20

  run_probe-Sound :
      (args : ProbeArgs) (ws : AgentWorkspace) (digest fingerprint : String) (known : Option Value)
      → Sound out job (run_probe out job args ws digest fingerprint known)
  unfolding run_probe
  run_probe-Sound args ws digest fingerprint (some v) = search soundness depth 20
  run_probe-Sound args ws digest fingerprint none = search soundness depth 20

  probe-Sound : (arguments : Value) → Sound out job (probe out job arguments)
  unfolding probe
  probe-Sound arguments = search (soundness, run_probe-Sound) depth 20

  after_verdict-Sound :
      (d : SynthesisDraft) (t : ToolTestCase) (name : String) (v : TestVerdict)
      (k : TestVerdictKind)
      → Sound out job (after_verdict out job d t name v k)
  unfolding after_verdict
  after_verdict-Sound d t name v implementation_wrong = search soundness depth 20
  after_verdict-Sound d t name v oracle_wrong = search soundness depth 20
  after_verdict-Sound d t name v ambiguous = search soundness depth 20

  review_generated_test-Sound :
      (arguments : Value) → Sound out job (review_generated_test out job arguments)
  unfolding review_generated_test
  review_generated_test-Sound arguments = search (soundness, after_verdict-Sound) depth 20

  abort-Sound : (arguments : Value) → Sound out job (abort out arguments)
  unfolding abort
  abort-Sound arguments = search soundness depth 20

  suspend_for-Sound :
      (t : ToolCall) (kind : JobInputKind) (prompt : String) (choices : List JobInputChoice)
      (context : Value)
      → Sound out job (suspend_for out job t kind prompt choices context)
  unfolding suspend_for
  suspend_for-Sound t kind prompt choices context = search soundness depth 20

  rejected_reply-Sound :
      (message : String) (reason : Option String) → Sound out job (rejected_reply message reason)
  unfolding rejected_reply
  rejected_reply-Sound message reason = search soundness depth 20

  clarified-Sound :
      (t : ToolCall) (args : RequestClarificationArgs) (a : Option JobInputAnswer)
      → Sound out job (clarified out job t args a)
  unfolding clarified
  clarified-Sound t args (some (JobInputAnswer.text s)) = search soundness depth 20
  clarified-Sound t args (some approve) = search soundness depth 20
  clarified-Sound t args (some (reject reason)) = search soundness depth 20
  clarified-Sound t args none = suspend_for-Sound t _ _ _ _

  clarify-Sound :
      (t : ToolCall) (args : RequestClarificationArgs) (known : Option ResolvedDecision)
      → Sound out job (clarify out job t args known)
  unfolding clarify
  clarify-Sound t args (some d) = search soundness depth 20
  clarify-Sound t args none = search (soundness, clarified-Sound) depth 20

  request_clarification-Sound : (t : ToolCall) → Sound out job (request_clarification out job t)
  unfolding request_clarification
  request_clarification-Sound t = search (soundness, clarify-Sound) depth 20

  after_correction-Sound :
      (c : ApprovedExampleCorrection) (ws : AgentWorkspace)
      → Sound out job (after_correction out job c ws)
  unfolding after_correction
  after_correction-Sound c ws =
      if-Sound (is_some ws.source && is_some ws.draft) evaluate_after_mutation-Sound
        (continue-Sound _)

  corrected-Sound :
      (t : ToolCall) (c : ApprovedExampleCorrection) (ws : AgentWorkspace)
      (a : Option JobInputAnswer)
      → Sound out job (corrected out job t c ws a)
  unfolding corrected
  corrected-Sound t c ws (some approve) = search (soundness, after_correction-Sound) depth 20
  corrected-Sound t c ws (some (reject reason)) = rejected_reply-Sound _ reason
  corrected-Sound t c ws (some (JobInputAnswer.text s)) = search soundness depth 20
  corrected-Sound t c ws none = suspend_for-Sound t _ _ _ _

  propose_correction-Sound :
      (t : ToolCall) (c : ApprovedExampleCorrection) (ws : AgentWorkspace)
      (known : Option ApprovedExampleCorrection)
      → Sound out job (propose_correction out job t c ws known)
  unfolding propose_correction
  propose_correction-Sound t c ws (some d) = search soundness depth 20
  propose_correction-Sound t c ws none = search (soundness, corrected-Sound) depth 20

  request_example_correction-Sound :
      (t : ToolCall) → Sound out job (request_example_correction out job t)
  unfolding request_example_correction
  request_example_correction-Sound t = search (soundness, propose_correction-Sound) depth 20

  search_web-Sound : (arguments : Value) → Sound out job (search_web out arguments)
  unfolding search_web
  search_web-Sound arguments = search soundness depth 20

  fetch_document-Sound : (arguments : Value) → Sound out job (fetch_document out arguments)
  unfolding fetch_document
  fetch_document-Sound arguments = search soundness depth 20

  grant-Sound : (hash : String) (c : HttpCapability) (b : Bool) → Sound out job (grant hash c b)
  unfolding grant
  grant-Sound hash c b = search soundness depth 20

  capability_answered-Sound :
      (t : ToolCall) (hash : String) (c : HttpCapability) (a : Option JobInputAnswer)
      → Sound out job (capability_answered out job t hash c a)
  unfolding capability_answered
  capability_answered-Sound t hash c (some approve) = search (soundness, grant-Sound) depth 20
  capability_answered-Sound t hash c (some (reject reason)) = rejected_reply-Sound _ reason
  capability_answered-Sound t hash c (some (JobInputAnswer.text s)) = search soundness depth 20
  capability_answered-Sound t hash c none = suspend_for-Sound t _ _ _ _

  unless_approved-Sound :
      (t : ToolCall) (hash : String) (c : HttpCapability) (b : Bool)
      → Sound out job (unless_approved out job t hash c b)
  unfolding unless_approved
  unless_approved-Sound t hash c true = grant-Sound hash c true
  unless_approved-Sound t hash c false = search (soundness, capability_answered-Sound) depth 20

  request_new-Sound :
      (t : ToolCall) (ws : AgentWorkspace) (hash : String) (c : HttpCapability) (b : Bool)
      → Sound out job (request_new out job t ws hash c b)
  unfolding request_new
  request_new-Sound t ws hash c true = search soundness depth 20
  request_new-Sound t ws hash c false = search (soundness, unless_approved-Sound) depth 20

  request_http_capability-Sound : (t : ToolCall) → Sound out job (request_http_capability out job t)
  unfolding request_http_capability
  request_http_capability-Sound t = search (soundness, request_new-Sound) depth 20

  release_http_capability-Sound :
      (arguments : Value) → Sound out job (release_http_capability out arguments)
  unfolding release_http_capability
  release_http_capability-Sound arguments = search soundness depth 20

  probe_http-Sound : (arguments : Value) → Sound out job (probe_http out arguments)
  unfolding probe_http
  probe_http-Sound arguments = search soundness depth 20

  lookup_tool-Sound :
      (name : String) (ts : List (String × Act ToolExecution)) (other : Act ToolExecution)
      → All (λ t. Sound out job t.1) ts
      → Sound out job other
      → Sound out job (lookup_tool name ts other)
  unfolding lookup_tool
  lookup_tool-Sound name [] other hs h = h
  lookup_tool-Sound name ((n, t) ∷ ts) other (ht, hs) h =
      if-Sound (str_eq name n) ht (lookup_tool-Sound name ts other hs h)

  execute_tool_inner-Sound : (t : ToolCall) → Sound out job (execute_tool_inner out job t)
  unfolding execute_tool_inner tools
  execute_tool_inner-Sound t =
      lookup_tool-Sound t.name (tools out job t) _
        (
          submit_contract-Sound t.arguments,
          (
            write_source-Sound t.arguments,
            (
              edit_source-Sound t.arguments,
              (
                probe-Sound t.arguments,
                (
                  review_generated_test-Sound t.arguments,
                  (
                    abort-Sound t.arguments,
                    (
                      request_clarification-Sound t,
                      (
                        request_example_correction-Sound t,
                        (
                          search_web-Sound t.arguments,
                          (
                            fetch_document-Sound t.arguments,
                            (
                              request_http_capability-Sound t,
                              (
                                release_http_capability-Sound t.arguments,
                                (probe_http-Sound t.arguments, tt),
                              ),
                            ),
                          ),
                        ),
                      ),
                    ),
                  ),
                ),
              ),
            ),
          ),
        )
        (raise-Sound _)

-- An answer to the model publishes nothing.
tell_model-published :
    (r : Attempt JobError ToolExecution) (digest : String)
    → tell_model r ≡ done (published digest)
    → r ≡ done (published digest)
unfolding tell_model
tell_model-published (done r) digest e = e
tell_model-published (failed awaiting_input) digest e = e
tell_model-published (failed attempts_exhausted) digest e = e
tell_model-published (failed (agent_aborted s)) digest e = e
tell_model-published (failed (agent_limit s)) digest e = e
tell_model-published (failed (agent_protocol s)) digest e = e
tell_model-published (failed (agent_runtime s)) digest e = e
tell_model-published (failed (incompatible_checkpoint s s')) digest e = e
tell_model-published (failed (synthesis x)) digest e = cc
tell_model-published (failed (runner_error s)) digest e = e
tell_model-published (failed (artifact_error s)) digest e = e
tell_model-published (failed (json_error s)) digest e = cc
tell_model-published (failed (web_error s)) digest e = cc
tell_model-published (failed (storage_error x)) digest e = e

-- If a call of a tool publishes an artifact, then the workspace has a draft, and the artifact ran in the
-- sandbox on every input sample and on every test of the draft, and every run was judged to pass.
pub execute_tool-HasPassed :
    (out : Outside) (job : ClaimedSynthesisJob) (t : ToolCall) (w : World) (digest : String)
    → (execute_tool out job t w).0 ≡ done (published digest)
    → (d : SynthesisDraft) × ((execute_tool out job t w).1.workspace.draft ≡ some d)
      × HasPassed out job digest d
unfolding execute_tool
execute_tool-HasPassed out job t w digest e =
    (execute_tool_inner-Sound t).sound w digest (tell_model-published _ digest e)
