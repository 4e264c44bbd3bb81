-- ===== src/Worker/Agent.antt =====
-- apps/jit-worker/src/jobs.rs: what the agent is offered in a turn, the phase of a task, and how a task ends.
pub mod Offers
pub mod Refused
use jitforge.Base.{
  ℕ, ◌+◌, ◌-◌, ◌^◌, min, String, Bool, true, false, not, ◌&&◌, Option, none, some, List, [], ◌∷◌,
  ◌++◌, length, ltb, ◌==◌, if◌then◌else◌, is_some, Attempt, done, failed,
}
use jitforge.Protocol.{
  Value, boolean, string, object, end, field, JobStage, contract, synthesizing, repairing,
}
use jitforge.Storage.Claim.{ClaimedSynthesisJob, renew_job_lease}
use jitforge.Storage.Progress.{reject_job}
use jitforge.Worker.Types.{
  AgentWorkspace, AgentMetrics, ValidationFailure, JobError, awaiting_input, attempts_exhausted,
}
use jitforge.Worker.Outside.{Outside}
use jitforge.Worker.Act.{World, Act, ◌>>=◌, ◌>>◌, pure, workspace, registry}
use jitforge.Worker.Errors.{job_error_code, job_error_text, job_error_details}
use jitforge.Worker.Calls.{ToolCall, set_job_stage}
use jitforge.Worker.Tools.Review.{is_generated}
use jitforge.Worker.Tools.Web.{max_web_searches, max_document_fetches}
use jitforge.Worker.Tools.Http.{max_http_capabilities, max_http_probes}

abbrev pub max_job_attempts : ℕ
max_job_attempts = 3

-- `metrics.turns.saturating_add(1)`, on a `u32`
unfoldable pub count_turn : AgentWorkspace → AgentWorkspace
count_turn ws = record ws {
  metrics = record (ws.metrics) { turns = min (ws.metrics.turns + 1) (2 ^ 32 - 1) };
}

abbrev pub offer : Bool → String → List String
offer b name = if b then name ∷ [] else []

abbrev pub failed_generated : Option ValidationFailure → Bool
failed_generated none = false
failed_generated (some f) = is_generated f.test_origin

-- The names of the tools that a turn is offered.
unfoldable pub available_tools : AgentWorkspace → List String
available_tools ws =
    let drafted : Bool = is_some ws.draft in
    let written : Bool = drafted && is_some ws.source in
    ("abort" ∷ "request_clarification" ∷ "request_example_correction" ∷ [])
    ++ offer (ltb ws.metrics.web_searches max_web_searches) "search_web"
    ++ offer (ltb ws.metrics.documents_fetched max_document_fetches) "fetch_document"
    ++ offer (ltb (length ws.http_capabilities) max_http_capabilities) "request_http_capability"
    ++ offer (ltb 0 (length ws.http_capabilities)) "release_http_capability"
    ++ offer (ltb 0 (length ws.http_capabilities) && ltb ws.metrics.http_probes max_http_probes)
        "probe_http"
    ++ offer (not drafted) "submit_contract"
    ++ offer (drafted && not (is_some ws.source)) "write_source"
    ++ offer written "edit_source"
    ++ offer (written && is_some ws.current_artifact_digest) "probe"
    ++ offer (written && failed_generated ws.latest_failure) "review_generated_test"

unfoldable pub phase_stage : AgentWorkspace → JobStage
phase_stage ws =
    if not (is_some ws.draft)
    then contract
    else if not (is_some ws.source)
    then synthesizing
    else repairing

unfoldable pub set_phase_stage : Outside → ClaimedSynthesisJob → Act Unit
unfolding phase_stage
set_phase_stage out job = workspace >>= λ ws. set_job_stage out job (phase_stage ws)

abbrev pub batch_error : Value
batch_error = object (
    field "ok" (boolean false)
      (field "error" (string "exactly one tool call is allowed per turn") end))

-- The answer to each of the calls, by their ids.
unfoldable pub answer_all : List ToolCall → List (String × Value)
answer_all [] = []
answer_all (c ∷ cs) = (c.id, batch_error) ∷ answer_all cs

-- The answers to a batch that is not one call.
unfoldable pub rejected_tool_batch_results : List ToolCall → Option (List (String × Value))
unfolding answer_all
rejected_tool_batch_results calls = if length calls == 1 then none else some (answer_all calls)

-- A task that does not end well is rejected; the failure to reject it is only logged.
unfoldable pub report : Outside → ClaimedSynthesisJob → Attempt JobError Unit → World → World
unfolding job_error_code job_error_text job_error_details
report out job (done u) w = w
report out job (failed awaiting_input) w = w
report out job (failed e) w =
    (registry out
      (reject_job job.job_id out.worker_id (job_error_code e) (job_error_text out.texts e)
        (job_error_details e))
      w).1

-- JOB_LEASE_SECONDS
abbrev pub job_lease_seconds : ℕ
job_lease_seconds = 300

-- What `select!` does next while the task has not ended: the task runs up to where it waits again, or the
-- lease is due for renewal.
pub data Turn : Type 0 where
  advances : (World → World) → Turn
  renewal : Turn

-- After these turns the task ends by `last`, its last part. A renewal that fails ends the loop before.
unfoldable pub select_loop : Outside → ClaimedSynthesisJob → List Turn → Act Unit → Act Unit
select_loop out job [] last = last
select_loop out job (advances f ∷ turns) last = λ w. select_loop out job turns last (f w)
select_loop out job (renewal ∷ turns) last =
    registry out (renew_job_lease job.job_id out.worker_id job_lease_seconds)
    >> select_loop out job turns last

unfoldable pub handle_job : Outside → ClaimedSynthesisJob → List Turn → Act Unit → World → World
unfolding report select_loop
handle_job out job turns last w =
    let ended : Attempt JobError Unit × World = select_loop out job turns last w in
    if ltb max_job_attempts job.attempts
    then report out job (failed attempts_exhausted) w
    else report out job (ended.0) (ended.1)
