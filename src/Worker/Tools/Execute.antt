-- ===== src/Worker/Tools/Execute.antt =====
-- `execute_tool` of apps/jit-worker/src/jobs.rs.
use jitforge.Base.{String, false, List, [], ◌∷◌, str_eq, if◌then◌else◌, Attempt, done, failed}
use jitforge.Text.Format.{◌+++◌}
use jitforge.Protocol.{string, object, end, field}
use jitforge.Storage.Claim.{ClaimedSynthesisJob}
use jitforge.Worker.Types.{JobError, synthesis, json_error, web_error}
use jitforge.Worker.Outside.{Outside}
use jitforge.Worker.Act.{World, Act, raise}
use jitforge.Worker.Errors.{invalid_action, synthesis_error_text}
use jitforge.Worker.Calls.{ToolCall, ToolExecution, continue, ok_field}
use jitforge.Worker.Tools.Contract.{submit_contract}
use jitforge.Worker.Tools.Source.{write_source, edit_source, probe}
use jitforge.Worker.Tools.Review.{review_generated_test, abort}
use jitforge.Worker.Tools.Asking.{request_clarification, request_example_correction}
use jitforge.Worker.Tools.Web.{search_web, fetch_document}
use jitforge.Worker.Tools.Http.{request_http_capability, release_http_capability, probe_http}

-- The first tool of this name.
unfoldable pub lookup_tool :
    String → List (String × Act ToolExecution) → Act ToolExecution → Act ToolExecution
lookup_tool name [] other = other
lookup_tool name ((n, tool) ∷ tools) other =
    if str_eq name n then tool else lookup_tool name tools other

unfoldable pub tools : Outside → ClaimedSynthesisJob → ToolCall → List (String × Act ToolExecution)
tools out job tool_call =
    ("submit_contract", submit_contract out job tool_call.arguments)
    ∷ ("write_source", write_source out job tool_call.arguments)
    ∷ ("edit_source", edit_source out job tool_call.arguments)
    ∷ ("probe", probe out job tool_call.arguments)
    ∷ ("review_generated_test", review_generated_test out job tool_call.arguments)
    ∷ ("abort", abort out tool_call.arguments)
    ∷ ("request_clarification", request_clarification out job tool_call)
    ∷ ("request_example_correction", request_example_correction out job tool_call)
    ∷ ("search_web", search_web out tool_call.arguments)
    ∷ ("fetch_document", fetch_document out tool_call.arguments)
    ∷ ("request_http_capability", request_http_capability out job tool_call)
    ∷ ("release_http_capability", release_http_capability out tool_call.arguments)
    ∷ ("probe_http", probe_http out tool_call.arguments)
    ∷ []

unfoldable pub execute_tool_inner : Outside → ClaimedSynthesisJob → ToolCall → Act ToolExecution
unfolding lookup_tool tools invalid_action
execute_tool_inner out job tool_call =
    lookup_tool tool_call.name (tools out job tool_call)
      (raise (invalid_action ("unknown tool " +++ out.texts.debug_text tool_call.name)))

abbrev pub refused : String → Attempt JobError ToolExecution
refused message = done (continue (object (ok_field false (field "error" (string message) end))))

-- What the model can mend is an answer to it; every other error ends the task.
unfoldable pub tell_model : Attempt JobError ToolExecution → Attempt JobError ToolExecution
unfolding synthesis_error_text
tell_model (failed (synthesis e)) = refused (synthesis_error_text e)
tell_model (failed (json_error s)) = refused ("invalid tool arguments: " +++ s)
tell_model (failed (web_error s)) = refused s
tell_model r = r

unfoldable pub execute_tool : Outside → ClaimedSynthesisJob → ToolCall → Act ToolExecution
unfolding execute_tool_inner tell_model
execute_tool out job tool_call w =
    let ran : Attempt JobError ToolExecution × World = execute_tool_inner out job tool_call w in
    (tell_model ran.0, ran.1)
