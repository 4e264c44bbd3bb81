-- ===== src/Worker/Tools/Kept/All.antt =====
-- Every call of a tool keeps an invariant that fills the interface, however the call ends.
use jitforge.Base.{String, List, [], ◌∷◌, str_eq, refl, All}
use jitforge.Storage.Claim.{ClaimedSynthesisJob}
use jitforge.Worker.Types.{AgentWorkspace}
use jitforge.Worker.Outside.{Outside}
use jitforge.Worker.Act.{World, Act}
use jitforge.Worker.Act.Leaves.{Leaves, Leaves-if, Leaves-of_Quiet, Quiet-raise}
use jitforge.Worker.Calls.{ToolCall, ToolExecution}
use jitforge.Worker.Tools.Execute.{lookup_tool, tools, execute_tool_inner, execute_tool}
use jitforge.Worker.Tools.Kept.{Kept}
use jitforge.Worker.Tools.Kept.Drafts.{
  submit_contract-Leaves, write_source-Leaves, edit_source-Leaves, probe-Leaves,
  review_generated_test-Leaves, abort-Leaves,
}
use jitforge.Worker.Tools.Kept.Answers.{
  request_clarification-Leaves, request_example_correction-Leaves, search_web-Leaves,
  fetch_document-Leaves, request_http_capability-Leaves, release_http_capability-Leaves,
  probe_http-Leaves,
}

lookup_tool-Leaves :
    {R : AgentWorkspace → Type 0} (ws : AgentWorkspace) (name : String)
    (ts : List (String × Act ToolExecution)) (other : Act ToolExecution)
    → All (λ t. Leaves R ws t.1) ts
    → Leaves R ws other
    → Leaves R ws (lookup_tool name ts other)
unfolding lookup_tool
lookup_tool-Leaves ws name [] other hs h = h
lookup_tool-Leaves ws name ((n, t) ∷ ts) other (ht, hs) h =
    Leaves-if (str_eq name n) ht (lookup_tool-Leaves ws name ts other hs h)

module _ {out : Outside} {job : ClaimedSynthesisJob} {R : AgentWorkspace → Type 0}
    (kept : Kept out job R) where
  execute_tool_inner-Leaves :
      (t : ToolCall) (ws : AgentWorkspace) → R ws → Leaves R ws (execute_tool_inner out job t)
  unfolding execute_tool_inner tools
  execute_tool_inner-Leaves t ws h =
      lookup_tool-Leaves ws t.name (tools out job t) _
        (
          submit_contract-Leaves kept t.arguments ws h,
          (
            write_source-Leaves kept t.arguments ws h,
            (
              edit_source-Leaves kept t.arguments ws h,
              (
                probe-Leaves kept t.arguments ws h,
                (
                  review_generated_test-Leaves kept t.arguments ws h,
                  (
                    abort-Leaves kept t.arguments ws h,
                    (
                      request_clarification-Leaves kept t ws h,
                      (
                        request_example_correction-Leaves kept t ws h,
                        (
                          search_web-Leaves kept t.arguments ws h,
                          (
                            fetch_document-Leaves kept t.arguments ws h,
                            (
                              request_http_capability-Leaves kept t ws h,
                              (
                                release_http_capability-Leaves kept t.arguments ws h,
                                (probe_http-Leaves kept t.arguments ws h, tt),
                              ),
                            ),
                          ),
                        ),
                      ),
                    ),
                  ),
                ),
              ),
            ),
          ),
        )
        (Leaves-of_Quiet h (Quiet-raise _))

  pub execute_tool-keeps :
      (t : ToolCall) (w : World) → R w.workspace → R (execute_tool out job t w).1.workspace
  unfolding execute_tool
  execute_tool-keeps t w h = (execute_tool_inner-Leaves t w.workspace h).leaves w refl
