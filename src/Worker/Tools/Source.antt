-- ===== src/Worker/Tools/Source.antt =====
-- The tools `write_source`, `edit_source` and `probe` of apps/jit-worker/src/jobs.rs.
use jitforge.Base.{
  ℕ, suc, String, true, false, not, Option, none, some, ltb, ◌==◌, str_eq, Attempt, done, failed,
  insert_by, get_by, is_some,
}
use jitforge.Text.{is_empty_text}
use jitforge.Text.Format.{◌+++◌, decimal}
use jitforge.Text.Bytes.{utf8_bytes, text_before}
use jitforge.Text.Replace.{count_matches, count_from, replace_first}
use jitforge.Protocol.{Value, boolean, string, object, end, field, validating}
use jitforge.Storage.Claim.{ClaimedSynthesisJob}
use jitforge.Worker.Types.{AgentWorkspace, agent_limit, synthesis}
use jitforge.Worker.Outside.{Outside, Texts, ExecutionOutput, ProbeArgs}
use jitforge.Worker.Act.{Act, ◌>>=◌, ◌>>◌, pure, ensure, require, lift, workspace, modify, ask}
use jitforge.Worker.Errors.{invalid_action}
use jitforge.Worker.Json.{int_value}
use jitforge.Worker.Rules.{validate_source, validate_probe}
use jitforge.Worker.Rules.Contract.{probe_fingerprint}
use jitforge.Worker.Calls.{
  ToolExecution, continue, parse_args, check_reason, set_job_stage, with_field, ok_field,
}
use jitforge.Worker.Evaluate.Judge.{diagnostic_bytes}
use jitforge.Worker.Evaluate.Publish.{evaluate_after_mutation}

abbrev pub max_source_revisions : ℕ
max_source_revisions = 4

abbrev pub max_probes : ℕ
max_probes = 3

unfoldable pub revise_source : String → AgentWorkspace → AgentWorkspace
revise_source source ws = record ws {
  source = some source;
  metrics = record (ws.metrics) { source_revisions = suc ws.metrics.source_revisions };
}

abbrev pub revisions_left : AgentWorkspace → Act Unit
revisions_left ws =
    ensure (ltb ws.metrics.source_revisions max_source_revisions)
      (agent_limit "source revision budget exhausted")

unfoldable pub write_source : Outside → ClaimedSynthesisJob → Value → Act ToolExecution
unfolding validate_source invalid_action
write_source out job arguments = do
  args ← parse_args (out.texts.write_source_args arguments)
  check_reason args.reason
  lift (λ e. synthesis e) (validate_source args.source)
  ws ← workspace
  ensure (is_some ws.draft) (invalid_action "submit a contract before source")
  ensure (not (is_some ws.source))
      (invalid_action "write_source is only allowed for the initial source; use edit_source")
  revisions_left ws
  modify (revise_source args.source)
  evaluate_after_mutation out job

unfoldable pub edit_source : Outside → ClaimedSynthesisJob → Value → Act ToolExecution
unfolding validate_source invalid_action count_from replace_first decimal
edit_source out job arguments = do
  args ← parse_args (out.texts.edit_source_args arguments)
  check_reason args.reason
  ensure (not (is_empty_text args.old_text)) (invalid_action "old_text must not be empty")
  ws ← workspace
  revisions_left ws
  source ← require ws.source (invalid_action "write the initial source before editing")
  ensure (count_matches args.old_text source == 1) (
      invalid_action (
        "old_text must match exactly once, but matched "
        +++ decimal (count_matches args.old_text source)
        +++ " times"))
  lift (λ e. synthesis e) (validate_source (replace_first args.old_text args.new_text source))
  ensure (not (str_eq (replace_first args.old_text args.new_text source) source))
      (invalid_action "edit_source must change the source")
  modify (revise_source (replace_first args.old_text args.new_text source))
  evaluate_after_mutation out job

unfoldable pub count_probe : AgentWorkspace → AgentWorkspace
count_probe ws = record ws {
  metrics = record (ws.metrics) { probes_run = suc ws.metrics.probes_run };
}

unfoldable pub keep_probe : String → Value → AgentWorkspace → AgentWorkspace
unfolding insert_by
keep_probe fingerprint result ws = record ws {
  probe_results = insert_by str_eq text_before fingerprint result ws.probe_results;
}

unfoldable pub probe_result : Texts → Attempt String ExecutionOutput → Value
unfolding int_value diagnostic_bytes
probe_result texts (done output) = object (
    ok_field true (
      field "exit_code" (int_value output.exit_code) (
        field "stdout" (string (diagnostic_bytes texts output.stdout))
          (field "stderr" (string (diagnostic_bytes texts output.stderr)) end))))
probe_result texts (failed e) = object (ok_field false (field "error" (string e) end))

-- A result that is known is not computed again.
unfoldable pub run_probe :
    Outside
    → ClaimedSynthesisJob
    → ProbeArgs
    → AgentWorkspace
    → String
    → String
    → Option Value
    → Act ToolExecution
unfolding utf8_bytes probe_result
run_probe out job args ws digest fingerprint (some cached) =
    pure (continue (with_field "reused" (boolean true) cached))
run_probe out job args ws digest fingerprint none = do
  ensure (ltb ws.metrics.probes_run max_probes) (agent_limit "probe budget exhausted")
  set_job_stage out job validating
  modify count_probe
  ran ← ask (λ n. out.execute digest args.args (utf8_bytes args.stdin) n)
  modify (keep_probe fingerprint (probe_result out.texts ran))
  pure (continue (probe_result out.texts ran))

unfoldable pub probe : Outside → ClaimedSynthesisJob → Value → Act ToolExecution
unfolding validate_probe invalid_action probe_fingerprint get_by
probe out job arguments = do
  args ← parse_args (out.texts.probe_args arguments)
  check_reason args.reason
  lift (λ e. e) (validate_probe args)
  ws ← workspace
  digest ← require ws.current_artifact_digest (invalid_action "probe requires a built candidate")
  run_probe out job args ws digest (probe_fingerprint out.codec digest args)
      (get_by str_eq (probe_fingerprint out.codec digest args) ws.probe_results)
