-- ===== src/Worker/Tools/Http.antt =====
-- The tools of apps/jit-worker/src/jobs.rs for live HTTP requests: `request_http_capability`,
-- `release_http_capability` and `probe_http`.
use jitforge.Base.{
  ℕ, suc, ◌*◌, String, Bool, true, false, not, Option, none, some, List, [], ◌∷◌, ◌++◌, length, any,
  select, find?, ltb, str_eq, if◌then◌else◌,
}
use jitforge.Text.Format.{◌+++◌}
use jitforge.Text.Truncate.{truncate_text_to_bytes}
use jitforge.Protocol.{
  Value, string, boolean, object, end, field, source_approval, JobInputAnswer, approve, reject,
  HttpCapability,
}
use jitforge.Storage.Claim.{ClaimedSynthesisJob}
use jitforge.Storage.Capabilities.{is_http_capability_approved, approve_http_capability}
use jitforge.Worker.Types.{
  AgentWorkspace, ApprovedHttpCapability, HttpProbeRecord, agent_limit, web_error,
}
use jitforge.Worker.Outside.{Outside, Texts, ProbedResponse}
use jitforge.Worker.Act.{
  Act, ◌>>=◌, ◌>>◌, raise, ensure, require, lift, workspace, modify, registry,
}
use jitforge.Worker.Errors.{invalid_action}
use jitforge.Worker.Json.{capability_value, probe_record_value}
use jitforge.Worker.Rules.Urls.{
  normalize_http_capability, http_capability_hash, approved_capability_for_url,
}
use jitforge.Worker.Calls.{ToolCall, ToolExecution, parse_args, check_reason, call, reply, ok_field}
use jitforge.Worker.Tools.Asking.{suspend_for, previous_answer, approved_fields, rejected_reply}

abbrev pub max_http_capabilities : ℕ
max_http_capabilities = 8

abbrev pub max_http_probes : ℕ
max_http_probes = 6

abbrev pub has_hash : String → ApprovedHttpCapability → Bool
has_hash hash a = str_eq a.hash hash

unfoldable pub add_capability : String → HttpCapability → AgentWorkspace → AgentWorkspace
add_capability hash c ws = record ws {
  http_capabilities = ws.http_capabilities ++ record { hash = hash; capability = c } ∷ [];
}

unfoldable pub grant : String → HttpCapability → Bool → Act ToolExecution
unfolding capability_value
grant hash c previously_approved = do
  modify (add_capability hash c)
  reply (
      approved_fields true (
        field "reused" (boolean previously_approved)
          (field "capability_hash" (string hash) (field "capability" (capability_value c) end))))

unfoldable pub capability_answered :
    Outside
    → ClaimedSynthesisJob
    → ToolCall
    → String
    → HttpCapability
    → Option JobInputAnswer
    → Act ToolExecution
unfolding capability_value invalid_action
capability_answered out job tool_call hash c (some approve) = do
  registry out (approve_http_capability hash c job.job_id)
  grant hash c false
capability_answered out job tool_call hash c (some (reject reason)) =
    rejected_reply "user rejected this source" reason
capability_answered out job tool_call hash c (some (JobInputAnswer.text t)) =
    raise (invalid_action "source approval resumed with a text answer")
capability_answered out job tool_call hash c none =
    suspend_for out job tool_call source_approval
      ("Allow this tool to send live GET requests to https://" +++ c.host +++ c.path_prefix +++ "?")
      []
      (object (field "capability_hash" (string hash) (field "capability" (capability_value c) end)))

unfoldable pub unless_approved :
    Outside → ClaimedSynthesisJob → ToolCall → String → HttpCapability → Bool → Act ToolExecution
unless_approved out job tool_call hash c true = grant hash c true
unless_approved out job tool_call hash c false =
    previous_answer out job tool_call >>= capability_answered out job tool_call hash c

-- A capability that the task has is not asked for again.
unfoldable pub request_new :
    Outside
    → ClaimedSynthesisJob
    → ToolCall
    → AgentWorkspace
    → String
    → HttpCapability
    → Bool
    → Act ToolExecution
request_new out job tool_call ws hash c true = reply (
    approved_fields true
      (field "reused" (boolean true) (field "capability_hash" (string hash) end)))
request_new out job tool_call ws hash c false = do
  ensure (ltb (length ws.http_capabilities) max_http_capabilities)
      (agent_limit "HTTP capability budget exhausted")
  approved ← registry out (λ now. is_http_capability_approved hash)
  unless_approved out job tool_call hash c approved

unfoldable pub request_http_capability :
    Outside → ClaimedSynthesisJob → ToolCall → Act ToolExecution
unfolding normalize_http_capability http_capability_hash any
request_http_capability out job tool_call = do
  args ← parse_args (out.texts.request_http_capability_args tool_call.arguments)
  check_reason args.reason
  c ← lift (λ e. e) (normalize_http_capability out.texts args)
  ws ← workspace
  request_new out job tool_call ws (http_capability_hash out.codec c) c
      (any (has_hash (http_capability_hash out.codec c)) ws.http_capabilities)

-- `position` and `remove`
unfoldable pub remove_first :
    (ApprovedHttpCapability → Bool) → List ApprovedHttpCapability → List ApprovedHttpCapability
remove_first p [] = []
remove_first p (a ∷ as') = let rest = remove_first p as' in if p a then as' else a ∷ rest

unfoldable pub remove_capability : String → AgentWorkspace → AgentWorkspace
unfolding remove_first select
remove_capability hash ws = record ws {
  http_capabilities = remove_first (has_hash hash) ws.http_capabilities;
  http_probe_records = select (λ p. not (str_eq p.capability_hash hash)) ws.http_probe_records;
}

unfoldable pub release_http_capability : Outside → Value → Act ToolExecution
unfolding find? capability_value invalid_action
release_http_capability out arguments = do
  args ← parse_args (out.texts.release_http_capability_args arguments)
  check_reason args.reason
  ws ← workspace
  released ←
      require (find? (has_hash args.capability_hash) ws.http_capabilities)
        (invalid_action "HTTP capability is not active in this task")
  modify (remove_capability released.hash)
  reply (
      ok_field true (
        field "released" (boolean true) (
          field "capability_hash" (string released.hash)
            (field "capability" (capability_value released.capability) end))))

unfoldable pub count_http_probe : AgentWorkspace → AgentWorkspace
count_http_probe ws = record ws {
  metrics = record (ws.metrics) { http_probes = suc ws.metrics.http_probes };
}

unfoldable pub keep_http_probe : HttpProbeRecord → AgentWorkspace → AgentWorkspace
keep_http_probe p ws = record ws { http_probe_records = ws.http_probe_records ++ p ∷ [] }

unfoldable pub probe_record :
    Texts → ApprovedHttpCapability → String → ProbedResponse → HttpProbeRecord
unfolding truncate_text_to_bytes
probe_record texts approved url response = record {
  capability_hash = approved.hash;
  request_url = url;
  final_url = response.url;
  status = response.status;
  content_type = response.content_type;
  body = truncate_text_to_bytes (texts.from_utf8_lossy response.body) (16 * 1024);
}

unfoldable pub probe_http : Outside → Value → Act ToolExecution
unfolding approved_capability_for_url probe_record probe_record_value
probe_http out arguments = do
  args ← parse_args (out.texts.probe_http_args arguments)
  check_reason args.reason
  ws ← workspace
  ensure (ltb ws.metrics.http_probes max_http_probes) (agent_limit "HTTP probe budget exhausted")
  approved ← lift (λ e. e) (approved_capability_for_url out.texts ws.http_capabilities args.url)
  modify count_http_probe
  response ← call (λ e. web_error e) (out.probe args.url approved.capability)
  modify (keep_http_probe (probe_record out.texts approved args.url response))
  reply (
      ok_field true (
        field "probe" (probe_record_value (probe_record out.texts approved args.url response)) end))
