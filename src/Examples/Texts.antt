-- ===== src/Examples/Texts.antt =====
-- The theorems on names, intents and codes at concrete inputs.
use Prim.Native.String.{[]}
use jitforge.Base.{◌↔◌, len, ◌≡◌, ◌≢◌, ◌≤◌, refl, some}
use jitforge.Text.{trim, is_whitespace}
use jitforge.Domain.{
  ok, ToolName, parse_tool_name, ToolIntent, parse_tool_intent, synthesizing, contract_ready,
  as_str, parse_status, can_transition_to,
}
use jitforge.Domain.Name.{IsToolName, parse_tool_name_iff}
use jitforge.Domain.Intent.{parse_tool_intent_stable}
use jitforge.Domain.Status.{parse_status_iff, Reaches, transitions_acyclic}
use jitforge.Protocol.{
  IoFormat, io_format_str, parse_io_format, JobStatus, job_status_str, parse_job_status, JobStage,
  job_stage_str, parse_job_stage, source_approval, job_input_kind_str, parse_job_input_kind,
}
use jitforge.Protocol.Codes.{
  parse_job_status_iff, parse_job_stage_iff, parse_job_input_kind_iff, parse_io_format_iff,
}

abbrev my_tool : ToolName
my_tool = record { text = "my-tool" }

parse_tool_name_iff_example :
    (parse_tool_name "my-tool" ≡ ok my_tool) ↔ (IsToolName "my-tool" × (my_tool.text ≡ "my-tool"))
parse_tool_name_iff_example = parse_tool_name_iff "my-tool" my_tool

abbrev slugify : ToolIntent
slugify = record { text = "slugify" }

parse_tool_intent_stable_example :
    (slugify.text ≡ trim " slugify ")
    × (slugify.text ≢ [])
    × (len slugify.text ≤ 4096)
    × (parse_tool_intent slugify.text ≡ ok slugify)
unfolding parse_tool_intent trim is_whitespace
parse_tool_intent_stable_example = parse_tool_intent_stable " slugify " slugify refl

parse_status_iff_example :
    (parse_status "contract_ready" ≡ ok contract_ready) ↔ ("contract_ready" ≡ as_str contract_ready)
parse_status_iff_example = parse_status_iff "contract_ready" contract_ready

transitions_acyclic_example : ¬ (Reaches synthesizing contract_ready)
unfolding can_transition_to
transitions_acyclic_example = transitions_acyclic {s = contract_ready} {t = synthesizing} refl

parse_job_status_iff_example :
    (parse_job_status "awaiting_input" ≡ some JobStatus.awaiting_input)
    ↔ ("awaiting_input" ≡ job_status_str JobStatus.awaiting_input)
parse_job_status_iff_example = parse_job_status_iff "awaiting_input" JobStatus.awaiting_input

parse_job_stage_iff_example :
    (parse_job_stage "repairing" ≡ some JobStage.repairing)
    ↔ ("repairing" ≡ job_stage_str JobStage.repairing)
parse_job_stage_iff_example = parse_job_stage_iff "repairing" JobStage.repairing

parse_job_input_kind_iff_example :
    (parse_job_input_kind "source_approval" ≡ some source_approval)
    ↔ ("source_approval" ≡ job_input_kind_str source_approval)
parse_job_input_kind_iff_example = parse_job_input_kind_iff "source_approval" source_approval

parse_io_format_iff_example :
    (parse_io_format "json" ≡ some IoFormat.json) ↔ ("json" ≡ io_format_str IoFormat.json)
parse_io_format_iff_example = parse_io_format_iff "json" IoFormat.json
