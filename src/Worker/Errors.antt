-- ===== src/Worker/Errors.antt =====
-- apps/jit-worker/src/jobs.rs and synthesizer.rs: the errors, their texts and their codes.
use Prim.Native.String.{[], ◌∷◌}
use jitforge.Base.{ℕ, zero, suc, String, Option, none, some}
use jitforge.Text.Format.{◌+++◌, decimal}
use jitforge.Domain.{as_str}
use jitforge.Protocol.{Value, string, object, end, field, job_status_str}
use jitforge.Storage.Schema.{
  StorageError, tool_not_found, version_not_found, job_not_found, invalid_cancellation_reason,
  job_input_not_found, invalid_job_input_answer, http_capability_not_found,
  invalid_revocation_reason, idempotency_conflict, tool_not_ready, artifact_not_found,
  job_lease_lost, version_not_revocable, job_not_cancellable, invariant, database,
}
use jitforge.Worker.Types.{
  SynthesisError, missing_config, invalid_config, model, model_timeout, invalid_source,
  context_limit, invalid_action as invalid_action_error, json, JobError, awaiting_input,
  attempts_exhausted, agent_aborted, agent_limit, agent_protocol, agent_runtime,
  incompatible_checkpoint, synthesis, runner_error, artifact_error, json_error, web_error,
  storage_error,
}
use jitforge.Worker.Outside.{Texts}

-- `value.chars().take(n)`
unfoldable pub take_chars : ℕ → String → String
take_chars zero s = []
take_chars (suc n) [] = []
take_chars (suc n) (c ∷ s) = c ∷ take_chars n s

unfoldable pub truncate_text : String → String
unfolding take_chars
truncate_text value = take_chars 2048 value

unfoldable pub synthesis_error_text : SynthesisError → String
unfolding decimal
synthesis_error_text (missing_config s) = "missing required configuration " +++ s
synthesis_error_text (invalid_config s) = "invalid synthesizer configuration: " +++ s
synthesis_error_text (model s) = "model call failed: " +++ s
synthesis_error_text model_timeout = "model call timed out"
synthesis_error_text (context_limit n) =
    "model context is " +++ decimal n +++ " bytes and exceeds the 1 MiB limit"
synthesis_error_text invalid_source = "generated source is empty, too large, or contains NUL bytes"
synthesis_error_text (invalid_action_error s) = "invalid synthesis agent action: " +++ s
synthesis_error_text (json s) = s

-- A text in quotes: the statuses have no character that `{:?}` would escape.
abbrev pub quoted : String → String
quoted s = "\"" +++ s +++ "\""

unfoldable pub storage_error_text : Texts → StorageError → String
unfolding as_str job_status_str
storage_error_text texts tool_not_found = "tool not found"
storage_error_text texts version_not_found = "tool version not found"
storage_error_text texts (version_not_revocable s) =
    "tool version in status " +++ quoted (as_str s) +++ " cannot be revoked"
storage_error_text texts job_not_found = "synthesis job not found"
storage_error_text texts (job_not_cancellable s) =
    "synthesis job in status " +++ quoted (job_status_str s) +++ " cannot be cancelled"
storage_error_text texts invalid_cancellation_reason =
    "cancellation reason must contain 1-4096 bytes"
storage_error_text texts job_input_not_found = "pending synthesis job input was not found"
storage_error_text texts invalid_job_input_answer =
    "answer does not match the pending synthesis job input"
storage_error_text texts http_capability_not_found =
    "HTTP capability approval was not found or is already revoked"
storage_error_text texts invalid_revocation_reason = "revocation reason must contain 1-4096 bytes"
storage_error_text texts idempotency_conflict =
    "idempotency key was already used for a different request"
storage_error_text texts tool_not_ready = "tool has no ready version"
storage_error_text texts artifact_not_found = "tool version has no published artifact"
storage_error_text texts job_lease_lost = "synthesis job lease was lost"
storage_error_text texts (invariant s) = "registry invariant violated: " +++ s
storage_error_text texts (database e) = texts.database_text e

unfoldable pub job_error_text : Texts → JobError → String
unfolding synthesis_error_text storage_error_text
job_error_text texts awaiting_input = "synthesis job is awaiting user input"
job_error_text texts attempts_exhausted = "worker retry limit exceeded"
job_error_text texts (agent_aborted s) = "synthesis agent aborted: " +++ s
job_error_text texts (agent_limit s) = "synthesis agent action limit reached: " +++ s
job_error_text texts (agent_protocol s) = "synthesis agent protocol failed: " +++ s
job_error_text texts (agent_runtime s) = "synthesis agent runtime failed: " +++ s
job_error_text texts (incompatible_checkpoint engine version) =
    "agent checkpoint uses incompatible engine "
    +++ texts.debug_text engine
    +++ " version "
    +++ texts.debug_text version
job_error_text texts (synthesis e) = synthesis_error_text e
job_error_text texts (runner_error s) = s
job_error_text texts (artifact_error s) = s
job_error_text texts (storage_error e) = storage_error_text texts e
job_error_text texts (json_error s) = s
job_error_text texts (web_error s) = s

unfoldable pub job_error_code : JobError → String
job_error_code awaiting_input = "awaiting_input"
job_error_code attempts_exhausted = "attempts_exhausted"
job_error_code (agent_aborted s) = "agent_aborted"
job_error_code (agent_limit s) = "agent_limit_reached"
job_error_code (agent_protocol s) = "agent_protocol_failed"
job_error_code (agent_runtime s) = "agent_runtime_failed"
job_error_code (incompatible_checkpoint engine version) = "agent_checkpoint_incompatible"
job_error_code (synthesis e) = "synthesis_failed"
job_error_code (runner_error s) = "runner_failed"
job_error_code (artifact_error s) = "artifact_failed"
job_error_code (storage_error e) = "storage_failed"
job_error_code (json_error s) = "serialization_failed"
job_error_code (web_error s) = "web_access_failed"

abbrev pub reason_detail : String → Option Value
reason_detail s = some (object (field "reason" (string (truncate_text s)) end))

unfoldable pub job_error_details : JobError → Option Value
unfolding truncate_text
job_error_details (agent_aborted s) = reason_detail s
job_error_details (agent_limit s) = reason_detail s
job_error_details (agent_protocol s) = reason_detail s
job_error_details (agent_runtime s) = reason_detail s
job_error_details (incompatible_checkpoint engine version) =
    some (object (field "engine" (string engine) (field "version" (string version) end)))
job_error_details e = none

unfoldable pub invalid_action : String → JobError
invalid_action message = synthesis (invalid_action_error message)
