-- ===== src/Storage/Inputs.antt =====
-- crates/jit-storage/src/lib.rs: a job that waits for its user, the answer, and cancellation.
pub mod Cancel
pub mod Resume
use Prim.Native.String.{◌++◌ as text_append}
use jitforge.Base.{
  ℕ, ◌+◌, String, len, Bool, true, false, not, ◌&&◌, ◌||◌, Option, none, some, List, [], ◌∷◌, ◌++◌,
  ltb, leb, ◌==◌, str_eq, if◌then◌else◌, is_some, find?, any, update,
}
use jitforge.Text.{is_empty_text, trim}
use jitforge.Domain.{ToolVersionStatus}
use jitforge.Protocol.{
  Value, string, object, Fields, end, field, JobStatus, queued, awaiting_input, ready, rejected,
  JobStage, complete, job_stage_str, JobInputKind, clarification, source_approval,
  example_correction, job_input_kind_str, JobInputChoice, JobInputAnswer, approve, reject,
  JobAnswerRequest, JobError, JobResponse, PendingJobInput, is_terminal,
}
use jitforge.Storage.Schema.{
  Db, Job, Tool, Version, JobInput, InputStatus, pending, answered, StorageError, job_not_found,
  job_not_cancellable, invalid_cancellation_reason, job_input_not_found, invalid_job_input_answer,
  job_lease_lost, invariant, database, unique_violation,
}
use jitforge.Storage.Tx.{Result, ok, err, Tx, ◌>>=◌, ◌>>◌, pure, query, execute, fetch, ensure}
use jitforge.Storage.Rows.{has_id, is_leased, is_awaiting, set_jobs, set_version_of, find_job}
use jitforge.Storage.Claim.{tool_of, version_of}
use jitforge.Storage.Progress.{find_leased, fail_version}
use jitforge.Storage.Events.{
  Codec, append_agent_event_in_transaction, agent_trace_limit_bytes, running_event_limit_bytes,
}

abbrev pub is_pending : InputStatus → Bool
is_pending pending = true
is_pending answered = false

unfoldable pub set_inputs : (JobInput → Bool) → (JobInput → JobInput) → Db → Db
set_inputs p f db = record db { inputs = update p f db.inputs }

unfoldable pub answer_input : JobInputAnswer → ℕ → JobInput → JobInput
answer_input a now i = record i { status = answered; answer = some a; answered_at = some now }

unfoldable pub cancelled : Value → ℕ → Job → Job
cancelled details now j = record j {
  status = rejected;
  stage = complete;
  error_code = some "user_cancelled";
  error_message = some "synthesis job cancelled by user";
  details = some details;
  worker_id = none;
  lease_until = none;
  updated_at = now;
}

-- `cancel_job` behind the test of the trimmed reason.
unfoldable pub cancel_with : Codec → ℕ → String → ℕ → Tx Unit
unfolding cancelled answer_input fail_version append_agent_event_in_transaction
cancel_with codec job_id reason now = do
  let details = object (field "reason" (string reason) end)
  job ← fetch (find_job job_id) job_not_found
  ensure (not (is_terminal job.status)) (job_not_cancellable job.status)
  execute (set_jobs (has_id job_id) (cancelled details now))
  execute (
      set_version_of job_id (λ v. true)
        (fail_version "user_cancelled" "synthesis job cancelled by user" now))
  execute (
      set_inputs (λ i. i.job_id == job_id && is_pending i.status)
        (answer_input (reject (some reason)) now))
  append_agent_event_in_transaction codec job_id "job_cancelled" details agent_trace_limit_bytes now

unfoldable pub cancel_job : Codec → ℕ → String → ℕ → Tx Unit
unfolding cancel_with
cancel_job codec job_id reason now = do
  ensure (not (is_empty_text (trim reason) || ltb 4096 (len (trim reason))))
      invalid_cancellation_reason
  cancel_with codec job_id (trim reason) now

pub record NewJobInput : Type 0 where
  pub id : ℕ
  pub agent_call_id : String
  pub kind : JobInputKind
  pub prompt : String
  pub choices : List JobInputChoice
  pub context : Value

-- The stages from which a job cannot wait.
abbrev pub is_unsuspendable : JobStage → Bool
is_unsuspendable JobStage.queued = true
is_unsuspendable JobStage.awaiting_input = true
is_unsuspendable complete = true
is_unsuspendable _ = false

abbrev pub unsuspendable_message : JobStage → String
unsuspendable_message s =
    text_append "cannot suspend a job from stage \"" (text_append (job_stage_str s) "\"")

unfoldable pub pending_input : NewJobInput → ℕ → JobStage → ℕ → JobInput
pending_input i job_id stage now = record {
  id = i.id;
  job_id = job_id;
  agent_call_id = i.agent_call_id;
  kind = i.kind;
  prompt = i.prompt;
  choices = i.choices;
  context = i.context;
  resume_stage = stage;
  status = pending;
  answer = none;
  created_at = now;
  answered_at = none;
}

-- The INSERT, with the primary key and the unique index on pending inputs.
unfoldable pub insert_input : JobInput → Tx Unit
insert_input i = do
  taken ←
      query (λ db. any (λ k. k.id == i.id || k.job_id == i.job_id && is_pending k.status) db.inputs)
  ensure (not taken) (database unique_violation)
  execute (λ db. record db { inputs = db.inputs ++ i ∷ [] })

unfoldable pub suspend : ℕ → Job → Job
suspend now j = record j {
  status = awaiting_input;
  stage = JobStage.awaiting_input;
  worker_id = none;
  lease_until = none;
  updated_at = now;
}

abbrev pub of_call : ℕ → String → JobInput → Bool
of_call job_id call i = i.job_id == job_id && str_eq i.agent_call_id call

-- A call that has asked before gets its old input, and the job goes on running.
unfoldable pub suspend_with : Codec → ℕ → NewJobInput → JobStage → ℕ → Option JobInput → Tx ℕ
unfolding insert_input pending_input suspend append_agent_event_in_transaction job_input_kind_str
suspend_with codec job_id input stage now (some existing) = pure existing.id
suspend_with codec job_id input stage now none = do
  insert_input (pending_input input job_id stage now)
  append_agent_event_in_transaction codec job_id "input_requested"
      (object (
        field "input_id" (string (codec.uuid_text input.id)) (
          field "kind" (string (job_input_kind_str input.kind))
            (field "prompt" (string input.prompt) (field "context" input.context end)))))
      running_event_limit_bytes now
  execute (set_jobs (has_id job_id) (suspend now))
  pure input.id

unfoldable pub suspend_job_for_input : Codec → ℕ → String → NewJobInput → ℕ → Tx ℕ
unfolding find_leased suspend_with
suspend_job_for_input codec job_id worker input now = do
  job ← fetch (find_leased job_id worker) job_lease_lost
  ensure (not (is_unsuspendable job.stage)) (invariant (unsuspendable_message job.stage))
  existing ← query (λ db. find? (of_call job_id input.agent_call_id) db.inputs)
  suspend_with codec job_id input job.stage now existing

abbrev pub answer_of : Option JobInput → Option JobInputAnswer
answer_of none = none
answer_of (some i) = i.answer

unfoldable pub answered_job_input : ℕ → String → Tx (Option JobInputAnswer)
answered_job_input job_id call =
    query
      (λ db. answer_of (find? (λ i. of_call job_id call i && not (is_pending i.status)) db.inputs))

-- `reason.as_ref().is_none_or(|reason| reason.len() <= 4096)`
abbrev pub reason_fits : Option String → Bool
reason_fits none = true
reason_fits (some r) = leb (len r) 4096

unfoldable pub answer_fits : JobInputKind → JobInputAnswer → Bool
answer_fits clarification (JobInputAnswer.text t) = not (is_empty_text (trim t)) && leb (len t) 4096
answer_fits source_approval approve = true
answer_fits source_approval (reject reason) = reason_fits reason
answer_fits example_correction approve = true
answer_fits example_correction (reject reason) = reason_fits reason
answer_fits _ _ = false

unfoldable pub validate_job_input_answer : JobInputKind → JobInputAnswer → Tx Unit
unfolding answer_fits
validate_job_input_answer kind a = ensure (answer_fits kind a) invalid_job_input_answer

-- `serde_json::to_value` of an answer: the tag `type`, and no reason where there is none.
abbrev pub reason_fields : Option String → Fields
reason_fields none = end
reason_fields (some r) = field "reason" (string r) end

unfoldable pub answer_value : JobInputAnswer → Value
answer_value (JobInputAnswer.text t) =
    object (field "type" (string "text") (field "text" (string t) end))
answer_value approve = object (field "type" (string "approve") end)
answer_value (reject r) = object (field "type" (string "reject") (reason_fields r))

unfoldable pub resume : JobStage → ℕ → Job → Job
resume stage now j = record j {
  status = queued;
  stage = stage;
  available_at = now;
  worker_id = none;
  lease_until = none;
  updated_at = now;
}

-- The pending input of a job that waits.
abbrev pub is_asked : ℕ → ℕ → JobInput → Bool
is_asked input_id job_id i = i.id == input_id && i.job_id == job_id && is_pending i.status

unfoldable pub find_asked : ℕ → ℕ → Db → Option JobInput
find_asked input_id job_id db =
    if any (λ j. j.id == job_id && is_awaiting j.status) db.jobs
    then find? (is_asked input_id job_id) db.inputs
    else none

-- The transaction of `answer_job_input`.
unfoldable pub answer_with : Codec → ℕ → JobInputAnswer → ℕ → ℕ → Tx Unit
unfolding find_asked validate_job_input_answer answer_input resume append_agent_event_in_transaction
    answer_value
answer_with codec job_id a now input_id = do
  i ← fetch (find_asked input_id job_id) job_input_not_found
  validate_job_input_answer i.kind a
  execute (set_inputs (λ k. k.id == input_id) (answer_input a now))
  execute (set_jobs (has_id job_id) (resume i.resume_stage now))
  append_agent_event_in_transaction codec job_id "input_answered"
      (object (
        field "input_id" (string (codec.uuid_text input_id)) (field "answer" (answer_value a) end)))
      running_event_limit_bytes now

unfoldable pub answer_transaction : Codec → ℕ → JobAnswerRequest → ℕ → Tx Unit
unfolding answer_with
answer_transaction codec job_id request now = do
  input_id ← fetch (λ db. codec.parse_uuid request.input_id) job_input_not_found
  answer_with codec job_id request.answer now input_id
