-- ===== src/Worker/Calls.antt =====
-- apps/jit-worker/src/jobs.rs: what the agent's tools share: the events, the stages, the answers.
use jitforge.Base.{ℕ, String, Bool, List, [], ◌∷◌, str_eq, if◌then◌else◌, Attempt}
use jitforge.Text.Format.{◌+++◌}
use jitforge.Protocol.{Value, boolean, string, object, Fields, end, field, JobStage}
use jitforge.Storage.Claim.{ClaimedSynthesisJob}
use jitforge.Storage.Events.{append_agent_event}
use jitforge.Storage.Progress.{set_stage_of_job, set_version_status}
use jitforge.Worker.Types.{JobError, json_error, synthesis}
use jitforge.Worker.Outside.{Outside}
use jitforge.Worker.Act.{Act, ◌>>=◌, ◌>>◌, pure, lift, ask, registry}
use jitforge.Worker.Rules.{validate_reason}

-- What the code reads of a pending call.
pub record ToolCall : Type 0 where
  pub id : String
  pub name : String
  pub arguments : Value

pub data ToolExecution : Type 0 where
  continue : Value → ToolExecution
  published : String → ToolExecution

unfoldable pub event : Outside → ClaimedSynthesisJob → String → Value → Act Unit
event out job kind payload =
    registry out (append_agent_event out.codec job.job_id out.worker_id kind payload)

-- The two statements of `set_job_stage` commit one by one.
unfoldable pub set_job_stage : Outside → ClaimedSynthesisJob → JobStage → Act Unit
set_job_stage out job stage =
    registry out (set_stage_of_job job.job_id out.worker_id stage)
    >> registry out (set_version_status job.job_id stage)

-- `parse_args`
unfoldable pub parse_args : {A : Type 0} → Attempt String A → Act A
parse_args decoded = lift (λ e. json_error e) decoded

unfoldable pub check_reason : String → Act Unit
unfolding validate_reason
check_reason reason = lift (λ e. synthesis e) (validate_reason reason)

-- `.await?` of a call outside, whose error is one of the worker's.
unfoldable pub call : {E A : Type 0} → (E → JobError) → (ℕ → Attempt E A) → Act A
call f answer = ask answer >>= λ a. lift f a

abbrev pub reply : Fields → Act ToolExecution
reply fs = pure (continue (object fs))

-- `object.insert(key, value)`, on an object.
unfoldable pub insert_field : String → Value → Fields → Fields
insert_field k v end = field k v end
insert_field k v (field j w fs) =
    let rest = insert_field k v fs in if str_eq k j then field j v fs else field j w rest

abbrev pub with_field : String → Value → Value → Value
with_field k v (object fs) = object (insert_field k v fs)
with_field k v w = w

abbrev pub ok_field : Bool → Fields → Fields
ok_field b rest = field "ok" (boolean b) rest

abbrev pub message_field : String → Fields
message_field s = field "message" (string s) end

-- `HashSet::insert`
unfoldable pub insert_new : String → List String → List String
insert_new s [] = s ∷ []
insert_new s (t ∷ ts) = let rest = insert_new s ts in if str_eq s t then t ∷ ts else t ∷ rest

unfoldable pub join : String → List String → String
join sep [] = ""
join sep (s ∷ []) = s
join sep (s ∷ t ∷ ts) = s +++ sep +++ join sep (t ∷ ts)
