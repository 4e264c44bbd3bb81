-- ===== src/Storage/Responses.antt =====
-- crates/jit-storage/src/lib.rs: `get_job` and `answer_job_input`, which answers with it.
use jitforge.Base.{ℕ, String, ◌&&◌, Option, none, some, ◌==◌, find?}
use jitforge.Protocol.{Value, JobError, JobResponse, PendingJobInput, JobAnswerRequest}
use jitforge.Storage.Schema.{Db, Job, Tool, Version, JobInput, job_not_found}
use jitforge.Storage.Tx.{Result, ok, err, Tx, fetch}
use jitforge.Storage.Rows.{find_job}
use jitforge.Storage.Claim.{tool_of, version_of}
use jitforge.Storage.Inputs.{is_pending, answer_transaction}
use jitforge.Storage.Events.{Codec}

-- An error is shown when both its code and its message are there.
abbrev pub job_error : Option String → Option String → Option Value → Option JobError
job_error (some code) (some message) details =
    some (record { code = code; message = message; details = details })
job_error _ _ details = none

abbrev pub pending_response : Codec → Option JobInput → Option PendingJobInput
pending_response codec none = none
pending_response codec (some i) = some (record {
  id = codec.uuid_text i.id;
  kind = i.kind;
  prompt = i.prompt;
  choices = i.choices;
  context = i.context;
  created_at = codec.rfc3339 i.created_at;
})

-- `map_job` on the joined row.
unfoldable pub map_job : Codec → Job → Tool → Version → Option JobInput → JobResponse
map_job codec j t v i = record {
  job_id = codec.uuid_text j.id;
  tool = t.name;
  revision = j.revision;
  status = j.status;
  stage = j.stage;
  version_status = v.status;
  error = job_error j.error_code j.error_message j.details;
  pending_input = pending_response codec i;
  created_at = codec.rfc3339 j.created_at;
  updated_at = codec.rfc3339 j.updated_at;
}

abbrev pub job_row :
    Codec → Option Job → Option Tool → Option Version → Option JobInput → Option JobResponse
job_row codec (some j) (some t) (some v) i = some (map_job codec j t v i)
job_row codec _ _ _ i = none

-- A job joined with its tool, its version and its pending input.
unfoldable pub joined_job : Codec → Option Job → Db → Option JobResponse
unfolding map_job
joined_job codec j db = job_row codec j (tool_of j db.tools) (version_of j db.versions) (elim j [
  | none ↦ none
  | some k ↦ find? (λ i. i.job_id == k.id && is_pending i.status) db.inputs
])

unfoldable pub get_job : Codec → ℕ → Tx JobResponse
unfolding joined_job
get_job codec job_id = fetch (λ db. joined_job codec (find_job job_id db) db) job_not_found

abbrev pub respond : {A B : Type 0} → Result (A × B) → Result A
respond (ok (a, b)) = ok a
respond (err e) = err e

-- The job is read back after the transaction has committed: an error there rolls nothing back.
unfoldable pub answer_job_input : Codec → ℕ → JobAnswerRequest → ℕ → Db → Result JobResponse × Db
unfolding answer_transaction get_job
answer_job_input codec job_id request now db =
    elim (answer_transaction codec job_id request now db) [
      | err e ↦ (err e, db)
      | ok (_, db') ↦ (respond (get_job codec job_id db'), db')
    ]
