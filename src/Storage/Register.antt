-- ===== src/Storage/Register.antt =====
-- crates/jit-storage/src/lib.rs: `register`, with its idempotency keys.
pub mod Inserts
pub mod Retry
use Prim.Native.String.{◌++◌ as text_append}
use jitforge.Base.{
  ℕ, ◌+◌, String, Bool, true, false, not, ◌&&◌, ◌||◌, Option, none, some, List, [], ◌∷◌, ◌++◌, ltb,
  ◌==◌, str_eq, if◌then◌else◌, find?, any, update,
}
use jitforge.Domain.{ToolName, ToolVersionStatus, draft}
use jitforge.Protocol.{
  RegistrationRequest, RegistrationResponse, Value, array, nil, JobStatus, JobStage,
}
use jitforge.Storage.Schema.{
  Db, Job, Tool, Version, idempotency_conflict, invariant, database, unique_violation,
  row_not_found, i64_max,
}
use jitforge.Storage.Tx.{Tx, ◌>>=◌, ◌>>◌, pure, query, execute, fetch, ensure}
use jitforge.Storage.Rows.{is_version}
use jitforge.Storage.Claim.{tool_of, version_of}
use jitforge.Storage.Events.{Codec}

-- The digest of the name, a zero byte and the request.
unfoldable pub registration_fingerprint : Codec → ToolName → RegistrationRequest → String
registration_fingerprint codec name request =
    codec.sha256_hex (text_append name.text (text_append "\0" (codec.encode_request request)))

-- What the lookup by key gives.
pub record Registration : Type 0 where
  pub request_fingerprint : String
  pub response : RegistrationResponse

abbrev pub registration_row :
    Codec → Option Job → Option Tool → Option Version → Option Registration
registration_row codec (some j) (some t) (some v) = some (record {
  request_fingerprint = j.request_fingerprint;
  response = record {
    tool = t.name;
    revision = j.revision;
    status = v.status;
    job_id = codec.uuid_text j.id;
  };
})
registration_row codec _ _ v = none

abbrev pub has_key : String → Job → Bool
has_key key j = str_eq j.idempotency_key key

unfoldable pub find_registration : Codec → String → Db → Option Registration
find_registration codec key db =
    let j = find? (has_key key) db.jobs in
    registration_row codec j (tool_of j db.tools) (version_of j db.versions)

abbrev pub has_name : ToolName → Tool → Bool
has_name name t = str_eq t.name name.text

-- `INSERT INTO tools … ON CONFLICT (name) DO NOTHING`
unfoldable pub insert_tool : ToolName → ℕ → ℕ → Tx Unit
insert_tool name tool_id now = do
  named ← query (λ db. any (has_name name) db.tools)
  taken ← query (λ db. any (λ t. t.id == tool_id) db.tools)
  ensure (named || not taken) (database unique_violation)
  execute (λ db. record db {
    tools =
        if named
        then db.tools
        else db.tools
          ++ record {
            id = tool_id;
            name = name.text;
            latest_revision = 0;
            stable_revision = none;
            created_at = now;
            updated_at = now;
          }
            ∷ [];
  })

unfoldable pub draft_version : RegistrationRequest → ℕ → ℕ → ℕ → Version
draft_version request tool_id revision now = record {
  tool_id = tool_id;
  revision = revision;
  requested_intent = request.intent;
  description = request.intent;
  input_format = request.input_format;
  output_format = request.output_format;
  examples = request.examples;
  status = draft;
  contract = none;
  assumptions = array nil;
  artifact_digest = none;
  validation_summary = none;
  error_code = none;
  error_message = none;
  created_at = now;
  updated_at = now;
}

unfoldable pub insert_version : Version → Tx Unit
insert_version v = do
  taken ← query (λ db. any (is_version v.tool_id v.revision) db.versions)
  ensure (not taken) (database unique_violation)
  execute (λ db. record db { versions = db.versions ++ v ∷ [] })

unfoldable pub queued_job : RegistrationRequest → String → String → ℕ → ℕ → ℕ → ℕ → Job
queued_job request key fingerprint job_id tool_id revision now = record {
  id = job_id;
  tool_id = tool_id;
  revision = revision;
  idempotency_key = key;
  request_fingerprint = fingerprint;
  input_samples = request.input_samples;
  status = JobStatus.queued;
  stage = JobStage.queued;
  attempts = 0;
  available_at = now;
  lease_until = none;
  worker_id = none;
  error_code = none;
  error_message = none;
  details = none;
  created_at = now;
  updated_at = now;
}

unfoldable pub insert_job : Job → Tx Unit
insert_job j = do
  taken ← query (λ db. any (λ k. k.id == j.id || has_key j.idempotency_key k) db.jobs)
  ensure (not taken) (database unique_violation)
  execute (λ db. record db { jobs = db.jobs ++ j ∷ [] })

-- The rest of `register` where no job has the key.
unfoldable pub register_new :
    Codec → ToolName → RegistrationRequest → String → String → ℕ → ℕ → ℕ → Tx RegistrationResponse
unfolding insert_tool insert_version insert_job draft_version queued_job
register_new codec name request key fingerprint new_tool_id job_id now = do
  insert_tool name new_tool_id now
  tool ← fetch (λ db. find? (has_name name) db.tools) (database row_not_found)
  ensure (ltb tool.latest_revision i64_max) (invariant "revision overflow")
  execute (λ db. record db {
    tools =
        update (λ t. t.id == tool.id)
          (λ t. record t { latest_revision = tool.latest_revision + 1; updated_at = now }) db.tools;
  })
  insert_version (draft_version request tool.id (tool.latest_revision + 1) now)
  insert_job (queued_job request key fingerprint job_id tool.id (tool.latest_revision + 1) now)
  pure (record {
    tool = name.text;
    revision = tool.latest_revision + 1;
    status = draft;
    job_id = codec.uuid_text job_id;
  })

unfoldable pub register_with :
    Codec
    → ToolName
    → RegistrationRequest
    → String
    → String
    → ℕ
    → ℕ
    → ℕ
    → Option Registration
    → Tx RegistrationResponse
unfolding register_new
register_with codec name request key fingerprint new_tool_id job_id now none =
    register_new codec name request key fingerprint new_tool_id job_id now
register_with codec name request key fingerprint new_tool_id job_id now (some r) = do
  ensure (str_eq r.request_fingerprint fingerprint) idempotency_conflict
  pure r.response

-- `new_tool_id` and `job_id` are the UUIDs that the call draws.
unfoldable pub register :
    Codec → ToolName → RegistrationRequest → String → ℕ → ℕ → ℕ → Tx RegistrationResponse
unfolding registration_fingerprint find_registration register_with
register codec name request key new_tool_id job_id now = do
  existing ← query (find_registration codec key)
  register_with codec name request key (registration_fingerprint codec name request) new_tool_id
      job_id now existing
