-- ===== src/Storage/Events.antt =====
-- crates/jit-storage/src/lib.rs: the trace of a job's agent, with its byte budget.
use jitforge.Base.{
  ℕ, ◌+◌, ◌-◌, ◌*◌, min, String, len, Bool, true, false, Option, none, some, [], ◌∷◌, ◌++◌, leb,
  ltb, if◌then◌else◌, find?, update, any, ◌&&◌, ◌==◌,
}
use jitforge.Protocol.{
  Value, boolean, unsigned, string, object, end, field, RegistrationRequest, running, ready,
  JobStatus,
}
use jitforge.Storage.Schema.{Db, invariant, i32_max, job_lease_lost}
use jitforge.Storage.Tx.{Tx, ◌>>=◌, ◌>>◌, pure, query, execute, fetch, ensure}
use jitforge.Storage.Rows.{is_worker, run_of}

-- What the registry uses of serde_json, sha2, uuid and chrono: the bytes of a value or a request,
-- the hex digest of bytes, the text of a UUID and back, the RFC 3339 text of a time.
pub record Codec : Type 0 where
  pub encode : Value → String
  pub encode_request : RegistrationRequest → String
  pub sha256_hex : String → String
  pub uuid_text : ℕ → String
  pub parse_uuid : String → Option ℕ
  pub rfc3339 : ℕ → String

abbrev pub agent_trace_limit_bytes : ℕ
agent_trace_limit_bytes = 512 * 1024

abbrev pub agent_event_payload_limit_bytes : ℕ
agent_event_payload_limit_bytes = 16 * 1024

abbrev pub agent_terminal_event_reserve_bytes : ℕ
agent_terminal_event_reserve_bytes = 512

-- The budget of the events that are not the last of a job.
abbrev pub running_event_limit_bytes : ℕ
running_event_limit_bytes = agent_trace_limit_bytes - agent_terminal_event_reserve_bytes

-- The payload that stands for one that no longer fits the budget.
abbrev pub omitted_payload : Value
omitted_payload = object (
    field "omitted" (boolean true)
      (field "reason" (string "agent trace byte budget exhausted") end))

-- `i32::try_from(n).unwrap_or(i32::MAX)`
abbrev pub to_i32 : ℕ → ℕ
to_i32 n = min n i32_max

module _ (codec : Codec) where
  -- What stands for a payload of more than 16 KiB.
  unfoldable pub oversized_payload : Value → Value
  oversized_payload payload = object (
      field "omitted" (boolean true) (
        field "bytes" (unsigned (len (codec.encode payload))) (
          field "sha256" (string (codec.sha256_hex (codec.encode payload)))
            (field "reason" (string "event payload exceeded 16 KiB") end))))

  unfoldable pub bounded_event_payload : Value → Value × ℕ
  unfolding oversized_payload
  bounded_event_payload payload =
      if leb (len (codec.encode payload)) agent_event_payload_limit_bytes
      then (payload, to_i32 (len (codec.encode payload)))
      else (oversized_payload payload, to_i32 (len (codec.encode (oversized_payload payload))))

  -- What is written with `trace` bytes used of `limit`. `remaining` of the source is a signed
  -- difference, so the test `size <= remaining` is written as a sum.
  unfoldable pub fit_payload : ℕ → ℕ → Value × ℕ → Option (Value × ℕ)
  fit_payload limit trace (payload, size) =
      if leb (trace + size) limit
      then some (payload, size)
      else if ltb limit (trace + to_i32 (len (codec.encode omitted_payload)))
      then none
      else some (omitted_payload, to_i32 (len (codec.encode omitted_payload)))

-- The INSERT into the events and the UPDATE of the run.
unfoldable pub store_event : ℕ → String → ℕ → Option (Value × ℕ) → Tx Unit
store_event job_id kind now none = pure tt
store_event job_id kind now (some (payload, size)) = do
  execute (λ db. record db {
    events =
        db.events
        ++ record {
          id = db.next_event_id;
          job_id = job_id;
          kind = kind;
          payload = payload;
          payload_size = size;
          created_at = now;
        }
          ∷ [];
    next_event_id = db.next_event_id + 1;
  })
  execute (λ db. record db {
    runs = update (run_of job_id) (λ r. record r { trace_bytes = r.trace_bytes + size }) db.runs;
  })

-- `SELECT trace_bytes FROM synthesis_agent_runs WHERE job_id = $1`
unfoldable pub trace_of : ℕ → Db → Option ℕ
trace_of job_id db = elim (find? (run_of job_id) db.runs) [
  | none ↦ none
  | some r ↦ some r.trace_bytes
]

unfoldable pub append_agent_event_in_transaction : Codec → ℕ → String → Value → ℕ → ℕ → Tx Unit
unfolding bounded_event_payload fit_payload store_event trace_of
append_agent_event_in_transaction codec job_id kind payload limit now = do
  trace ← fetch (trace_of job_id) (invariant "agent run missing before event")
  store_event job_id kind now (fit_payload codec limit trace (bounded_event_payload codec payload))

-- `status IN ('running', 'ready')`
abbrev pub may_write : JobStatus → Bool
may_write running = true
may_write ready = true
may_write _ = false

unfoldable pub ensure_job_owner : ℕ → String → Tx Unit
ensure_job_owner job_id worker = do
  owned ← query (λ db.
      any (λ j. j.id == job_id && is_worker worker j.worker_id && may_write j.status) db.jobs)
  ensure owned job_lease_lost

unfoldable pub append_agent_event : Codec → ℕ → String → String → Value → ℕ → Tx Unit
unfolding ensure_job_owner append_agent_event_in_transaction
append_agent_event codec job_id worker kind payload now = do
  ensure_job_owner job_id worker
  append_agent_event_in_transaction codec job_id kind payload running_event_limit_bytes now
