-- ===== src/Examples/Records.antt =====
-- The theorems on registrations, versions, traces, approvals and pages at concrete inputs.
use jitforge.Base.{
  ℕ, true, false, none, some, List, [], ◌∷◌, ◌≡◌, ◌≢◌, refl, ap, ◌⊎◌, inl, In, arith, any, find?,
  count, select, update, str_eq,
}
use jitforge.Text.{trim, is_whitespace}
use jitforge.Domain.{ToolName, draft, revoked}
use jitforge.Protocol.{
  null, string, HttpCapability, get_method, RegistrationResponse, RevokeResponse,
}
use jitforge.Storage.Schema.{
  Db, AgentEvent, TraceArchive, empty_db, idempotency_conflict, tool_not_ready,
}
use jitforge.Storage.Tx.{ok, err, commit, ◌>>=◌, ensure, fetch, execute, query, pure}
use jitforge.Storage.Rows.{set_versions}
use jitforge.Storage.Events.{append_agent_event_in_transaction, agent_trace_limit_bytes}
use jitforge.Storage.Register.{register, registration_fingerprint}
use jitforge.Storage.Register.Retry.{register_retry, register_conflict}
use jitforge.Storage.Trace.{Accounted, event-Accounted, last_event_written}
use jitforge.Storage.Versions.{revoke_tool_version, resolve_tool, fallback}
use jitforge.Storage.Versions.Newest.{IsFallback, fallback-IsFallback}
use jitforge.Storage.Versions.Revoked.{resolve-revoke}
use jitforge.Storage.Capabilities.{approve_http_capability, revoke_http_capability}
use jitforge.Storage.Capabilities.Laws.{approved, approved-revoke}
use jitforge.Storage.References.{compact_agent_traces}
use jitforge.Storage.References.Archive.{Archived, compact-In}
use jitforge.Storage.Listing.Pages.{follow, follow-drop}
use jitforge.Examples.{
  plain, slug, slug_request, held_job, published_job, slug_version, slug_run, with_job,
}

-- The tables after the first registration, and its answer.
abbrev registered : Db
registered = commit (register plain slug slug_request "key" 7 1 100) empty_db

abbrev first_answer : RegistrationResponse
first_answer = record { tool = "slug"; revision = 1; status = draft; job_id = "1" }

first_registration :
    register plain slug slug_request "key" 7 1 100 empty_db ≡ ok (first_answer, registered)
unfolding register commit ◌>>=◌ query find? ensure any execute fetch pure
first_registration = refl

register_retry_example :
    register plain slug slug_request "key" 8 2 200 registered ≡ ok (first_answer, registered)
register_retry_example =
    register_retry plain slug slug_request "key" 7 1 100 empty_db registered first_answer tt
      first_registration 8 2 200

abbrev other : ToolName
other = record { text = "other" }

other_fingerprint :
    registration_fingerprint plain other slug_request
    ≢ registration_fingerprint plain slug slug_request
unfolding registration_fingerprint
other_fingerprint e =
    let told : true ≡ false = ap (str_eq (registration_fingerprint plain other slug_request)) e in
    absurd cc

register_conflict_example :
    register plain other slug_request "key" 8 2 200 registered ≡ err idempotency_conflict
register_conflict_example =
    register_conflict plain slug slug_request "key" 7 1 100 empty_db registered first_answer tt
      first_registration other slug_request 8 2 200 other_fingerprint

event-Accounted_example :
    (db' : Db) × (append_agent_event_in_transaction plain 1 "step"
        (string "done")
        agent_trace_limit_bytes
        300
        (with_job held_job)
      ≡ ok (tt, db'))
    × Accounted 1 agent_trace_limit_bytes slug_run (with_job held_job) db'
unfolding find?
event-Accounted_example =
    event-Accounted plain 1 "step" (string "done") agent_trace_limit_bytes 300 slug_run
      (with_job held_job) refl

last_event_written_example :
    (db' : Db) × (e : AgentEvent) × (append_agent_event_in_transaction plain 1 "job_cancelled" null
        agent_trace_limit_bytes 300
        (with_job held_job)
      ≡ ok (tt, db'))
    × (db'.events ≡ e ∷ [])
    × (e.job_id ≡ 1)
    × (e.kind ≡ "job_cancelled")
unfolding find?
last_event_written_example =
    last_event_written plain 1 "job_cancelled" null 300 slug_run (with_job held_job) refl
      (omega arith) (omega arith)

abbrev after_revoke : Db
after_revoke = commit (revoke_tool_version slug 1 "unsafe" 500) (with_job published_job)

abbrev revoke_answer : RevokeResponse
revoke_answer = record { tool = "slug"; revision = 1; status = revoked; stable_revision = none }

revocation :
    revoke_tool_version slug 1 "unsafe" 500 (with_job published_job)
    ≡ ok (revoke_answer, after_revoke)
unfolding revoke_tool_version commit ◌>>=◌ ensure fetch find? execute query pure select set_versions
    update
revocation = refl

resolve-revoke_example : resolve_tool slug (some 1) after_revoke ≡ err tool_not_ready
resolve-revoke_example =
    resolve-revoke slug 1 500 "unsafe" (with_job published_job) after_revoke revoke_answer
      revocation

fallback-IsFallback_example :
    IsFallback 7 2
      (slug_version ∷ record slug_version { revision = 2 } ∷ [])
      (fallback 7 2 (slug_version ∷ record slug_version { revision = 2 } ∷ []))
fallback-IsFallback_example =
    fallback-IsFallback 7 2 (slug_version ∷ record slug_version { revision = 2 } ∷ [])

abbrev event : AgentEvent
event = record {
  id = 1;
  job_id = 1;
  kind = "step";
  payload = null;
  payload_size = 4;
  created_at = 200;
}

abbrev traced : Db
traced = record (with_job published_job) { events = event ∷ [] }

compact-In_example :
    In event (commit (compact_agent_traces 1_000_000_000_000) traced).events
    ⊎ ((a : TraceArchive) × In a (commit (compact_agent_traces 1_000_000_000_000) traced).archives
        × (a.job_id ≡ 1)
        × Archived event a)
unfolding any
compact-In_example = compact-In 1_000_000_000_000 traced event (inl refl) refl

abbrev example_site : HttpCapability
example_site = record {
  scheme = "https";
  host = "example.com";
  port = 443;
  method = get_method;
  path_prefix = "/";
  query_keys = [];
  purpose = "read a page";
}

abbrev approving : Db
approving = commit (approve_http_capability "h" example_site 1 300) (with_job held_job)

approved-revoke_example :
    approved "h" (commit (revoke_http_capability "h" "misused" 400) approving) ≡ false
unfolding trim is_whitespace commit approve_http_capability count execute any ◌>>=◌ query ensure
approved-revoke_example = approved-revoke "h" "h" "misused" 400 approving refl refl

abbrev rows : List ℕ
rows = 1 ∷ 2 ∷ 3 ∷ 4 ∷ 5 ∷ []

follow-drop_example : follow 6 2 0 rows ≡ rows
follow-drop_example = follow-drop 5 2 0 rows (omega arith) (omega arith) (omega arith)
