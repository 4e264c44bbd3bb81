-- ===== src/Storage/Versions.antt =====
-- crates/jit-storage/src/lib.rs: revocation, and the version that a caller gets.
pub mod Newest
pub mod Revoked
use jitforge.Base.{
  ℕ, ◌+◌, String, Bool, true, false, not, ◌&&◌, ◌||◌, Option, none, some, List, [], ◌∷◌, leb, ltb,
  ◌==◌, str_eq, if◌then◌else◌, find?, select, update, is_some,
}
use jitforge.Domain.{ToolName, ToolVersionStatus, ready, deprecated, revoked}
use jitforge.Protocol.{IoFormat, RevokeResponse, JobError, Value}
use jitforge.Storage.Schema.{
  Db, Tool, Version, tool_not_found, version_not_found, version_not_revocable, tool_not_ready,
  artifact_not_found, invariant, i64_max,
}
use jitforge.Storage.Tx.{Tx, ◌>>=◌, ◌>>◌, pure, query, execute, fetch, ensure}
use jitforge.Storage.Rows.{is_version, set_versions}
use jitforge.Storage.Register.{has_name}
use jitforge.Storage.Responses.{job_error}

unfoldable pub find_tool : ToolName → Db → Option Tool
find_tool name db = find? (has_name name) db.tools

unfoldable pub find_version : ℕ → ℕ → Db → Option Version
find_version tool_id revision db = find? (is_version tool_id revision) db.versions

abbrev pub is_ready : ToolVersionStatus → Bool
is_ready ready = true
is_ready _ = false

-- `status IN ('ready', 'deprecated')`
abbrev pub is_revocable : ToolVersionStatus → Bool
is_revocable ready = true
is_revocable deprecated = true
is_revocable _ = false

-- `max(revision)`, NULL over no row.
abbrev pub larger : ℕ → Option ℕ → Option ℕ
larger n none = some n
larger n (some m) = if leb n m then some m else some n

unfoldable pub max_revision : List Version → Option ℕ
max_revision [] = none
max_revision (v ∷ vs) = larger v.revision (max_revision vs)

-- The newest other ready version of a tool.
unfoldable pub fallback : ℕ → ℕ → List Version → Option ℕ
unfolding max_revision
fallback tool_id revision vs =
    max_revision
      (select (λ v. v.tool_id == tool_id && is_ready v.status && not (v.revision == revision)) vs)

abbrev pub is_stable : ℕ → Option ℕ → Bool
is_stable revision none = false
is_stable revision (some r) = r == revision

unfoldable pub revoke_version : String → ℕ → Version → Version
revoke_version reason now v = record v {
  status = revoked;
  error_code = some "revoked";
  error_message = some reason;
  updated_at = now;
}

-- The stable revision after the revocation, and its UPDATE.
unfoldable pub replace_stable : Tool → ℕ → ℕ → Bool → Tx (Option ℕ)
unfolding fallback
replace_stable tool revision now false = pure tool.stable_revision
replace_stable tool revision now true = do
  next ← query (λ db. fallback tool.id revision db.versions)
  execute (λ db. record db {
    tools =
        update (λ t. t.id == tool.id) (λ t. record t { stable_revision = next; updated_at = now })
          db.tools;
  })
  pure next

unfoldable pub revoke_tool_version : ToolName → ℕ → String → ℕ → Tx RevokeResponse
unfolding find_tool find_version revoke_version replace_stable
revoke_tool_version name revision reason now = do
  ensure (leb revision i64_max) version_not_found
  tool ← fetch (find_tool name) tool_not_found
  version ← fetch (find_version tool.id revision) version_not_found
  ensure (is_revocable version.status) (version_not_revocable version.status)
  execute (set_versions (is_version tool.id revision) (revoke_version reason now))
  next ← replace_stable tool revision now (is_stable revision tool.stable_revision)
  pure (record { tool = name.text; revision = revision; status = revoked; stable_revision = next })

pub record ResolvedTool : Type 0 where
  pub tool_id : ℕ
  pub revision : ℕ
  pub artifact_digest : String
  pub input_format : IoFormat
  pub output_format : IoFormat

-- `Option::or`
abbrev pub first_some : Option ℕ → Option ℕ → Option ℕ
first_some (some a) o = some a
first_some none o = o

abbrev pub fits_i64 : Option ℕ → Bool
fits_i64 none = true
fits_i64 (some r) = leb r i64_max

abbrev pub ready_version : Option Version → Option Version
ready_version none = none
ready_version (some v) = if is_ready v.status then some v else none

unfoldable pub resolve_tool : ToolName → Option ℕ → Tx ResolvedTool
unfolding find_tool find_version
resolve_tool name requested = do
  ensure (fits_i64 requested) version_not_found
  tool ← fetch (find_tool name) tool_not_found
  revision ← fetch (λ db. first_some requested tool.stable_revision) tool_not_ready
  version ← fetch (λ db. ready_version (find_version tool.id revision db)) tool_not_ready
  digest ← fetch (λ db. version.artifact_digest) (invariant "ready version has no artifact")
  pure (record {
    tool_id = tool.id;
    revision = revision;
    artifact_digest = digest;
    input_format = version.input_format;
    output_format = version.output_format;
  })

unfoldable pub artifact_digest_for_version : ToolName → ℕ → Tx String
unfolding find_tool find_version
artifact_digest_for_version name revision = do
  ensure (leb revision i64_max) version_not_found
  tool ← fetch (find_tool name) version_not_found
  version ← fetch (find_version tool.id revision) version_not_found
  fetch (λ db. version.artifact_digest) artifact_not_found

pub record ToolVersionSummary : Type 0 where
  pub revision : ℕ
  pub requested_intent : String
  pub description : String
  pub status : ToolVersionStatus
  pub input_format : IoFormat
  pub output_format : IoFormat
  pub assumptions : Value
  pub contract : Option Value
  pub artifact_digest : Option String
  pub validation_summary : Option Value
  pub error : Option JobError

pub record ToolSummaryResponse : Type 0 where
  pub tool : String
  pub stable_revision : Option ℕ
  pub latest_revision : ℕ
  pub selected : ToolVersionSummary

-- `unwrap_or`
abbrev pub some_or : Option ℕ → ℕ → ℕ
some_or none d = d
some_or (some a) d = a

unfoldable pub inspect_tool : ToolName → Option ℕ → Tx ToolSummaryResponse
unfolding find_tool find_version
inspect_tool name requested = do
  tool ← fetch (find_tool name) tool_not_found
  let selected = some_or (first_some requested tool.stable_revision) tool.latest_revision
  ensure (leb selected i64_max) (invariant "revision exceeds PostgreSQL BIGINT")
  version ← fetch (find_version tool.id selected) version_not_found
  pure (record {
    tool = name.text;
    stable_revision = tool.stable_revision;
    latest_revision = tool.latest_revision;
    selected = record {
      revision = version.revision;
      requested_intent = version.requested_intent;
      description = version.description;
      status = version.status;
      input_format = version.input_format;
      output_format = version.output_format;
      assumptions = version.assumptions;
      contract = version.contract;
      artifact_digest = version.artifact_digest;
      validation_summary = version.validation_summary;
      error = job_error version.error_code version.error_message none;
    };
  })
