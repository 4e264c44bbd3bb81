-- ===== src/Storage/Capabilities.antt =====
-- crates/jit-storage/src/lib.rs: the approvals of HTTP capabilities, and worker heartbeats.
pub mod Laws
use jitforge.Base.{
  ℕ, ◌+◌, ◌*◌, String, len, Bool, true, false, not, ◌&&◌, ◌||◌, Option, none, some, List, [], ◌∷◌,
  ◌++◌, ltb, ◌==◌, str_eq, if◌then◌else◌, any, count, update, length,
}
use jitforge.Text.{is_empty_text, trim}
use jitforge.Protocol.{HttpCapability}
use jitforge.Storage.Schema.{
  Db, Approval, ApprovalStatus, active, revoked, Heartbeat, http_capability_not_found,
  invalid_revocation_reason, database, foreign_key_violation, second,
}
use jitforge.Storage.Rows.{has_id}
use jitforge.Storage.Tx.{Tx, ◌>>=◌, ◌>>◌, pure, query, execute, ensure}

abbrev pub is_active : ApprovalStatus → Bool
is_active active = true
is_active revoked = false

-- `capability_hash = $1`
abbrev pub has_hash : String → Approval → Bool
has_hash hash a = str_eq a.capability_hash hash

-- `capability_hash = $1 AND status = 'active'`
abbrev pub is_approved : String → Approval → Bool
is_approved hash a = has_hash hash a && is_active a.status

unfoldable pub is_http_capability_approved : String → Tx Bool
is_http_capability_approved hash = query (λ db. any (is_approved hash) db.approvals)

unfoldable pub approval : String → HttpCapability → ℕ → ℕ → Approval
approval hash capability job_id now = record {
  capability_hash = hash;
  capability = capability;
  status = active;
  approved_by_job = some job_id;
  approved_at = now;
  revoked_at = none;
  revoked_reason = none;
}

-- `DO UPDATE` of a row; the reason of an old revocation stays.
unfoldable pub approve_again : HttpCapability → ℕ → ℕ → Approval → Approval
approve_again capability job_id now a = record a {
  capability = capability;
  status = active;
  approved_by_job = some job_id;
  approved_at = now;
  revoked_at = none;
}

-- `approved_by_job UUID REFERENCES synthesis_jobs(id)`
abbrev pub job_exists : ℕ → Db → Bool
job_exists job_id db = any (has_id job_id) db.jobs

-- `INSERT … ON CONFLICT (capability_hash) DO UPDATE`
unfoldable pub upsert_approval : String → HttpCapability → ℕ → ℕ → List Approval → List Approval
unfolding approval approve_again
upsert_approval hash capability job_id now rows =
    if any (has_hash hash) rows
    then update (has_hash hash) (approve_again capability job_id now) rows
    else rows ++ approval hash capability job_id now ∷ []

unfoldable pub approve_http_capability : String → HttpCapability → ℕ → ℕ → Tx Unit
unfolding upsert_approval
approve_http_capability hash capability job_id now = do
  known ← query (job_exists job_id)
  ensure known (database foreign_key_violation)
  execute (λ db. record db { approvals = upsert_approval hash capability job_id now db.approvals })

-- `capability_hash = ANY($1)`
unfoldable pub is_one_of : List String → String → Bool
is_one_of [] s = false
is_one_of (h ∷ hs) s = str_eq s h || is_one_of hs s

unfoldable pub count_active : List String → List Approval → ℕ
unfolding is_one_of
count_active hashes rows =
    count (λ a. is_one_of hashes a.capability_hash && is_active a.status) rows

unfoldable pub all_http_capabilities_approved : List String → Tx Bool
unfolding count_active
all_http_capabilities_approved [] = pure true
all_http_capabilities_approved (h ∷ hs) =
    query (λ db. count_active (h ∷ hs) db.approvals == length (h ∷ hs))

unfoldable pub revoke_approval : String → ℕ → Approval → Approval
revoke_approval reason now a = record a {
  status = revoked;
  revoked_at = some now;
  revoked_reason = some reason;
}

unfoldable pub revoke_http_capability : String → String → ℕ → Tx Unit
unfolding revoke_approval
revoke_http_capability hash reason now = do
  ensure (not (is_empty_text (trim reason) || ltb 4096 (len reason))) invalid_revocation_reason
  affected ← query (λ db. count (is_approved hash) db.approvals)
  execute (λ db. record db {
    approvals = update (is_approved hash) (revoke_approval (trim reason) now) db.approvals;
  })
  ensure (affected == 1) http_capability_not_found

abbrev pub of_worker : String → Heartbeat → Bool
of_worker worker h = str_eq h.worker_id worker

unfoldable pub record_worker_heartbeat : String → String → ℕ → Tx Unit
record_worker_heartbeat worker version now = execute (λ db. record db {
  heartbeats =
      if any (of_worker worker) db.heartbeats
      then update (of_worker worker) (λ h. record h { version = version; last_seen_at = now })
          db.heartbeats
      else db.heartbeats
        ++ record { worker_id = worker; version = version; last_seen_at = now } ∷ [];
})

-- `last_seen_at > now() - interval '30 seconds'`
unfoldable pub has_recent_worker : ℕ → Tx Bool
has_recent_worker now =
    query (λ db. any (λ h. ltb now (h.last_seen_at + 30 * second)) db.heartbeats)
