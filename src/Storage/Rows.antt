-- ===== src/Storage/Rows.antt =====
-- The tests that the WHERE clauses of crates/jit-storage/src/lib.rs share.
use jitforge.Base.{
  ℕ, String, Bool, true, false, ◌&&◌, Option, none, some, ◌==◌, str_eq, find?, update,
}
use jitforge.Protocol.{JobStatus, queued, running, awaiting_input}
use jitforge.Storage.Schema.{Db, Job, Version, AgentRun}

-- `worker_id = $2`; NULL equals nothing.
abbrev pub is_worker : String → Option String → Bool
is_worker w none = false
is_worker w (some v) = str_eq v w

abbrev pub is_running : JobStatus → Bool
is_running running = true
is_running _ = false

abbrev pub is_queued : JobStatus → Bool
is_queued queued = true
is_queued _ = false

abbrev pub is_awaiting : JobStatus → Bool
is_awaiting awaiting_input = true
is_awaiting _ = false

-- `id = $1`
abbrev pub has_id : ℕ → Job → Bool
has_id job_id j = j.id == job_id

-- `id = $1 AND worker_id = $2 AND status = 'running'`
unfoldable pub is_leased : ℕ → String → Job → Bool
is_leased job_id worker j = j.id == job_id && is_worker worker j.worker_id && is_running j.status

-- `v.tool_id = $1 AND v.revision = $2`
abbrev pub is_version : ℕ → ℕ → Version → Bool
is_version tool_id revision v = v.tool_id == tool_id && v.revision == revision

abbrev pub of_job : Job → Version → Bool
of_job j v = is_version j.tool_id j.revision v

abbrev pub run_of : ℕ → AgentRun → Bool
run_of job_id r = r.job_id == job_id

unfoldable pub find_job : ℕ → Db → Option Job
find_job job_id db = find? (has_id job_id) db.jobs

unfoldable pub set_jobs : (Job → Bool) → (Job → Job) → Db → Db
set_jobs p f db = record db { jobs = update p f db.jobs }

unfoldable pub set_versions : (Version → Bool) → (Version → Version) → Db → Db
set_versions p f db = record db { versions = update p f db.versions }

-- `UPDATE tool_versions v SET f FROM synthesis_jobs j WHERE j.id = $1 AND p v AND v is of j`
abbrev pub set_version_if : Option Job → (Version → Bool) → (Version → Version) → Db → Db
set_version_if none p f db = db
set_version_if (some j) p f db = set_versions (λ v. p v && of_job j v) f db

unfoldable pub set_version_of : ℕ → (Version → Bool) → (Version → Version) → Db → Db
unfolding find_job
set_version_of job_id p f db = set_version_if (find_job job_id db) p f db
