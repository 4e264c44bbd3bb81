-- ===== src/Storage/Jobs.antt =====
-- The life of a synthesis job as a state machine: the ways in which the registry may change its row.
pub mod Rules
pub mod Leased
pub mod Waiting
pub mod Steps
pub mod Life
pub mod Exclusion
use jitforge.Base.{
  ℕ, String, Bool, true, false, ◌&&◌, Option, none, some, List, ◌≡◌, refl, Evolves, DistinctBy, All,
}
use jitforge.Protocol.{Value, JobStatus, queued, awaiting_input, JobStage, is_terminal}
use jitforge.Storage.Schema.{Db, Job, JobInput}
use jitforge.Storage.Rows.{is_worker, is_running}
use jitforge.Storage.Claim.{claimable, start_job}
use jitforge.Storage.Progress.{finish_job, fail_job}
use jitforge.Storage.Inputs.{cancelled, suspend, resume}
use jitforge.Storage.Ops.{is_working}

-- `worker` holds the job.
abbrev pub Leases : String → Job → Type 0
Leases worker j = (is_worker worker j.worker_id && is_running j.status) ≡ true

-- `k` is what one operation of `who` at the time `now` may make of the row `j`; only a worker has a name.
pub data Edge (who : Option String) (now : ℕ) (j k : Job) : Type 0 where
  stay : k ≡ j → Edge who now j k
  claim :
      (worker : String) (lease : ℕ)
      → who ≡ some worker
      → claimable now j ≡ true
      → k ≡ start_job worker lease now j
      → Edge who now j k
  renew :
      (worker : String) (until : ℕ)
      → who ≡ some worker
      → Leases worker j
      → k ≡ record j { lease_until = some until; updated_at = now }
      → Edge who now j k
  stage :
      (worker : String) (s : JobStage) (until : ℕ)
      → who ≡ some worker
      → Leases worker j
      → is_working s ≡ true
      → k ≡ record j { stage = s; lease_until = some until; updated_at = now }
      → Edge who now j k
  publish :
      (worker : String)
      → who ≡ some worker
      → Leases worker j
      → k ≡ finish_job now j
      → Edge who now j k
  fail :
      (worker code message : String) (details : Option Value)
      → who ≡ some worker
      → Leases worker j
      → k ≡ fail_job code message details now j
      → Edge who now j k
  cancel :
      (details : Value)
      → is_terminal j.status ≡ false
      → k ≡ cancelled details now j
      → Edge who now j k
  suspend_for_input :
      (worker : String) → who ≡ some worker → Leases worker j → k ≡ suspend now j → Edge who now j k
  answer :
      (s : JobStage)
      → j.status ≡ awaiting_input
      → is_working s ≡ true
      → k ≡ resume s now j
      → Edge who now j k

-- A row that a registration has just made.
pub record IsFresh (j : Job) : Type 0 where
  pub status : j.status ≡ queued
  pub stage : j.stage ≡ JobStage.queued
  pub attempts : j.attempts ≡ 0
  pub lease_until : j.lease_until ≡ none
  pub worker_id : j.worker_id ≡ none

-- The jobs of `db'` are those of `db`, each one edge further at most, and fresh ones behind them.
abbrev pub JobsEvolve : Option String → ℕ → Db → Db → Type 0
JobsEvolve who now db db' = Evolves (Edge who now) IsFresh db.jobs db'.jobs

-- Job ids are distinct, and a pending or answered input resumes a stage of work.
pub record IsSound (db : Db) : Type 0 where
  pub distinct : DistinctBy (λ (j : Job). j.id) db.jobs
  pub resumable : All (λ (i : JobInput). is_working i.resume_stage ≡ true) db.inputs
