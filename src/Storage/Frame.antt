-- ===== src/Storage/Frame.antt =====
-- What the shared statements leave alone.
use jitforge.Base.{ℕ, String, Bool, Option, none, some, ◌≡◌, refl, ap}
use jitforge.Protocol.{Value}
use jitforge.Storage.Schema.{Db, Job, Version}
use jitforge.Storage.Tx.Ends.{
  Ends, fetch_then, query_then, execute_then, pure-Ends, execute-Ends, ensure-Ends,
}
use jitforge.Storage.Rows.{set_versions, set_version_if, set_version_of}
use jitforge.Storage.Events.{
  Codec, store_event, append_agent_event_in_transaction, ensure_job_owner,
}

-- Nothing but the trace of an agent differs.
pub record SameRows (db db' : Db) : Type 0 where
  pub tools : db'.tools ≡ db.tools
  pub versions : db'.versions ≡ db.versions
  pub jobs : db'.jobs ≡ db.jobs
  pub inputs : db'.inputs ≡ db.inputs
  pub artifacts : db'.artifacts ≡ db.artifacts
  pub approvals : db'.approvals ≡ db.approvals

pub SameRows-refl : (db : Db) → SameRows db db
SameRows-refl db = record {
  tools = refl;
  versions = refl;
  jobs = refl;
  inputs = refl;
  artifacts = refl;
  approvals = refl;
}

store_event-Ends :
    (job_id : ℕ) (kind : String) (now : ℕ) (p : Option (Value × ℕ)) (db : Db)
    → Ends (λ a db'. SameRows db db') (store_event job_id kind now p db)
unfolding store_event
store_event-Ends job_id kind now none db = pure-Ends tt db (SameRows-refl db)
store_event-Ends job_id kind now (some (payload, size)) db = execute_then _ _ db (
    execute-Ends _ _ (record {
      tools = refl;
      versions = refl;
      jobs = refl;
      inputs = refl;
      artifacts = refl;
      approvals = refl;
    }))

-- An event changes the trace alone.
pub event-Ends :
    (codec : Codec) (job_id : ℕ) (kind : String) (payload : Value) (limit now : ℕ) (db : Db)
    → Ends
        (λ a db'. SameRows db db')
        (append_agent_event_in_transaction codec job_id kind payload limit now db)
unfolding append_agent_event_in_transaction
event-Ends codec job_id kind payload limit now db =
    fetch_then _ _ _ db (λ trace e. store_event-Ends job_id kind now _ db)

pub owner-Ends :
    (job_id : ℕ) (worker : String) (db : Db)
    → Ends (λ a db'. db' ≡ db) (ensure_job_owner job_id worker db)
unfolding ensure_job_owner
owner-Ends job_id worker db = query_then _ _ db (ensure-Ends _ _ db (λ e. refl))

only_versions :
    (o : Option Job) (p : Version → Bool) (f : Version → Version) (db : Db)
    → set_version_if o p f db ≡ record db { versions = (set_version_if o p f db).versions }
unfolding set_versions
only_versions none p f db = refl
only_versions (some j) p f db = refl

-- The UPDATE of a job's version changes the versions alone.
pub set_version_of_lem :
    (job_id : ℕ) (p : Version → Bool) (f : Version → Version) (db : Db)
    → set_version_of job_id p f db
      ≡ record db { versions = (set_version_of job_id p f db).versions }
unfolding set_version_of
set_version_of_lem job_id p f db = only_versions _ p f db

pub jobs-set_version_of :
    (job_id : ℕ) (p : Version → Bool) (f : Version → Version) (db : Db)
    → (set_version_of job_id p f db).jobs ≡ db.jobs
jobs-set_version_of job_id p f db = ap (λ (d : Db). d.jobs) (set_version_of_lem job_id p f db)

pub inputs-set_version_of :
    (job_id : ℕ) (p : Version → Bool) (f : Version → Version) (db : Db)
    → (set_version_of job_id p f db).inputs ≡ db.inputs
inputs-set_version_of job_id p f db = ap (λ (d : Db). d.inputs) (set_version_of_lem job_id p f db)

pub runs-set_version_of :
    (job_id : ℕ) (p : Version → Bool) (f : Version → Version) (db : Db)
    → (set_version_of job_id p f db).runs ≡ db.runs
runs-set_version_of job_id p f db = ap (λ (d : Db). d.runs) (set_version_of_lem job_id p f db)
