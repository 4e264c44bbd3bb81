-- ===== src/Storage/Inputs/Cancel.antt =====
-- What `cancel_job` does to a job that no agent run stands for.
use jitforge.Base.{ℕ, String, len, false, not, ◌||◌, none, some, ◌≡◌, refl, ap, ◌∙◌, ltb, find?}
use jitforge.Text.{is_empty_text, trim}
use jitforge.Protocol.{Value, is_terminal}
use jitforge.Storage.Schema.{Db, Job, invariant}
use jitforge.Storage.Tx.{err}
use jitforge.Storage.Tx.Runs.{fetch-some, fetch-none, execute_run, ensure-true}
use jitforge.Storage.Rows.{run_of, find_job, set_jobs}
use jitforge.Storage.Frame.{runs-set_version_of}
use jitforge.Storage.Events.{Codec, trace_of, append_agent_event_in_transaction}
use jitforge.Storage.Inputs.{set_inputs, cancel_with, cancel_job}

trace_of-none :
    (job_id : ℕ) (db : Db) → find? (run_of job_id) db.runs ≡ none → trace_of job_id db ≡ none
unfolding trace_of
trace_of-none job_id db h = rw (trace_of, h) refl

event_needs_run :
    (codec : Codec) (job_id : ℕ) (kind : String) (payload : Value) (limit now : ℕ) (db : Db)
    → find? (run_of job_id) db.runs ≡ none
    → append_agent_event_in_transaction codec job_id kind payload limit now db
      ≡ err (invariant "agent run missing before event")
unfolding append_agent_event_in_transaction
event_needs_run codec job_id kind payload limit now db missing =
    fetch-none (trace_of job_id) _ _ db (trace_of-none job_id db missing)

-- A job in progress with no agent run, such as one that no worker has taken yet, is not cancelled:
-- with any admissible reason the call fails, for the event that it would write needs the run.
pub cancel_job_unstarted :
    (codec : Codec) (job_id now : ℕ) (reason : String) (db : Db) (j : Job)
    → is_empty_text (trim reason) || ltb 4096 (len (trim reason)) ≡ false
    → find_job job_id db ≡ some j
    → is_terminal j.status ≡ false
    → find? (run_of job_id) db.runs ≡ none
    → cancel_job codec job_id reason now db ≡ err (invariant "agent run missing before event")
unfolding cancel_job cancel_with set_jobs set_inputs
cancel_job_unstarted codec job_id now reason db j valid found live missing =
    ensure-true _ _ _ db (ap not valid)
    ∙ fetch-some _ _ _ db found
    ∙ ensure-true _ _ _ db (ap not live)
    ∙ execute_run _ _ _
    ∙ execute_run _ _ _
    ∙ execute_run _ _ _
    ∙ event_needs_run codec job_id _ _ _ now _
        (ap (find? (run_of job_id)) (runs-set_version_of job_id _ _ _) ∙ missing)
