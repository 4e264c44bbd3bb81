-- ===== src/Storage/Jobs/Leased.antt =====
-- The operations of the worker that leases a job, one lemma each.
use jitforge.Base.{ℕ, String, true, Option, none, some, List, ◌≡◌, refl, ap, ◌∙◌}
use jitforge.Domain.{ToolVersionStatus}
use jitforge.Protocol.{Value, JobStage, get, array}
use jitforge.Storage.Schema.{Db, Job}
use jitforge.Storage.Tx.Ends.{
  weaken-Ends, Ends, bind-Ends, fetch_then, query_then, execute_then, ensure_then, pure-Ends,
  execute-Ends, ensure-Ends,
}
use jitforge.Storage.Rows.{of_job, has_id, is_leased, set_jobs, set_versions}
use jitforge.Storage.Events.{Codec, append_agent_event}
use jitforge.Storage.Frame.{event-Ends, owner-Ends, jobs-set_version_of, inputs-set_version_of}
use jitforge.Storage.Claim.{renew_job_lease}
use jitforge.Storage.Progress.{
  save_agent_checkpoint, set_stage_of_job, set_version_status, write_version_status,
  version_status_of, save_contract, PublishedArtifact, publish_job, reject_job, finish_job,
  fail_job, find_leased, or_else, summary_text, text_items,
}
use jitforge.Storage.Ops.{is_working}
use jitforge.Storage.Jobs.{IsSound, renew, stage, publish, fail}
use jitforge.Storage.Jobs.Rules.{JobStep, still, updated, Leases-found, Leases-of-is_leased}

module _ (now : ℕ) (job_id : ℕ) (worker : String) (db : Db) (s : IsSound db) where
  pub renew-Ends :
      (lease : ℕ)
      → Ends
          (λ a db'. JobStep (some worker) now db db')
          (renew_job_lease job_id worker lease now db)
  unfolding renew_job_lease set_jobs
  renew-Ends lease = query_then _ _ db (
      execute_then _ _ db (
        ensure-Ends _ _ _ (λ e.
          updated (some worker) now db _ (is_leased job_id worker) _ s refl s.resumable (λ j. refl)
            (λ j i h. renew worker _ refl (Leases-of-is_leased job_id worker j h) refl))))

  pub stage-Ends :
      (target : JobStage)
      → is_working target ≡ true
      → Ends
          (λ a db'. JobStep (some worker) now db db')
          (set_stage_of_job job_id worker target now db)
  unfolding set_stage_of_job set_jobs
  stage-Ends target works = query_then _ _ db (
      execute_then _ _ db (
        ensure-Ends _ _ _ (λ e.
          updated (some worker) now db _ (is_leased job_id worker) _ s refl s.resumable (λ j. refl)
            (λ j i h.
              stage worker target _ refl (Leases-of-is_leased job_id worker j h) works refl))))

  pub reject-Ends :
      (code message : String) (details : Option Value)
      → Ends
          (λ a db'. JobStep (some worker) now db db')
          (reject_job job_id worker code message details now db)
  unfolding reject_job set_jobs
  reject-Ends code message details = query_then _ _ db (
      execute_then _ _ db (
        ensure_then _ _ _ _ (λ e. execute-Ends _ _ (
          updated (some worker) now db _ (is_leased job_id worker)
            (fail_job code message details now) s (jobs-set_version_of job_id _ _ _)
            (rw (inputs-set_version_of job_id) s.resumable) (λ j. unfold fail_job in refl)
            (λ j i h.
              fail worker code message details refl (Leases-of-is_leased job_id worker j h)
                refl)))))

  pub publish-Ends :
      (codec : Codec) (artifact : PublishedArtifact)
      → Ends
          (λ a db'. JobStep (some worker) now db db')
          (publish_job codec job_id worker artifact now db)
  unfolding publish_job set_jobs set_versions
  publish-Ends codec artifact = fetch_then _ _ _ db (λ owner found. execute_then _ _ db (
      execute_then _ _ _ (
        execute_then _ _ _ (
          execute_then _ _ _ (
            weaken-Ends _ _ (event-Ends codec job_id _ _ _ now _) (λ a db' same.
              updated (some worker) now db db' (has_id job_id) (finish_job now) s same.jobs
                (rw same.inputs s.resumable) (λ j. unfold finish_job in refl)
                (λ j i h.
                  publish worker refl (Leases-found db job_id worker owner j s found i h)
                    refl)))))))

  pub checkpoint-Ends :
      (engine version : String) (value : Value)
      → Ends
          (λ a db'. JobStep (some worker) now db db')
          (save_agent_checkpoint job_id worker engine version value db)
  unfolding save_agent_checkpoint
  checkpoint-Ends engine version value =
      bind-Ends (λ a db'. db' ≡ db) _ _ db (owner-Ends job_id worker db)
        (λ a db' e. execute-Ends _ _ (
          still (some worker) now db _ s (ap (λ (d : Db). d.jobs) e) (ap (λ (d : Db). d.inputs) e)))

  pub append_event-Ends :
      (codec : Codec) (kind : String) (payload : Value)
      → Ends
          (λ a db'. JobStep (some worker) now db db')
          (append_agent_event codec job_id worker kind payload now db)
  unfolding append_agent_event
  append_event-Ends codec kind payload =
      bind-Ends (λ a db'. db' ≡ db) _ _ db (owner-Ends job_id worker db)
        (λ a db' e. weaken-Ends _ _ (event-Ends codec job_id _ _ _ now db') (λ a db'' same.
          still (some worker) now db db'' s (same.jobs ∙ ap (λ (d : Db). d.jobs) e)
            (same.inputs ∙ ap (λ (d : Db). d.inputs) e)))

  pub contract-Ends :
      (terms : Value) (assumptions : List String)
      → Ends
          (λ a db'. JobStep (some worker) now db db')
          (save_contract job_id worker terms assumptions now db)
  unfolding save_contract set_versions
  contract-Ends terms assumptions = query_then _ _ db (
      query_then _ _ db (
        ensure_then _ _ _ db (λ e.
          execute_then _ _ db (ensure-Ends _ _ _ (λ e'. written (find_leased job_id worker db))))))
    where
      written :
          (o : Option Job)
          → JobStep (some worker) now db (elim o [
            | none ↦ db
            | some j ↦
                set_versions
                  (of_job j)
                  (λ v. record v {
                    contract = some terms;
                    description = or_else (summary_text (get "summary" terms)) v.description;
                    assumptions = array (text_items assumptions);
                    updated_at = now;
                  })
                  db
          ])
      written none = still (some worker) now db db s refl refl
      written (some j) = still (some worker) now db _ s refl refl

pub stage_version-Ends :
    (now job_id : ℕ) (target : JobStage) (db : Db)
    → IsSound db
    → Ends (λ a db'. JobStep none now db db') (set_version_status job_id target now db)
unfolding set_version_status write_version_status
stage_version-Ends now job_id target db s = go (version_status_of target)
  where
    go :
        (o : Option ToolVersionStatus)
        → Ends (λ a db'. JobStep none now db db') (write_version_status job_id o now db)
    go none = pure-Ends tt db (still none now db db s refl refl)
    go (some v) = execute-Ends _ db (
        still none now db _ s (jobs-set_version_of job_id _ _ db)
          (inputs-set_version_of job_id _ _ db))
