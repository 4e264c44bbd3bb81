-- ===== src/Storage/References.antt =====
-- crates/jit-storage/src/lib.rs: the artifacts and sources that must be kept, and the archiving of
-- agent traces.
pub mod Archive
use jitforge.Base.{
  ℕ, suc, ◌+◌, ◌*◌, String, Bool, true, false, not, ◌&&◌, ◌||◌, Option, none, some, List, [], ◌∷◌,
  ◌++◌, ltb, ◌==◌, if◌then◌else◌, any, select, length,
}
use jitforge.Protocol.{
  Value, array, object, get, as_text, texts, JobStatus, running, awaiting_input, is_terminal,
}
use jitforge.Storage.Schema.{
  Db, Job, AgentRun, AgentEvent, ArchivedEvent, TraceArchive, Artifact, second,
}
use jitforge.Storage.Tx.{Tx, ◌>>=◌, ◌>>◌, pure, query, execute}

abbrev pub get_of : String → Option Value → Option Value
get_of key none = none
get_of key (some v) = get key v

abbrev pub text_list : Option Value → List String
text_list none = []
text_list (some (array vs)) = texts vs
text_list (some v) = []

-- `checkpoint.pointer("/workspace/<key>").and_then(Value::as_array)`, its texts.
unfoldable pub workspace_texts : String → Value → List String
unfolding get texts
workspace_texts key checkpoint = text_list (get_of key (get "workspace" checkpoint))

abbrev pub text_of : Option Value → List String
text_of none = []
text_of (some v) = elim (as_text v) [ none ↦ [] | some s ↦ s ∷ [] ]

-- `status IN ('running', 'awaiting_input')`
abbrev pub is_in_progress : JobStatus → Bool
is_in_progress running = true
is_in_progress awaiting_input = true
is_in_progress _ = false

-- `$1::uuid IS NULL OR j.id <> $1`
abbrev pub is_other : Option ℕ → ℕ → Bool
is_other none id = true
is_other (some x) id = not (id == x)

-- The runs whose job is in progress and not excluded.
unfoldable pub active_runs : Option ℕ → Db → List AgentRun
active_runs excluded db =
    select
      (λ r.
        any (λ j. j.id == r.job_id && is_in_progress j.status && is_other excluded j.id) db.jobs)
      db.runs

unfoldable pub collect : {A : Type 0} → (A → List String) → List A → List String
collect f [] = []
collect f (a ∷ rest) = f a ++ collect f rest

pub record References : Type 0 where
  pub digests : List String
  pub sources : List String

-- The hash sets are lists here: only membership is read.
unfoldable pub referenced_artifacts_inner : Option ℕ → Tx References
unfolding workspace_texts active_runs collect
referenced_artifacts_inner excluded = query (λ db. record {
  digests =
      collect (λ a. a.digest ∷ []) db.artifacts
      ++ collect (λ r. workspace_texts "candidate_digests" r.checkpoint) (active_runs excluded db);
  sources =
      collect (λ a. text_of (get "source_sha256" a.manifest)) db.artifacts
      ++ collect (λ r. workspace_texts "candidate_sources" r.checkpoint) (active_runs excluded db);
})

unfoldable pub referenced_artifacts : Tx References
unfolding referenced_artifacts_inner
referenced_artifacts = referenced_artifacts_inner none

unfoldable pub referenced_artifacts_excluding_job : ℕ → Tx References
unfolding referenced_artifacts_inner
referenced_artifacts_excluding_job job_id = referenced_artifacts_inner (some job_id)

-- A job that ended more than seven days ago.
unfoldable pub is_archivable : ℕ → Job → Bool
is_archivable now j = is_terminal j.status && ltb (j.updated_at + 7 * 24 * 3600 * second) now

abbrev pub event_of : ℕ → AgentEvent → Bool
event_of job_id e = e.job_id == job_id

abbrev pub archive_of : ℕ → TraceArchive → Bool
archive_of job_id a = a.job_id == job_id

-- `jsonb_build_object`
unfoldable pub archived_event : AgentEvent → ArchivedEvent
archived_event e = record {
  id = e.id;
  kind = e.kind;
  payload = e.payload;
  created_at = e.created_at;
}

-- `jsonb_agg`, over rows that stand in the order of their ids.
unfoldable pub archived_events : List AgentEvent → List ArchivedEvent
unfolding archived_event
archived_events [] = []
archived_events (e ∷ es) = archived_event e ∷ archived_events es

-- One archive for each such job that has events and no archive; the number of archives written.
unfoldable pub archive_jobs : List Job → List AgentEvent → List TraceArchive → List TraceArchive
unfolding archived_events
archive_jobs [] events old = []
archive_jobs (j ∷ js) events old =
    let rest = archive_jobs js events old in
    let own = select (event_of j.id) events in
    if ltb 0 (length own) && not (any (archive_of j.id) old)
    then record { job_id = j.id; event_count = length own; events = archived_events own } ∷ rest
    else rest

unfoldable pub compact_agent_traces : ℕ → Tx ℕ
unfolding is_archivable archive_jobs
compact_agent_traces now = do
  written ← query (λ db. archive_jobs (select (is_archivable now) db.jobs) db.events db.archives)
  execute (λ db. record db { archives = db.archives ++ written })
  execute (λ db. record db {
    events = select (λ e. not (any (archive_of e.job_id) db.archives)) db.events;
  })
  pure (length written)
