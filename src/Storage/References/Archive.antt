-- ===== src/Storage/References/Archive.antt =====
-- Where the events are after `compact_agent_traces`.
use jitforge.Base.{
  ℕ, Bool, true, false, not, ◌&&◌, List, [], ◌∷◌, ◌++◌, ◌≡◌, refl, sym, ap, subst, ◌⊎◌, inl, inr,
  arith, ltb, ==_refl, eq-of-==, if◌then◌else◌, any, any-In, select, In, In-select, Bool-cases,
  length,
}
use jitforge.Storage.Schema.{Db, Job, AgentEvent, ArchivedEvent, TraceArchive}
use jitforge.Storage.Tx.{commit, query, execute, pure, ◌>>=◌}
use jitforge.Storage.References.{
  archived_event, archived_events, archive_jobs, event_of, archive_of, is_archivable,
  compact_agent_traces,
}

module _ {A : Type 0} where
  In-append : (x : A) (xs ys : List A) → In x (xs ++ ys) → In x xs ⊎ In x ys
  In-append x [] ys i = inr i
  In-append x (z ∷ zs) ys (inl e) = inl (inl e)
  In-append x (z ∷ zs) ys (inr i) = elim (In-append x zs ys i) [
    | inl j ↦ inl (inr j)
    | inr j ↦ inr j
  ]

  any-true : (p : A → Bool) (xs : List A) (x : A) → In x xs → p x ≡ true → any p xs ≡ true
  unfolding any
  any-true p [] x i e = absurd i
  any-true p (y ∷ ys) x (inl same) e =
      let t : p y ≡ true = subst (λ z. p z ≡ true) (sym same) e in ground arith
  any-true p (y ∷ ys) x (inr i) e = let t = any-true p ys x i e in ground arith

  In-right : (x : A) (xs ys : List A) → In x ys → In x (xs ++ ys)
  In-right x [] ys i = i
  In-right x (z ∷ zs) ys i = inr (In-right x zs ys i)

In-archived_events :
    (e : AgentEvent) (es : List AgentEvent) → In e es → In (archived_event e) (archived_events es)
unfolding archived_events
In-archived_events e [] i = absurd i
In-archived_events e (d ∷ es) (inl same) = inl (ap archived_event same)
In-archived_events e (d ∷ es) (inr i) = inr (In-archived_events e es i)

-- An archive that is written holds all the events of its job.
archive_jobs-events :
    (js : List Job) (events : List AgentEvent) (old : List TraceArchive) (a : TraceArchive)
    → In a (archive_jobs js events old)
    → a.events ≡ archived_events (select (event_of a.job_id) events)
unfolding archive_jobs
archive_jobs-events [] events old a i = absurd i
archive_jobs-events (j ∷ js) events old a i =
    go (ltb 0 (length (select (event_of j.id) events)) && not (any (archive_of j.id) old)) i
      (archive_jobs-events js events old a)
  where
    new : TraceArchive
    new = record {
      job_id = j.id;
      event_count = length (select (event_of j.id) events);
      events = archived_events (select (event_of j.id) events);
    }

    rest : List TraceArchive
    rest = archive_jobs js events old

    go :
        (b : Bool)
        → In a (if b then new ∷ rest else rest)
        → (In a rest → a.events ≡ archived_events (select (event_of a.job_id) events))
        → a.events ≡ archived_events (select (event_of a.job_id) events)
    go true (inl e) ih =
        subst (λ (x : TraceArchive). x.events ≡ archived_events (select (event_of x.job_id) events))
          e refl
    go true (inr k) ih = ih k
    go false k ih = ih k

-- An archive has the event's id, kind, payload and time.
abbrev pub Archived : AgentEvent → TraceArchive → Type 0
Archived e a =
    (x : ArchivedEvent) × ((x.id ≡ e.id)
      × (x.kind ≡ e.kind)
      × (x.payload ≡ e.payload)
      × (x.created_at ≡ e.created_at))
    × In x a.events

-- After a compaction, each event of a job that had no archive yet is still an event, or an
-- archive of its job has its id, kind, payload and time.
pub compact-In :
    (now : ℕ) (db : Db) (e : AgentEvent)
    → In e db.events
    → any (archive_of e.job_id) db.archives ≡ false
    → In e (commit (compact_agent_traces now) db).events
      ⊎ ((a : TraceArchive) × In a (commit (compact_agent_traces now) db).archives
          × (a.job_id ≡ e.job_id)
          × Archived e a)
unfolding commit compact_agent_traces query execute pure ◌>>=◌ archived_event
compact-In now db e i new = elim (Bool-cases (any (archive_of e.job_id) archives)) [
  | inr f ↦ inl (
      In-select (λ (x : AgentEvent). not (any (archive_of x.job_id) archives)) db.events e i
        (rw f refl))
  | inl t ↦ inr (archived (any-In (archive_of e.job_id) archives t))
]
  where
    written : List TraceArchive
    written = archive_jobs (select (is_archivable now) db.jobs) db.events db.archives

    archives : List TraceArchive
    archives = db.archives ++ written

    archived :
        ((a : TraceArchive) × In a archives × (archive_of e.job_id a ≡ true))
        → (a : TraceArchive) × In a archives × (a.job_id ≡ e.job_id) × Archived e a
    archived (a, j, t) = elim (In-append a db.archives written j) [
      | inl k ↦ absurd (let b = any-true (archive_of e.job_id) db.archives a k t in ground arith)
      | inr k ↦ (
        a,
        j,
        eq-of-== a.job_id e.job_id t,
        (
          archived_event e,
          (refl, refl, refl, refl),
          subst (In (archived_event e))
              (sym (
                archive_jobs-events (select (is_archivable now) db.jobs) db.events db.archives a k))
              (In-archived_events e (select (event_of a.job_id) db.events) (
                In-select (event_of a.job_id) db.events e i
                  (rw (eq-of-== a.job_id e.job_id t, ==_refl e.job_id) refl))),
        ),
      )
    ]
