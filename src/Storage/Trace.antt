-- ===== src/Storage/Trace.antt =====
-- The byte budget of an agent's trace.
use jitforge.Base.{
  ℕ, ◌+◌, ◌≤◌, String, len, true, false, Option, none, some, List, [], ◌∷◌, ◌++◌, ◌≡◌, ◌∙◌, refl,
  subst, ◌⊎◌, inl, inr, arith, leb, ltb, ◌==◌, find?, find?-In, find?-update, update, if◌then◌else◌,
  Bool-cases, ==_refl,
}
use jitforge.Protocol.{Value}
use jitforge.Storage.Schema.{Db, AgentRun, AgentEvent}
use jitforge.Storage.Tx.{pure, ok, ◌>>=◌, execute}
use jitforge.Storage.Tx.Runs.{fetch-some}
use jitforge.Storage.Tx.Ends.{ends_ok, Ends, execute_then, pure-Ends, execute-Ends}
use jitforge.Storage.Rows.{run_of}
use jitforge.Storage.Events.{
  Codec, agent_trace_limit_bytes, agent_terminal_event_reserve_bytes, running_event_limit_bytes,
  omitted_payload, to_i32, bounded_event_payload, fit_payload, store_event, trace_of,
  append_agent_event_in_transaction,
}

-- The payload sizes of a job's events, summed.
unfoldable pub stored_bytes : ℕ → List AgentEvent → ℕ
stored_bytes job_id [] = 0
stored_bytes job_id (e ∷ es) =
    let rest = stored_bytes job_id es in if e.job_id == job_id then e.payload_size + rest else rest

stored_bytes-snoc :
    (job_id : ℕ) (es : List AgentEvent) (e : AgentEvent)
    → (e.job_id == job_id) ≡ true
    → stored_bytes job_id (es ++ e ∷ []) ≡ stored_bytes job_id es + e.payload_size
unfolding stored_bytes
stored_bytes-snoc job_id [] e h = ground arith
stored_bytes-snoc job_id (x ∷ xs) e h = ground (arith, stored_bytes-snoc job_id xs e h)

-- What is written fits the limit.
fits_limit :
    (codec : Codec) (limit trace : ℕ) (p : Value × ℕ) (payload : Value) (size : ℕ)
    → fit_payload codec limit trace p ≡ some (payload, size)
    → trace + size ≤ limit
unfolding fit_payload
fits_limit codec limit trace (v, n) payload size h = ground arith

-- How one event of a job changes its run and its stored bytes, for a budget of `limit`.
pub record Accounted (job_id limit : ℕ) (r : AgentRun) (db db' : Db) : Type 0 where
  pub run : AgentRun
  pub found : find? (run_of job_id) db'.runs ≡ some run
  pub balanced :
      run.trace_bytes + stored_bytes job_id db.events
      ≡ r.trace_bytes + stored_bytes job_id db'.events
  pub bounded : (run.trace_bytes ≡ r.trace_bytes) ⊎ (run.trace_bytes ≤ limit)

store_event-Accounted :
    (codec : Codec) (job_id limit now : ℕ) (kind : String) (r : AgentRun) (db : Db)
    (p : Option (Value × ℕ))
    → find? (run_of job_id) db.runs ≡ some r
    → ((payload : Value) (size : ℕ) → p ≡ some (payload, size) → r.trace_bytes + size ≤ limit)
    → Ends (λ a db'. Accounted job_id limit r db db') (store_event job_id kind now p db)
unfolding store_event
store_event-Accounted codec job_id limit now kind r db none e fits =
    pure-Ends tt db (record { run = r; found = e; balanced = refl; bounded = inl refl })
store_event-Accounted codec job_id limit now kind r db (some (payload, size)) e fits =
    execute_then _ _ db (
      execute-Ends _ _ (record {
        run = record r { trace_bytes = r.trace_bytes + size };
        found = touched;
        balanced = omega (arith, stored_bytes-snoc job_id db.events _ (==_refl job_id));
        bounded = inr (fits payload size refl);
      }))
  where
    grow : AgentRun → AgentRun
    grow x = record x { trace_bytes = x.trace_bytes + size }

    touched : find? (run_of job_id) (update (run_of job_id) grow db.runs) ≡ some (grow r)
    touched =
        subst
          (λ b.
            find? (run_of job_id) (update (run_of job_id) grow db.runs)
            ≡ some (if b then grow r else r))
          (find?-In (run_of job_id) db.runs r e).1
          (find?-update (run_of job_id) (run_of job_id) grow db.runs r (λ x. refl) e)

event_of_run :
    (codec : Codec) (job_id : ℕ) (kind : String) (payload : Value) (limit now : ℕ) (r : AgentRun)
    (db : Db)
    → find? (run_of job_id) db.runs ≡ some r
    → append_agent_event_in_transaction codec job_id kind payload limit now db
      ≡ store_event job_id kind now
          (fit_payload codec limit r.trace_bytes (bounded_event_payload codec payload))
          db
unfolding append_agent_event_in_transaction trace_of
event_of_run codec job_id kind payload limit now r db found = fetch-some _ _ _ db (ground arith)

store_event_succeeds :
    (job_id : ℕ) (kind : String) (now : ℕ) (p : Option (Value × ℕ)) (db : Db)
    → (db' : Db) × (store_event job_id kind now p db ≡ ok (tt, db'))
unfolding store_event execute pure ◌>>=◌
store_event_succeeds job_id kind now none db = (db, refl)
store_event_succeeds job_id kind now (some (v, n)) db = (_, refl)

-- An event of a job that has a run always succeeds. It adds to the run's `trace_bytes` exactly the
-- payload bytes that it adds to the job's events, and leaves the total unchanged or within the limit
-- that the caller gives.
pub event-Accounted :
    (codec : Codec) (job_id : ℕ) (kind : String) (payload : Value) (limit now : ℕ) (r : AgentRun)
    (db : Db)
    → find? (run_of job_id) db.runs ≡ some r
    → (db' : Db) × (append_agent_event_in_transaction codec job_id kind payload limit now db
        ≡ ok (tt, db'))
      × Accounted job_id limit r db db'
event-Accounted codec job_id kind payload limit now r db e =
    let p = fit_payload codec limit r.trace_bytes (bounded_event_payload codec payload) in
    let (db', stored) = store_event_succeeds job_id kind now p db in
    (
      db',
      event_of_run codec job_id kind payload limit now r db e ∙ stored,
      ends_ok (λ a d. Accounted job_id limit r db d) _ tt db'
          (store_event-Accounted codec job_id limit now kind r db p e
            (λ v n h. fits_limit codec limit r.trace_bytes _ v n h))
          stored,
    )

-- What an event stores, if anything.
abbrev pub IsStored : Option (Value × ℕ) → Type 0
IsStored none = ⊥
IsStored (some p) = Unit

fits_reserve :
    (codec : Codec) (trace : ℕ) (p : Value × ℕ)
    → trace ≤ running_event_limit_bytes
    → len (codec.encode omitted_payload) ≤ agent_terminal_event_reserve_bytes
    → IsStored (fit_payload codec agent_trace_limit_bytes trace p)
unfolding fit_payload
fits_reserve codec trace (v, n) t o = elim (Bool-cases (leb (trace + n) agent_trace_limit_bytes)) [
  | inl e ↦ rw e tt
  | inr e ↦ rw (e, within) tt
]
  where
    within :
        ltb agent_trace_limit_bytes (trace + to_i32 (len (codec.encode omitted_payload))) ≡ false
    within = ground arith

-- The last event of a job, which may use the whole trace, is always written: while the run's bytes are
-- within the budget of the events before it, and the encoded stand-in payload within the reserve, the
-- transaction succeeds, and the events are the old ones and one more, of the job and the kind given.
pub last_event_written :
    (codec : Codec) (job_id : ℕ) (kind : String) (payload : Value) (now : ℕ) (r : AgentRun)
    (db : Db)
    → find? (run_of job_id) db.runs ≡ some r
    → r.trace_bytes ≤ running_event_limit_bytes
    → len (codec.encode omitted_payload) ≤ agent_terminal_event_reserve_bytes
    → (db' : Db) × (e : AgentEvent) × (append_agent_event_in_transaction codec job_id kind payload
          agent_trace_limit_bytes now db
        ≡ ok (tt, db'))
      × (db'.events ≡ db.events ++ e ∷ [])
      × (e.job_id ≡ job_id)
      × (e.kind ≡ kind)
unfolding ◌>>=◌
last_event_written codec job_id kind payload now r db found within small =
    rw (event_of_run codec job_id kind payload agent_trace_limit_bytes now r db found) (
      written
        (fit_payload codec agent_trace_limit_bytes r.trace_bytes
          (bounded_event_payload codec payload))
        (fits_reserve codec r.trace_bytes _ within small))
  where
    written :
        (p : Option (Value × ℕ))
        → IsStored p
        → (db' : Db) × (e : AgentEvent) × (store_event job_id kind now p db ≡ ok (tt, db'))
          × (db'.events ≡ db.events ++ e ∷ [])
          × (e.job_id ≡ job_id)
          × (e.kind ≡ kind)
    written none s = absurd s
    written (some (v, n)) s = unfold store_event execute in (_, _, refl, refl, refl, refl)
