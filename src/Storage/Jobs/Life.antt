-- ===== src/Storage/Jobs/Life.antt =====
-- What the edges give over every history of the registry.
use jitforge.Base.{
  ℕ, String, Bool, true, false, Option, none, is_some, List, [], ◌∷◌, ◌≡◌, ◌≢◌, refl, sym, subst,
  inl, inr, arith, In, Evolves, All,
}
use jitforge.Protocol.{
  JobStatus, queued, running, awaiting_input, ready, rejected, JobStage, complete, is_terminal,
}
use jitforge.Storage.Schema.{Db, Job, empty_db}
use jitforge.Storage.Events.{Codec}
use jitforge.Storage.Claim.{claimable, start_job}
use jitforge.Storage.Progress.{finish_job, fail_job}
use jitforge.Storage.Inputs.{cancelled, suspend, resume}
use jitforge.Storage.Ops.{Op, apply, run, actor, StagesWork, is_working}
use jitforge.Storage.Jobs.{
  Edge, stay, claim, renew, stage, publish, fail, cancel, suspend_for_input, answer, IsFresh,
  IsSound,
}
use jitforge.Storage.Jobs.Steps.{apply-JobStep}

-- Which stages go with which status.
abbrev pub agrees : JobStatus → JobStage → Bool
agrees queued JobStage.queued = true
agrees queued s = is_working s
agrees running s = is_working s
agrees awaiting_input JobStage.awaiting_input = true
agrees awaiting_input _ = false
agrees ready complete = true
agrees ready _ = false
agrees rejected complete = true
agrees rejected _ = false

-- A running job has a worker and a lease, no other has a lease, and the stage fits the status.
pub record IsCoherent (j : Job) : Type 0 where
  pub stage_fits : agrees j.status j.stage ≡ true
  pub leased : j.status ≡ running → (is_some j.worker_id ≡ true) × (is_some j.lease_until ≡ true)
  pub free : j.status ≢ running → j.lease_until ≡ none

IsCoherent-of-IsFresh : (j : Job) → IsFresh j → IsCoherent j
IsCoherent-of-IsFresh j f = record {
  stage_fits = ground arith;
  leased = λ e. ground arith;
  free = λ e. f.lease_until;
}

Edge-IsCoherent :
    (who : Option String) (now : ℕ) (j k : Job) → Edge who now j k → IsCoherent j → IsCoherent k
unfolding start_job finish_job fail_job cancelled suspend resume claimable
Edge-IsCoherent who now j k (stay e) c = subst IsCoherent (sym e) c
Edge-IsCoherent who now j k (claim w lease a h e) c = subst IsCoherent (sym e) (record {
  stage_fits = ground (arith, c.stage_fits);
  leased = λ p. (refl, refl);
  free = λ p. absurd (p refl);
})
Edge-IsCoherent who now j k (renew w until a h e) c = subst IsCoherent (sym e) (record {
  stage_fits = c.stage_fits;
  leased = λ p. ((c.leased p).0, refl);
  free = λ p. absurd (ground arith);
})
Edge-IsCoherent who now j k (stage w s until a h v e) c = subst IsCoherent (sym e) (record {
  stage_fits = ground arith;
  leased = λ p. ((c.leased p).0, refl);
  free = λ p. absurd (ground arith);
})
Edge-IsCoherent who now j k (publish w a h e) c =
    subst IsCoherent (sym e) (record { stage_fits = refl; leased = λ p. cc; free = λ p. refl })
Edge-IsCoherent who now j k (fail w code m d a h e) c =
    subst IsCoherent (sym e) (record { stage_fits = refl; leased = λ p. cc; free = λ p. refl })
Edge-IsCoherent who now j k (cancel d h e) c =
    subst IsCoherent (sym e) (record { stage_fits = refl; leased = λ p. cc; free = λ p. refl })
Edge-IsCoherent who now j k (suspend_for_input w a h e) c =
    subst IsCoherent (sym e) (record { stage_fits = refl; leased = λ p. cc; free = λ p. refl })
Edge-IsCoherent who now j k (answer s h v e) c =
    subst IsCoherent (sym e)
      (record { stage_fits = ground arith; leased = λ p. cc; free = λ p. refl })

-- A property of rows that fresh rows have and edges keep is kept by a table.
Evolves-All :
    (P : Job → Type 0) (who : Option String) (now : ℕ) (xs ys : List Job)
    → ((j : Job) → IsFresh j → P j)
    → ((j k : Job) → Edge who now j k → P j → P k)
    → Evolves (Edge who now) IsFresh xs ys
    → All P xs
    → All P ys
Evolves-All P who now [] ys new old v h = news ys v
  where
    news : (zs : List Job) → All IsFresh zs → All P zs
    news [] f = tt
    news (z ∷ zs) f = (new z f.0, news zs f.1)
Evolves-All P who now (x ∷ xs) [] new old v h = absurd v
Evolves-All P who now (x ∷ xs) (y ∷ ys) new old v h =
    (old x y v.0 h.0, Evolves-All P who now xs ys new old v.1 h.1)

-- A row of the old table stands one edge further in the new one.
pub Evolves-In :
    (who : Option String) (now : ℕ) (xs ys : List Job) (j : Job)
    → Evolves (Edge who now) IsFresh xs ys
    → In j xs
    → (k : Job) × In k ys × Edge who now j k
Evolves-In who now [] ys j v i = absurd i
Evolves-In who now (x ∷ xs) [] j v i = absurd v
Evolves-In who now (x ∷ xs) (y ∷ ys) j v (inl e) =
    (y, inl refl, subst (λ z. Edge who now z y) e v.0)
Evolves-In who now (x ∷ xs) (y ∷ ys) j v (inr i) =
    let (k, ik, e) = Evolves-In who now xs ys j v.1 i in (k, inr ik, e)

-- Every stage that a history writes is one of work.
abbrev pub AllStagesWork : List (ℕ × Op) → Type 0
AllStagesWork [] = Unit
AllStagesWork ((now, op) ∷ rest) = StagesWork op × AllStagesWork rest

module _ (codec : Codec) where
  run-IsSound :
      (ops : List (ℕ × Op)) (db : Db) → AllStagesWork ops → IsSound db → IsSound (run codec ops db)
  unfolding run
  run-IsSound [] db w s = s
  run-IsSound ((now, op) ∷ rest) db w s =
      run-IsSound rest _ w.1 (apply-JobStep codec now db s op w.0).sound

  run-IsCoherent :
      (ops : List (ℕ × Op)) (db : Db)
      → AllStagesWork ops
      → IsSound db
      → All IsCoherent db.jobs
      → All IsCoherent (run codec ops db).jobs
  unfolding run
  run-IsCoherent [] db w s c = c
  run-IsCoherent ((now, op) ∷ rest) db w s c =
      let step = apply-JobStep codec now db s op w.0 in
      run-IsCoherent rest _ w.1 step.sound (
        Evolves-All IsCoherent (actor op) now _ _ IsCoherent-of-IsFresh
          (Edge-IsCoherent (actor op) now) step.evolves c)

  -- After any history of the registry, from its empty tables on and in which the stages that workers
  -- write are stages of work: job ids are distinct; every running job has a worker and a lease and no
  -- other job has a lease; a job's stage fits its status; every input resumes a stage of work.
  pub jobs_stay-IsCoherent :
      (ops : List (ℕ × Op))
      → AllStagesWork ops
      → IsSound (run codec ops empty_db) × All IsCoherent (run codec ops empty_db).jobs
  jobs_stay-IsCoherent ops w =
      (run-IsSound ops empty_db w empty-IsSound, run-IsCoherent ops empty_db w empty-IsSound tt)
    where
      empty-IsSound : IsSound empty_db
      empty-IsSound = record { distinct = tt; resumable = tt }

  -- From sound tables on, a job that has ended, published or rejected, keeps its whole row through every
  -- history in which the stages that workers write are stages of work.
  pub ended_stays :
      (ops : List (ℕ × Op)) (db : Db) (j : Job)
      → AllStagesWork ops
      → IsSound db
      → In j db.jobs
      → is_terminal j.status ≡ true
      → In j (run codec ops db).jobs
  unfolding run
  ended_stays [] db j w s i t = i
  ended_stays ((now, op) ∷ rest) db j w s i t =
      let step = apply-JobStep codec now db s op w.0 in
      let (k, ik, e) = Evolves-In (actor op) now _ _ j step.evolves i in
      ended_stays rest _ j w.1 step.sound
        (subst (λ x. In x (apply codec now op db).jobs) (frozen (actor op) now k e) ik) t
    where
      frozen : (who : Option String) (now : ℕ) (k : Job) → Edge who now j k → k ≡ j
      frozen who now k (stay e) = e
      frozen who now k (claim w lease a h e) = absurd (unfold claimable in ground arith)
      frozen who now k (renew w until a h e) = absurd (ground arith)
      frozen who now k (stage w s until a h v e) = absurd (ground arith)
      frozen who now k (publish w a h e) = absurd (ground arith)
      frozen who now k (fail w code m d a h e) = absurd (ground arith)
      frozen who now k (cancel d h e) = absurd (ground arith)
      frozen who now k (suspend_for_input w a h e) = absurd (ground arith)
      frozen who now k (answer s h v e) = absurd (ground arith)
