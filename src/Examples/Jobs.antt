-- ===== src/Examples/Jobs.antt =====
-- The theorems on jobs at concrete inputs.
use jitforge.Base.{
  ℕ, ◌≤◌, String, Bool, true, false, Option, none, some, List, [], ◌∷◌, ◌≡◌, ◌≢◌, refl, ap, find?,
  ◌⊎◌, inl, In, All, arith,
}
use jitforge.Protocol.{running, Value, object, end, building}
use jitforge.Text.{trim, is_whitespace}
use jitforge.Storage.Schema.{Job, empty_db, invariant}
use jitforge.Storage.Tx.{err}
use jitforge.Storage.Rows.{is_worker, find_job}
use jitforge.Storage.Claim.{start_job, candidate, claimable}
use jitforge.Storage.Claim.Order.{candidate_oldest}
use jitforge.Storage.Inputs.{suspend, resume, cancelled, cancel_job}
use jitforge.Storage.Inputs.Resume.{start_job-resume-suspend}
use jitforge.Storage.Inputs.Cancel.{cancel_job_unstarted}
use jitforge.Storage.Ops.{
  Op, registers, claims, checkpoints, stages_job, suspends, answers, publishes, cancels, rejects,
  apply, run, actor,
}
use jitforge.Storage.Jobs.{IsSound}
use jitforge.Storage.Jobs.Rules.{JobStep}
use jitforge.Storage.Jobs.Steps.{apply-JobStep}
use jitforge.Storage.Jobs.Life.{IsCoherent, AllStagesWork, jobs_stay-IsCoherent, ended_stays}
use jitforge.Storage.Jobs.Exclusion.{Holds, lease_excludes}
use jitforge.Examples.{
  plain, slug, slug_request, question, reply, built, held_job, published_job, with_job, without_run,
}

abbrev unlocked : ℕ → Bool
unlocked id = false

abbrev history : List (ℕ × Op)
history =
    (100, registers slug slug_request "key" 7 1)
    ∷ (200, claims unlocked "a" 60)
    ∷ (300, checkpoints 1 "a" "agent" "1" (object end))
    ∷ (400, stages_job 1 "a" building)
    ∷ (500, suspends 1 "a" question)
    ∷ (600, answers 1 reply)
    ∷ (700, claims unlocked "b" 60)
    ∷ (800, publishes 1 "b" built)
    ∷ []

abbrev history-AllStagesWork : AllStagesWork history
history-AllStagesWork = (tt, (tt, (tt, (refl, (tt, (tt, (tt, (tt, tt))))))))

jobs_stay-IsCoherent_example :
    IsSound (run plain history empty_db) × All IsCoherent (run plain history empty_db).jobs
jobs_stay-IsCoherent_example = jobs_stay-IsCoherent plain history history-AllStagesWork

with_job-IsSound : (j : Job) → IsSound (with_job j)
with_job-IsSound j = record { distinct = (tt, tt); resumable = tt }

abbrev held : Holds "a" 800 held_job
held = record {
  running = refl;
  worker_id = refl;
  until = 900;
  lease = refl;
  unexpired = omega arith;
}

b_ne_a : actor (rejects 1 "b" "late" "late" none) ≢ some "a"
b_ne_a e = let told : true ≡ false = ap (λ (o : Option String). is_worker "b" o) e in absurd cc

lease_excludes_example :
    In held_job (apply plain 800 (rejects 1 "b" "late" "late" none) (with_job held_job)).jobs
    ⊎ ((d : Value) × In
          (cancelled d 800 held_job)
          (apply plain 800 (rejects 1 "b" "late" "late" none) (with_job held_job)).jobs)
lease_excludes_example =
    lease_excludes plain 800 (with_job held_job) "a" held_job (rejects 1 "b" "late" "late" none) tt
      (with_job-IsSound held_job) (inl refl) held b_ne_a

abbrev late : List (ℕ × Op)
late =
    (300, rejects 1 "a" "late" "late" none)
    ∷ (400, cancels 1 "late")
    ∷ (500, claims unlocked "b" 60)
    ∷ []

ended_stays_example : In published_job (run plain late (with_job published_job)).jobs
ended_stays_example =
    ended_stays plain late (with_job published_job) published_job (tt, (tt, (tt, tt)))
      (with_job-IsSound published_job) (inl refl) refl

apply-JobStep_example :
    JobStep
      (some "a")
      800
      (with_job held_job)
      (apply plain 800 (stages_job 1 "a" building) (with_job held_job))
apply-JobStep_example =
    apply-JobStep plain 800 (with_job held_job) (with_job-IsSound held_job)
      (stages_job 1 "a" building) refl

candidate_oldest_example :
    (j : Job) × (candidate unlocked 1_000 (with_job held_job) ≡ some j) × (j.created_at ≤ 100)
unfolding claimable
candidate_oldest_example =
    candidate_oldest unlocked 1_000 (with_job held_job) held_job (inl refl) refl refl

cancel_job_unstarted_example :
    cancel_job plain 1 "no longer needed" 800 without_run
    ≡ err (invariant "agent run missing before event")
unfolding trim is_whitespace find_job find?
cancel_job_unstarted_example =
    cancel_job_unstarted plain 1 800 "no longer needed" without_run held_job refl refl refl refl

abbrev waiting_job : Job
waiting_job = resume building 600 (suspend 500 held_job)

start_job-resume-suspend_example :
    (claimable 700 waiting_job ≡ true)
    × ((start_job "b" 60 700 waiting_job).status ≡ running)
    × ((start_job "b" 60 700 waiting_job).worker_id ≡ some "b")
    × ((start_job "b" 60 700 waiting_job).stage ≡ building)
    × ((start_job "b" 60 700 waiting_job).attempts ≡ 1)
start_job-resume-suspend_example = start_job-resume-suspend held_job 500 600 700 60 "b" refl
