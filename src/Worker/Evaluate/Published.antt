-- ===== src/Worker/Evaluate/Published.antt =====
-- Only a candidate that has passed is published: apps/jit-worker/src/jobs.rs.
pub mod Candidate
use jitforge.Base.{
  ℕ, String, Bool, true, false, Option, none, some, List, [], ◌∷◌, ◌≡◌, refl, sym, ap, subst, ◌∙◌,
  Attempt, done, failed, if◌then◌else◌,
}
use jitforge.Protocol.{Value, building, validating, IoFormat}
use jitforge.Storage.Claim.{ClaimedSynthesisJob}
use jitforge.Artifact.{StoredArtifact, HttpFixture}
use jitforge.Worker.Types.{AgentWorkspace, JobError, SynthesisDraft, ValidationFailure}
use jitforge.Worker.Outside.{Outside}
use jitforge.Worker.Act.{
  World, Act, and_then, ◌>>=◌, ◌>>◌, pure, raise, require, workspace, modify, ask, registry,
}
use jitforge.Worker.Act.Leaves.{Quiet, Quiet-registry, Quiet-pure, Quiet-bind}
use jitforge.Worker.Rules.Urls.{probe_records_to_fixtures}
use jitforge.Worker.Calls.{ToolExecution, continue, published, set_job_stage, call}
use jitforge.Worker.Evaluate.Runs.{unless_failed, validate_tests, validate_input_samples}
use jitforge.Worker.Evaluate.Publish.{
  publish, remember_candidate, set_failure, store_candidate, validate, conclude,
  evaluate_after_mutation,
}
use jitforge.Worker.Evaluate.Passed.{
  PassesTest, PassesSample, unless_failed_lem, AllFrom, Ended, validate_tests-passes,
  validate_input_samples-passes,
}

-- Every sample and every test of a draft has passed on the artifact.
pub record HasPassed (out : Outside) (job : ClaimedSynthesisJob) (digest : String)
    (d : SynthesisDraft) : Type 0 where
  pub fixtures : List HttpFixture
  pub samples : AllFrom (PassesSample out digest job.output_format fixtures) 0 job.input_samples
  pub tests : AllFrom (PassesTest out digest job.output_format d.user_test_count) 0 d.tests

-- If the tool has published an artifact then it has passed with the draft of the workspace.
abbrev pub SoundResult :
    Outside → ClaimedSynthesisJob → Attempt JobError ToolExecution × World → Type 0
SoundResult out job r =
    (digest : String)
    → Ended r (published digest)
    → (d : SynthesisDraft) × (r.1.workspace.draft ≡ some d) × HasPassed out job digest d

pub record Sound (out : Outside) (job : ClaimedSynthesisJob) (m : Act ToolExecution) : Type 0 where
  pub sound : (w : World) → SoundResult out job (m w)

module _ {out : Outside} {job : ClaimedSynthesisJob} where
  pub bind-Sound :
      {A : Type 0} (m : Act A) (f : A → Act ToolExecution)
      → ((a : A) → Sound out job (f a))
      → Sound out job (m >>= f)
  unfolding ◌>>=◌ and_then
  bind-Sound {A = A} m f h = record { sound = λ w. go (m w) }
    where
      go : (r : Attempt JobError A × World) → SoundResult out job (and_then r f)
      go (done a, w) = (h a).sound w
      go (failed x, w) = λ digest e. cc

  pub continue-Sound : (v : Value) → Sound out job (pure (continue v))
  unfolding pure
  continue-Sound v = record { sound = λ w digest e. cc }

  pub raise-Sound : (x : JobError) → Sound out job (raise x)
  unfolding raise
  raise-Sound x = record { sound = λ w digest e. cc }

  pub if-Sound :
      (b : Bool) {m n : Act ToolExecution}
      → Sound out job m
      → Sound out job n
      → Sound out job (if b then m else n)
  if-Sound true h k = h
  if-Sound false h k = k

-- The same from a workspace.
pub record SoundAt (out : Outside) (job : ClaimedSynthesisJob) (ws : AgentWorkspace)
    (m : Act ToolExecution) : Type 0 where
  pub sound : (w : World) → w.workspace ≡ ws → SoundResult out job (m w)

module _ {out : Outside} {job : ClaimedSynthesisJob} {ws : AgentWorkspace} where
  pub Quiet-SoundAt :
      {A : Type 0} (m : Act A) (f : A → Act ToolExecution)
      → Quiet m
      → ((a : A) → SoundAt out job ws (f a))
      → SoundAt out job ws (m >>= f)
  unfolding ◌>>=◌ and_then
  Quiet-SoundAt {A = A} m f q h = record { sound = λ w e. go (m w) (q.keeps w ∙ e) }
    where
      go :
          (r : Attempt JobError A × World) → r.1.workspace ≡ ws → SoundResult out job (and_then r f)
      go (done a, w) e = (h a).sound w e
      go (failed x, w) e = λ digest e. cc

  pub require-SoundAt :
      {A : Type 0} (o : Option A) (x : JobError) (f : A → Act ToolExecution)
      → ((a : A) → o ≡ some a → SoundAt out job ws (f a))
      → SoundAt out job ws (require o x >>= f)
  unfolding ◌>>=◌ and_then require
  require-SoundAt (some a) x f h = record { sound = (h a refl).sound }
  require-SoundAt none x f h = record { sound = λ w e digest q. cc }

  pub workspace-SoundAt :
      (f : AgentWorkspace → Act ToolExecution)
      → SoundAt out job ws (f ws)
      → SoundAt out job ws (workspace >>= f)
  unfolding ◌>>=◌ and_then workspace
  workspace-SoundAt f h = record {
    sound = λ w e. subst (λ v. SoundResult out job (f v w)) (sym e) (h.sound w e);
  }

  -- What the value says of the run that gave it may be used.
  pub learn-SoundAt :
      {A : Type 0} (m : Act A) (f : A → Act ToolExecution)
      → Quiet m
      → ((a : A) (w : World) → Ended (m w) a → SoundAt out job ws (f a))
      → SoundAt out job ws (m >>= f)
  unfolding ◌>>=◌ and_then
  learn-SoundAt {A = A} m f q h = record { sound = λ w e. go w (m w) refl (q.keeps w ∙ e) }
    where
      go :
          (w : World) (r : Attempt JobError A × World)
          → m w ≡ r
          → r.1.workspace ≡ ws
          → SoundResult out job (and_then r f)
      go w (done a, w') p e = (h a w (ap (λ r. r.0) p)).sound w' e
      go w (failed x, w') p e = λ digest e. cc

  pub modify-SoundAt :
      (g : AgentWorkspace → AgentWorkspace) (f : Unit {0} → Act ToolExecution)
      → SoundAt out job (g ws) (f tt)
      → SoundAt out job ws (modify g >>= f)
  unfolding ◌>>=◌ and_then modify
  modify-SoundAt g f h = record {
    sound = λ w e. h.sound (record w { workspace = g w.workspace }) (ap g e);
  }

-- What a validation that succeeds has seen.
pub validate-passes :
    (out : Outside) (job : ClaimedSynthesisJob) (d : SynthesisDraft) (ws : AgentWorkspace)
    (digest : String) (w : World)
    → Ended (validate out job d ws digest w) (done tt)
    → HasPassed out job digest d
unfolding validate ◌>>=◌ and_then
validate-passes out job d ws digest w e =
    go
      (validate_input_samples out digest job.output_format 0 job.input_samples
        (probe_records_to_fixtures ws.http_probe_records) w)
      refl e
  where
    go :
        (r : Attempt JobError (Attempt ValidationFailure Unit) × World)
        → validate_input_samples out digest job.output_format 0 job.input_samples
            (probe_records_to_fixtures ws.http_probe_records)
            w
          ≡ r
        → Ended
            (and_then r (λ sampled.
              unless_failed sampled
                (validate_tests out digest job.output_format 0 d.tests d.user_test_count)))
            (done tt)
        → HasPassed out job digest d
    go (failed x, w') q e = cc
    go (done sampled, w') q e =
        let (ran, rest) = unless_failed_lem sampled _ w' e in
        record {
          fixtures = probe_records_to_fixtures ws.http_probe_records;
          samples =
              validate_input_samples-passes out digest job.output_format 0 job.input_samples _ w
                (ap (λ p. p.0) q ∙ ap done ran);
          tests =
              validate_tests-passes out digest job.output_format 0 d.tests d.user_test_count w'
                rest;
        }
