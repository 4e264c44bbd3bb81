-- ===== src/Worker/Tools/Kept/Shared.antt =====
-- What the tools share does not touch the workspace; building and running a candidate keeps an invariant.
use jitforge.Base.{ℕ, suc, String, none, some, List, [], ◌∷◌, Attempt, done, failed}
use jitforge.Protocol.{Value, IoFormat, JobStage, building, validating}
use jitforge.Storage.Claim.{ClaimedSynthesisJob}
use jitforge.Artifact.{ToolTestCase, HttpFixture, StoredArtifact}
use jitforge.Worker.Types.{
  AgentWorkspace, JobError, SynthesisDraft, ValidationFailure, runner_error,
}
use jitforge.Worker.Outside.{Outside}
use jitforge.Worker.Act.{Act, ◌>>=◌}
use jitforge.Worker.Act.Leaves.{
  Quiet, Leaves, Quiet-bind, Leaves-bind, Quiet-pure, Quiet-ask, Quiet-lift, Quiet-registry,
  Leaves-of_Quiet, Leaves-workspace, Leaves-modify, Leaves-require,
}
use jitforge.Worker.Calls.{event, set_job_stage, parse_args, check_reason, call}
use jitforge.Worker.Evaluate.Runs.{validate_tests, validate_input_samples, unless_failed}
use jitforge.Worker.Evaluate.Publish.{
  store_candidate, publish, remember_candidate, validate, conclude, evaluate_after_mutation,
}
use jitforge.Worker.Tools.Kept.{Kept}

pub Quiet-event :
    (out : Outside) (job : ClaimedSynthesisJob) (kind : String) (v : Value)
    → Quiet (event out job kind v)
unfolding event
Quiet-event out job kind v = Quiet-registry out _

pub Quiet-set_job_stage :
    (out : Outside) (job : ClaimedSynthesisJob) (stage : JobStage)
    → Quiet (set_job_stage out job stage)
unfolding set_job_stage
Quiet-set_job_stage out job stage = Quiet-bind (Quiet-registry out _) (λ u. Quiet-registry out _)

pub Quiet-parse_args : {A : Type 0} (r : Attempt String A) → Quiet (parse_args r)
unfolding parse_args
Quiet-parse_args r = Quiet-lift _ r

pub Quiet-check_reason : (s : String) → Quiet (check_reason s)
unfolding check_reason
Quiet-check_reason s = Quiet-lift _ _

pub Quiet-call :
    {E A : Type 0} (f : E → JobError) (answer : ℕ → Attempt E A) → Quiet (call f answer)
unfolding call
Quiet-call f answer = Quiet-bind (Quiet-ask answer) (λ a. Quiet-lift f a)

Quiet-unless_failed :
    (r : Attempt ValidationFailure Unit) (rest : Act (Attempt ValidationFailure Unit))
    → Quiet rest
    → Quiet (unless_failed r rest)
Quiet-unless_failed (done u) rest q = q
Quiet-unless_failed (failed f) rest q = Quiet-pure _

Quiet-validate_tests :
    (out : Outside) (digest : String) (format : IoFormat) (i : ℕ) (ts : List ToolTestCase) (n : ℕ)
    → Quiet (validate_tests out digest format i ts n)
unfolding validate_tests
Quiet-validate_tests out digest format i [] n = Quiet-pure _
Quiet-validate_tests out digest format i (t ∷ ts) n =
    Quiet-bind (Quiet-ask _)
      (λ ran. Quiet-unless_failed _ _ (Quiet-validate_tests out digest format (suc i) ts n))

Quiet-validate_input_samples :
    (out : Outside) (digest : String) (format : IoFormat) (i : ℕ) (ss : List String)
    (fixtures : List HttpFixture)
    → Quiet (validate_input_samples out digest format i ss fixtures)
unfolding validate_input_samples
Quiet-validate_input_samples out digest format i [] fixtures = Quiet-pure _
Quiet-validate_input_samples out digest format i (s ∷ ss) fixtures =
    Quiet-bind (Quiet-ask _) (λ ran.
      Quiet-unless_failed _ _ (Quiet-validate_input_samples out digest format (suc i) ss fixtures))

pub Quiet-validate :
    (out : Outside) (job : ClaimedSynthesisJob) (d : SynthesisDraft) (ws : AgentWorkspace)
    (digest : String)
    → Quiet (validate out job d ws digest)
unfolding validate
Quiet-validate out job d ws digest =
    Quiet-bind (Quiet-validate_input_samples out digest _ 0 job.input_samples _)
      (λ sampled. Quiet-unless_failed sampled _ (Quiet-validate_tests out digest _ 0 d.tests _))

pub Quiet-publish :
    (out : Outside) (job : ClaimedSynthesisJob) (a : StoredArtifact) → Quiet (publish out job a)
unfolding publish
Quiet-publish out job a = Quiet-registry out _

pub Quiet-store_candidate :
    (out : Outside) (job : ClaimedSynthesisJob) (d : SynthesisDraft) (source : String)
    (ws : AgentWorkspace)
    → Quiet (store_candidate out job d source ws)
unfolding store_candidate
Quiet-store_candidate out job d source ws = Quiet-call _ _

module _ {out : Outside} {job : ClaimedSynthesisJob} {R : AgentWorkspace → Type 0}
    (kept : Kept out job R) where
  conclude-Leaves :
      (a : StoredArtifact) (r : Attempt ValidationFailure Unit) (ws : AgentWorkspace)
      → R ws
      → Leaves R ws (conclude out job a r)
  unfolding conclude
  conclude-Leaves a (done u) ws h = Leaves-modify _ _ (
      Leaves-of_Quiet (kept.failure none ws h)
        (Quiet-bind (Quiet-publish out job a) (λ u. Quiet-pure _)))
  conclude-Leaves a (failed f) ws h =
      Leaves-modify _ _ (Leaves-of_Quiet (kept.failure (some f) ws h) (Quiet-pure _))

  pub evaluate_after_mutation-Leaves :
      (ws : AgentWorkspace) → R ws → Leaves R ws (evaluate_after_mutation out job)
  unfolding evaluate_after_mutation
  evaluate_after_mutation-Leaves ws h = Leaves-workspace _ (
      Leaves-require _ _ _ h (λ d de. Leaves-require _ _ _ h (λ s se.
        Leaves-bind h (Quiet-set_job_stage out job building) (λ u.
          Leaves-bind h (Quiet-store_candidate out job d s ws)
            (λ a. Leaves-modify _ _ (built d a (kept.candidate a ws h)))))))
    where
      built :
          (d : SynthesisDraft) (a : StoredArtifact)
          → R (remember_candidate a ws)
          → Leaves R (remember_candidate a ws) (
              call (λ e. runner_error e) (out.build_artifact a.digest) >>= λ image.
              set_job_stage out job validating >>= λ u.
              validate out job d ws a.digest >>= λ r. conclude out job a r)
      built d a k = Leaves-bind k (Quiet-call _ _) (λ image.
          Leaves-bind k (Quiet-set_job_stage out job validating) (λ u.
            Leaves-bind k (Quiet-validate out job d ws a.digest) (λ r. conclude-Leaves a r _ k)))
