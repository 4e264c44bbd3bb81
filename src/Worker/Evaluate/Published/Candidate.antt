-- ===== src/Worker/Evaluate/Published/Candidate.antt =====
-- A change of the source or of a test publishes only what has passed.
use jitforge.Base.{String, some, ◌≡◌, refl, ap, subst, ◌∙◌, Attempt, done, failed}
use jitforge.Protocol.{building, validating}
use jitforge.Storage.Claim.{ClaimedSynthesisJob}
use jitforge.Artifact.{StoredArtifact}
use jitforge.Worker.Types.{AgentWorkspace, JobError, SynthesisDraft, ValidationFailure}
use jitforge.Worker.Outside.{Outside}
use jitforge.Worker.Act.{pure}
use jitforge.Worker.Calls.{ToolExecution, published}
use jitforge.Worker.Evaluate.Publish.{
  remember_candidate, set_failure, conclude, evaluate_after_mutation,
}
use jitforge.Worker.Evaluate.Published.{
  HasPassed, Sound, SoundAt, continue-Sound, Quiet-SoundAt, require-SoundAt, modify-SoundAt,
  learn-SoundAt, workspace-SoundAt, validate-passes,
}
use jitforge.Worker.Tools.Kept.Shared.{
  Quiet-set_job_stage, Quiet-call, Quiet-validate, Quiet-publish, Quiet-store_candidate,
}

published_injective :
    (s t : String)
    → Path (Attempt JobError ToolExecution) (done (published s)) (done (published t))
    → s ≡ t
published_injective s t e = cc

module _ {out : Outside} {job : ClaimedSynthesisJob} where
  published-SoundAt :
      (digest : String) (d : SynthesisDraft) (ws : AgentWorkspace)
      → ws.draft ≡ some d
      → HasPassed out job digest d
      → SoundAt out job ws (pure (published digest))
  unfolding pure
  published-SoundAt digest d ws e h = record {
    sound = λ w q digest' p. (
      d,
      ap (λ v. v.draft) q ∙ e,
      subst (λ s. HasPassed out job s d) (published_injective digest digest' p) h,
    );
  }

  conclude-SoundAt :
      (a : StoredArtifact) (d : SynthesisDraft) (r : Attempt ValidationFailure Unit)
      (ws : AgentWorkspace)
      → ws.draft ≡ some d
      → (r ≡ done tt → HasPassed out job a.digest d)
      → SoundAt out job ws (conclude out job a r)
  unfolding conclude set_failure
  conclude-SoundAt a d (done u) ws e h =
      modify-SoundAt _ _ (
        Quiet-SoundAt _ _ (Quiet-publish out job a)
          (λ u. published-SoundAt a.digest d _ e (h refl)))
  conclude-SoundAt a d (failed f) ws e h =
      modify-SoundAt _ _ (record { sound = λ w q. (continue-Sound _).sound w })

  evaluate_after_mutation-SoundAt :
      (ws : AgentWorkspace) → SoundAt out job ws (evaluate_after_mutation out job)
  unfolding evaluate_after_mutation remember_candidate
  evaluate_after_mutation-SoundAt ws = workspace-SoundAt _ (
      require-SoundAt _ _ _ (λ d de. require-SoundAt _ _ _ (λ s se.
        Quiet-SoundAt _ _ (Quiet-set_job_stage out job building) (λ u.
          Quiet-SoundAt _ _ (Quiet-store_candidate out job d s ws) (λ a. modify-SoundAt _ _ (
            Quiet-SoundAt _ _ (Quiet-call _ _) (λ image.
              Quiet-SoundAt _ _ (Quiet-set_job_stage out job validating) (λ u.
                learn-SoundAt _ _ (Quiet-validate out job d ws a.digest) (λ r w ran.
                  conclude-SoundAt a d r _ de
                    (λ ok. validate-passes out job d ws a.digest w (ran ∙ ap done ok)))))))))))

  -- Whatever workspace it starts at.
  pub evaluate_after_mutation-Sound : Sound out job (evaluate_after_mutation out job)
  evaluate_after_mutation-Sound = record {
    sound = λ w. (evaluate_after_mutation-SoundAt w.workspace).sound w refl;
  }
