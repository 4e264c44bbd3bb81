-- ===== src/Worker/Tools/Kept/Drafts.antt =====
-- The tools that write the contract, the source and the tests keep an invariant that fills the interface.
use jitforge.Base.{String, true, Option, none, some, ◌≡◌, ltb, done}
use jitforge.Protocol.{Value, validating}
use jitforge.Storage.Claim.{ClaimedSynthesisJob}
use jitforge.Artifact.{ToolTestCase}
use jitforge.Worker.Types.{
  AgentWorkspace, SynthesisDraft, ContractReview, ContractReviewDecision, accept, revise, reject,
  TestVerdict, TestVerdictKind, implementation_wrong, oracle_wrong, ambiguous,
}
use jitforge.Worker.Outside.{Outside, SubmitContractArgs, ProbeArgs}
use jitforge.Worker.Rules.Contract.{validate_contract}
use jitforge.Worker.Tools.Contract.{submit_contract, after_review, add_review}
use jitforge.Worker.Tools.Source.{write_source, edit_source, run_probe, probe}
use jitforge.Worker.Tools.Review.{
  review_generated_test, after_verdict, abort, max_generated_test_corrections,
}
use jitforge.Worker.Act.Leaves.{
  Leaves, Leaves-bind, Quiet-pure, Quiet-raise, Quiet-ask, Quiet-lift, Quiet-registry,
  Leaves-of_Quiet, Leaves-workspace, Leaves-modify, Leaves-ensure, Leaves-require, Leaves-lift,
}
use jitforge.Worker.Tools.Kept.{Kept}
use jitforge.Worker.Tools.Kept.Shared.{
  Quiet-event, Quiet-set_job_stage, Quiet-parse_args, Quiet-check_reason, Quiet-call,
  evaluate_after_mutation-Leaves,
}

module _ {out : Outside} {job : ClaimedSynthesisJob} {R : AgentWorkspace → Type 0}
    (kept : Kept out job R) where
  after_review-Leaves :
      (args : SubmitContractArgs) (d : SynthesisDraft) (r : ContractReview)
      (k : ContractReviewDecision) (ws : AgentWorkspace)
      → validate_contract out.texts args job ws ≡ done d
      → R ws
      → Leaves R (add_review r ws) (after_review out job d r k)
  unfolding after_review
  after_review-Leaves args d r accept ws e h =
      Leaves-bind (kept.review r ws h) (Quiet-registry out _)
        (λ u. Leaves-modify _ _ (Leaves-of_Quiet (kept.draft args d r ws e h) (Quiet-pure _)))
  after_review-Leaves args d r revise ws e h = Leaves-of_Quiet (kept.review r ws h) (Quiet-pure _)
  after_review-Leaves args d r reject ws e h = Leaves-of_Quiet (kept.review r ws h) (Quiet-raise _)

  pub submit_contract-Leaves :
      (arguments : Value) (ws : AgentWorkspace)
      → R ws
      → Leaves R ws (submit_contract out job arguments)
  unfolding submit_contract
  submit_contract-Leaves arguments ws h = Leaves-bind h (Quiet-parse_args _) (λ args.
      Leaves-bind h (Quiet-check_reason _) (λ u. Leaves-workspace _ (
        Leaves-lift _ _ _ h (λ d e. Leaves-bind h (Quiet-event out job _ _) (λ u.
          Leaves-bind h (Quiet-call _ _) (λ r. Leaves-modify _ _ (
            Leaves-bind (kept.review r ws h) (Quiet-event out job _ _)
              (λ u. after_review-Leaves args d r r.decision ws e h))))))))

  pub write_source-Leaves :
      (arguments : Value) (ws : AgentWorkspace)
      → R ws
      → Leaves R ws (write_source out job arguments)
  unfolding write_source
  write_source-Leaves arguments ws h = Leaves-bind h (Quiet-parse_args _) (λ args.
      Leaves-bind h (Quiet-check_reason _) (λ u. Leaves-bind h (Quiet-lift _ _) (λ u.
        Leaves-workspace _ (
          Leaves-ensure _ _ _ h (λ e. Leaves-ensure _ _ _ h (λ e. Leaves-ensure _ _ _ h (λ left.
            Leaves-modify _ _
              (evaluate_after_mutation-Leaves kept _ (kept.source args.source ws left h)))))))))

  pub edit_source-Leaves :
      (arguments : Value) (ws : AgentWorkspace) → R ws → Leaves R ws (edit_source out job arguments)
  unfolding edit_source
  edit_source-Leaves arguments ws h = Leaves-bind h (Quiet-parse_args _) (λ args.
      Leaves-bind h (Quiet-check_reason _) (λ u. Leaves-ensure _ _ _ h (λ e. Leaves-workspace _ (
        Leaves-ensure _ _ _ h (λ left. Leaves-require _ _ _ h (λ s e. Leaves-ensure _ _ _ h (λ e.
          Leaves-lift _ _ _ h (λ u e. Leaves-ensure _ _ _ h (λ e.
            Leaves-modify _ _
              (evaluate_after_mutation-Leaves kept _ (kept.source _ ws left h)))))))))))

  run_probe-Leaves :
      (args : ProbeArgs) (digest fingerprint : String) (known : Option Value) (ws : AgentWorkspace)
      → R ws
      → Leaves R ws (run_probe out job args ws digest fingerprint known)
  unfolding run_probe
  run_probe-Leaves args digest fingerprint (some v) ws h = Leaves-of_Quiet h (Quiet-pure _)
  run_probe-Leaves args digest fingerprint none ws h = Leaves-ensure _ _ _ h (λ left.
      Leaves-bind h (Quiet-set_job_stage out job validating) (λ u. Leaves-modify _ _ (
        Leaves-bind (kept.probing ws left h) (Quiet-ask _) (λ ran. Leaves-modify _ _ (
          Leaves-of_Quiet (kept.probed fingerprint _ _ (kept.probing ws left h)) (Quiet-pure _))))))

  pub probe-Leaves :
      (arguments : Value) (ws : AgentWorkspace) → R ws → Leaves R ws (probe out job arguments)
  unfolding probe
  probe-Leaves arguments ws h = Leaves-bind h (Quiet-parse_args _) (λ args.
      Leaves-bind h (Quiet-check_reason _) (λ u. Leaves-bind h (Quiet-lift _ _) (λ u.
        Leaves-workspace _
          (Leaves-require _ _ _ h (λ digest e. run_probe-Leaves args digest _ _ ws h)))))

  after_verdict-Leaves :
      (d : SynthesisDraft) (t : ToolTestCase) (name : String) (v : TestVerdict)
      (k : TestVerdictKind) (ws : AgentWorkspace)
      → ltb ws.metrics.generated_test_corrections max_generated_test_corrections ≡ true
      → ws.draft ≡ some d
      → R ws
      → Leaves R ws (after_verdict out job d t name v k)
  unfolding after_verdict
  after_verdict-Leaves d t name v implementation_wrong ws left e h =
      Leaves-of_Quiet h (Quiet-pure _)
  after_verdict-Leaves d t name v ambiguous ws left e h = Leaves-of_Quiet h (Quiet-pure _)
  after_verdict-Leaves d t name v oracle_wrong ws left e h = Leaves-require _ _ _ h (λ stdout q.
      Leaves-require _ _ _ h (λ code q. Leaves-lift _ _ _ h (λ u q. Leaves-ensure _ _ _ h (λ q.
        Leaves-modify _ _
          (evaluate_after_mutation-Leaves kept _ (kept.oracle d name stdout code ws left e h))))))

  pub review_generated_test-Leaves :
      (arguments : Value) (ws : AgentWorkspace)
      → R ws
      → Leaves R ws (review_generated_test out job arguments)
  unfolding review_generated_test
  review_generated_test-Leaves arguments ws h = Leaves-bind h (Quiet-parse_args _) (λ args.
      Leaves-bind h (Quiet-check_reason _) (λ u. Leaves-workspace _ (
        Leaves-ensure _ _ _ h (λ left. Leaves-require _ _ _ h (λ d e. Leaves-require _ _ _ h (λ f q.
          Leaves-require _ _ _ h (λ t q. Leaves-bind h (Quiet-event out job _ _) (λ u.
            Leaves-bind h (Quiet-call _ _) (λ v.
              Leaves-bind h (Quiet-event out job _ _) (λ u.
                after_verdict-Leaves d t args.test_name v v.classification ws left e h))))))))))

  pub abort-Leaves :
      (arguments : Value) (ws : AgentWorkspace) → R ws → Leaves R ws (abort out arguments)
  unfolding abort
  abort-Leaves arguments ws h =
      Leaves-bind h (Quiet-parse_args _)
        (λ args. Leaves-bind h (Quiet-check_reason _) (λ u. Leaves-of_Quiet h (Quiet-raise _)))
