-- ===== src/Worker/Tools/Probed.antt =====
-- The tool `probe` of apps/jit-worker/src/jobs.rs: when it runs the candidate, and how often.
use jitforge.Base.{
  ℕ, suc, ◌+◌, String, Bool, true, false, Option, none, some, List, ◌≡◌, refl, sym, subst, ap, ◌∙◌,
  ◌⊎◌, inl, inr, arith, ltb, get_by, str_eq, Attempt, done, failed,
}
use jitforge.Protocol.{Value, validating, JobStage}
use jitforge.Storage.Claim.{ClaimedSynthesisJob}
use jitforge.Storage.Schema.{Db}
use jitforge.Storage.Tx.{Tx, Result, ok, err}
use jitforge.Worker.Types.{AgentWorkspace, JobError, agent_limit}
use jitforge.Worker.Outside.{Outside, ExecutionOutput, ProbeArgs}
use jitforge.Worker.Act.{
  World, Act, settle, registry, and_then, ◌>>=◌, ◌>>◌, pure, ensure, require, lift, workspace,
  modify, ask,
}
use jitforge.Storage.Progress.{set_stage_of_job, set_version_status}
use jitforge.Worker.Tools.Kept.Shared.{Quiet-set_job_stage}
use jitforge.Worker.Calls.{
  ToolCall, ToolExecution, continue, parse_args, check_reason, set_job_stage,
}
use jitforge.Text.Bytes.{utf8_bytes}
use jitforge.Worker.Tools.Source.{
  count_probe, keep_probe, probe_result, run_probe, probe, max_probes,
}
use jitforge.Worker.Errors.{invalid_action}
use jitforge.Worker.Rules.{validate_probe}
use jitforge.Worker.Rules.Contract.{probe_fingerprint}
use jitforge.Worker.Tools.Execute.{lookup_tool, tools, tell_model, execute_tool_inner, execute_tool}

abbrev Runner : Type 0
Runner = String → List String → List ℕ → ℕ → Attempt String ExecutionOutput

abbrev with_runner : Outside → Runner → Outside
with_runner out f = record out { execute = f }

-- Either one more probe is counted and there are three calls, two that set the stage and the run, or the
-- outcome does not depend on the runner.
abbrev pub Probes : {A : Type 0} → (Outside → Act A) → Outside → World → Type 0
Probes m out w =
    (((m out w).1.workspace.metrics.probes_run ≡ suc w.workspace.metrics.probes_run)
      × ((m out w).1.calls ≡ 3 + w.calls))
    ⊎ ((f : Runner) → m (with_runner out f) w ≡ m out w)

-- Actions that test and read.
record Still {A : Type 0} (m : Act A) : Type 0 where
  still : (w : World) → (m w).1 ≡ w

Still-lift : {E A : Type 0} (f : E → JobError) (r : Attempt E A) → Still (lift f r)
unfolding lift
Still-lift f (done a) = record { still = λ w. refl }
Still-lift f (failed e) = record { still = λ w. refl }

Still-check_reason : (s : String) → Still (check_reason s)
unfolding check_reason
Still-check_reason s = Still-lift _ _

Still-parse_args : {A : Type 0} (r : Attempt String A) → Still (parse_args r)
unfolding parse_args
Still-parse_args r = Still-lift _ _

Still-require : {A : Type 0} (o : Option A) (e : JobError) → Still (require o e)
unfolding require
Still-require none e = record { still = λ w. refl }
Still-require (some a) e = record { still = λ w. refl }

Still-ensure : (b : Bool) (e : JobError) → Still (ensure b e)
unfolding ensure
Still-ensure true e = record { still = λ w. refl }
Still-ensure false e = record { still = λ w. refl }

Still-workspace : Still workspace
unfolding workspace
Still-workspace = record { still = λ w. refl }

-- A step that does not read the runner and leaves the world as it is.
module _ {A B : Type 0} (out : Outside) (w : World) (m : Outside → Act A)
    (f : Outside → A → Act B) where
  Probes-bind :
      ((g : Runner) → m (with_runner out g) ≡ m out)
      → Still (m out)
      → ((a : A) → Probes (λ o. f o a) out w)
      → Probes (λ o. m o >>= f o) out w
  unfolding ◌>>=◌ and_then
  Probes-bind same s h = elim (go (m out w) (s.still w)) [
    | inl counted ↦ inl counted
    | inr alike ↦ inr (λ g. ap (λ x. and_then (x w) (f (with_runner out g))) (same g) ∙ alike g)
  ]
    where
      go : (r : Attempt JobError A × World) → r.1 ≡ w → Probes (λ o u. and_then r (f o)) out w
      go (done a, v) e = subst (λ x. Probes (λ o u. f o a x) out w) (sym e) (h a)
      go (failed x, v) e = inr (λ g. refl)

registry-calls :
    {A : Type 0} (out : Outside) (m : ℕ → Tx A) (w : World)
    → (registry out m w).1.calls ≡ suc w.calls
unfolding registry settle
registry-calls {A} out m w = go (m (out.now w.calls) (out.others w.calls w.db))
  where
    go : (r : Result (A × Db)) → (settle w (out.others w.calls w.db) r).1.calls ≡ suc w.calls
    go (ok x) = refl
    go (err e) = refl

-- A stage that is set has taken two calls and left the workspace alone.
set_stage-done :
    (out : Outside) (job : ClaimedSynthesisJob) (stage : JobStage) (w v : World)
    → set_job_stage out job stage w ≡ (done tt, v)
    → (v.calls ≡ 2 + w.calls) × (v.workspace ≡ w.workspace)
unfolding set_job_stage ◌>>=◌ and_then
set_stage-done out job stage w v e = (
  go (registry out first w) (registry-calls out first w) e,
  ap (λ (r : Attempt JobError Unit × World). r.1.workspace) (sym e)
      ∙ (Quiet-set_job_stage out job stage).keeps w,
)
  where
    first : ℕ → Tx Unit
    first = set_stage_of_job job.job_id out.worker_id stage

    go :
        (r : Attempt JobError Unit × World)
        → r.1.calls ≡ suc w.calls
        → and_then r (λ u. registry out (set_version_status job.job_id stage)) ≡ (done tt, v)
        → v.calls ≡ 2 + w.calls
    go (done u, x) one e =
        let two = registry-calls out (set_version_status job.job_id stage) x in
        let last = ap (λ (r : Attempt JobError Unit × World). r.1.calls) e in omega arith
    go (failed y, x) one e = cc

-- The parts of a probe, from the last one back.
module _ (job : ClaimedSynthesisJob) (args : ProbeArgs) where
  abbrev ran : String → String → Outside → Act ToolExecution
  ran digest fingerprint o = do
    modify count_probe
    r ← ask (λ n. o.execute digest args.args (utf8_bytes args.stdin) n)
    modify (keep_probe fingerprint (probe_result o.texts r))
    pure (continue (probe_result o.texts r))

  abbrev staged : String → String → Outside → Act ToolExecution
  staged digest fingerprint o = set_job_stage o job validating >> ran digest fingerprint o

  abbrev looked_up : AgentWorkspace → Outside → String → Act ToolExecution
  looked_up ws o digest =
      run_probe o job args ws digest (probe_fingerprint o.codec digest args)
        (get_by str_eq (probe_fingerprint o.codec digest args) ws.probe_results)

  abbrev required : Outside → AgentWorkspace → Act ToolExecution
  required o ws =
      require ws.current_artifact_digest (invalid_action "probe requires a built candidate")
      >>= looked_up ws o

  abbrev validated : Outside → Act ToolExecution
  validated o = lift (λ e. e) (validate_probe args) >> (workspace >>= required o)

  staged-Probes :
      (digest fingerprint : String) (out : Outside) (w : World)
      → Probes (staged digest fingerprint) out w
  unfolding ◌>>=◌ and_then modify ask pure set_job_stage registry count_probe keep_probe
  staged-Probes digest fingerprint out w = go (set_job_stage out job validating w) refl
    where
      go :
          (r : Attempt JobError Unit × World)
          → set_job_stage out job validating w ≡ r
          → Probes (λ o u. and_then r (λ _. ran digest fingerprint o)) out w
      go (done u, v) e =
          let (two, same) = set_stage-done out job validating w v e in
          inl (ap (λ (x : AgentWorkspace). suc x.metrics.probes_run) same, omega arith)
      go (failed x, v) e = inr (λ g. refl)

  module _ (out : Outside) (w : World) where
    run_probe-Probes :
        (ws : AgentWorkspace) (digest fingerprint : String) (known : Option Value)
        → Probes (λ o. run_probe o job args ws digest fingerprint known) out w
    unfolding run_probe
    run_probe-Probes ws digest fingerprint (some cached) = inr (λ g. refl)
    run_probe-Probes ws digest fingerprint none =
        Probes-bind out w
          (λ o.
            ensure (ltb ws.metrics.probes_run max_probes) (agent_limit "probe budget exhausted"))
          (λ o u. staged digest fingerprint o) (λ g. refl) (Still-ensure _ _)
          (λ u. staged-Probes digest fingerprint out w)

    validated-Probes : Probes validated out w
    validated-Probes =
        Probes-bind out w (λ o. lift (λ e. e) (validate_probe args))
          (λ o u. workspace >>= required o) (λ g. refl) (Still-lift _ _)
          (λ u.
            Probes-bind out w (λ o. workspace) required (λ g. refl) Still-workspace
              (λ ws.
                Probes-bind out w
                  (λ o.
                    require ws.current_artifact_digest
                      (invalid_action "probe requires a built candidate"))
                  (looked_up ws) (λ g. refl) (Still-require _ _)
                  (λ digest. run_probe-Probes ws digest _ _)))

probe-Probes :
    (out : Outside) (job : ClaimedSynthesisJob) (v : Value) (w : World)
    → Probes (λ o. probe o job v) out w
unfolding probe
probe-Probes out job v w =
    Probes-bind out w (λ o. parse_args (o.texts.probe_args v))
      (λ o args. check_reason args.reason >> validated job args o) (λ g. refl) (Still-parse_args _)
      (λ args.
        Probes-bind out w (λ o. check_reason args.reason) (λ o u. validated job args o) (λ g. refl)
          (Still-check_reason _) (λ u. validated-Probes job args out w))

pub execute_tool-Probes :
    (out : Outside) (job : ClaimedSynthesisJob) (t : ToolCall) (w : World)
    → Probes (λ o. execute_tool o job (record t { name = "probe" })) out w
unfolding execute_tool execute_tool_inner tools lookup_tool
execute_tool-Probes out job t w = elim (probe-Probes out job t.arguments w) [
  | inl counted ↦ inl counted
  | inr alike ↦
      inr
        (λ g. ap (λ (r : Attempt JobError ToolExecution × World). (tell_model r.0, r.1)) (alike g))
]
