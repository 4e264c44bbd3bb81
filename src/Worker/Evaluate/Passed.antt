-- ===== src/Worker/Evaluate/Passed.antt =====
-- What a publication of apps/jit-worker/src/jobs.rs rests on: the runs of the candidate.
use jitforge.Base.{ℕ, suc, ◌+◌, String, List, [], ◌∷◌, ◌≡◌, refl, Attempt, done, failed}
use jitforge.Text.Format.{◌+++◌, decimal}
use jitforge.Text.Bytes.{utf8_bytes}
use jitforge.Protocol.{IoFormat}
use jitforge.Artifact.{ToolTestCase, HttpFixture}
use jitforge.Worker.Types.{JobError, ValidationFailure}
use jitforge.Worker.Outside.{Outside}
use jitforge.Worker.Act.{World, Act, and_then, ◌>>=◌, pure, ask}
use jitforge.Worker.Evaluate.Judge.{judge_test, judge_sample}
use jitforge.Worker.Evaluate.Runs.{origin_of, unless_failed, validate_tests, validate_input_samples}

-- Some run of the artifact on the test was judged to pass it.
abbrev pub PassesTest : Outside → String → IoFormat → ℕ → ℕ → ToolTestCase → Type 0
PassesTest out digest format user_test_count i t =
    (n : ℕ) × (judge_test out.codec out.texts format (origin_of i user_test_count) t
        (out.execute_with_fixtures digest t.args (utf8_bytes t.stdin) t.http_fixtures n)
      ≡ done tt)

abbrev pub PassesSample : Outside → String → IoFormat → List HttpFixture → ℕ → String → Type 0
PassesSample out digest format fixtures i s =
    (n : ℕ) × (judge_sample out.texts format ("input-sample-" +++ decimal (i + 1))
        (out.execute_with_fixtures digest [] (utf8_bytes s) fixtures n)
      ≡ done tt)

-- Each of a list, with its index.
abbrev pub AllFrom : {A : Type 0} → (ℕ → A → Type 0) → ℕ → List A → Type 0
AllFrom P i [] = Unit
AllFrom P i (a ∷ as') = P i a × AllFrom P (suc i) as'

-- An action that ended with a value.
abbrev pub Ended : {A : Type 0} → Attempt JobError A × World → A → Type 0
Ended r a = r.0 ≡ done a

-- A first run that must have passed for the rest to have been reached.
pub unless_failed_lem :
    (r : Attempt ValidationFailure Unit) (rest : Act (Attempt ValidationFailure Unit)) (w : World)
    → Ended (unless_failed r rest w) (done tt)
    → (r ≡ done tt) × Ended (rest w) (done tt)
unfolding pure
unless_failed_lem (done u) rest w e = (refl, e)
unless_failed_lem (failed f) rest w e = cc

pub validate_tests-passes :
    (out : Outside) (digest : String) (format : IoFormat) (i : ℕ) (ts : List ToolTestCase) (n : ℕ)
    (w : World)
    → Ended (validate_tests out digest format i ts n w) (done tt)
    → AllFrom (PassesTest out digest format n) i ts
unfolding validate_tests ◌>>=◌ and_then ask
validate_tests-passes out digest format i [] n w e = tt
validate_tests-passes out digest format i (t ∷ ts) n w e =
    let (passed, rest) =
      unless_failed_lem
        (judge_test out.codec out.texts format (origin_of i n) t
          (out.execute_with_fixtures digest t.args (utf8_bytes t.stdin) t.http_fixtures w.calls))
        _ _ e in
    ((w.calls, passed), validate_tests-passes out digest format (suc i) ts n _ rest)

pub validate_input_samples-passes :
    (out : Outside) (digest : String) (format : IoFormat) (i : ℕ) (ss : List String)
    (fixtures : List HttpFixture) (w : World)
    → Ended (validate_input_samples out digest format i ss fixtures w) (done tt)
    → AllFrom (PassesSample out digest format fixtures) i ss
unfolding validate_input_samples ◌>>=◌ and_then ask
validate_input_samples-passes out digest format i [] fixtures w e = tt
validate_input_samples-passes out digest format i (s ∷ ss) fixtures w e =
    let (passed, rest) =
      unless_failed_lem
        (judge_sample out.texts format ("input-sample-" +++ decimal (i + 1))
          (out.execute_with_fixtures digest [] (utf8_bytes s) fixtures w.calls))
        _ _ e in
    ((w.calls, passed), validate_input_samples-passes out digest format (suc i) ss fixtures _ rest)
