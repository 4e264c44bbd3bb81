-- ===== src/Worker/Evaluate/Runs.antt =====
-- apps/jit-worker/src/jobs.rs: the runs of a candidate on the input samples and on the tests; the first
-- failure stops them.
use jitforge.Base.{ℕ, suc, ◌+◌, String, List, [], ◌∷◌, ltb, if◌then◌else◌, Attempt, done, failed}
use jitforge.Text.Format.{◌+++◌, decimal}
use jitforge.Text.Bytes.{utf8_bytes}
use jitforge.Protocol.{IoFormat}
use jitforge.Artifact.{ToolTestCase, HttpFixture}
use jitforge.Worker.Types.{TestOrigin, user, generated, ValidationFailure}
use jitforge.Worker.Outside.{Outside}
use jitforge.Worker.Act.{Act, ◌>>=◌, pure, ask}
use jitforge.Worker.Evaluate.Judge.{judge_test, judge_sample}

abbrev pub origin_of : ℕ → ℕ → TestOrigin
origin_of index user_test_count = if ltb index user_test_count then user else generated

-- The first failure is the answer.
abbrev pub unless_failed :
    Attempt ValidationFailure Unit
    → Act (Attempt ValidationFailure Unit)
    → Act (Attempt ValidationFailure Unit)
unless_failed (done u) rest = rest
unless_failed (failed f) rest = pure (failed f)

-- The tests from an index on.
unfoldable pub validate_tests :
    Outside → String → IoFormat → ℕ → List ToolTestCase → ℕ → Act (Attempt ValidationFailure Unit)
unfolding utf8_bytes judge_test
validate_tests out digest format index [] user_test_count = pure (done tt)
validate_tests out digest format index (t ∷ ts) user_test_count =
    ask (λ n. out.execute_with_fixtures digest t.args (utf8_bytes t.stdin) t.http_fixtures n)
    >>= λ ran.
        unless_failed
          (judge_test out.codec out.texts format (origin_of index user_test_count) t ran)
          (validate_tests out digest format (suc index) ts user_test_count)

-- The samples from an index on.
unfoldable pub validate_input_samples :
    Outside
    → String
    → IoFormat
    → ℕ
    → List String
    → List HttpFixture
    → Act (Attempt ValidationFailure Unit)
unfolding utf8_bytes judge_sample decimal
validate_input_samples out digest format index [] fixtures = pure (done tt)
validate_input_samples out digest format index (s ∷ ss) fixtures =
    ask (λ n. out.execute_with_fixtures digest [] (utf8_bytes s) fixtures n) >>= λ ran.
    unless_failed (judge_sample out.texts format ("input-sample-" +++ decimal (index + 1)) ran)
      (validate_input_samples out digest format (suc index) ss fixtures)
