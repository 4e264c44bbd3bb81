-- ===== src/Worker/Evaluate/Examples.antt =====
-- What the runs of a candidate say of the registered examples: apps/jit-worker/src/jobs.rs.
use jitforge.Base.{
  ℕ, suc, String, true, List, [], ◌∷◌, ◌≡◌, refl, sym, ap, subst, ◌∙◌, arith, eq-of-==, ℤ, pos,
  negsuc, same_int, Attempt, done, failed, check, map_err, bind-done, check-done, All,
}
use jitforge.Text.Bytes.{utf8_bytes}
use jitforge.Protocol.{text, ToolExample}
use jitforge.Storage.Claim.{ClaimedSynthesisJob}
use jitforge.Artifact.{ToolTestCase, HttpFixture}
use jitforge.Worker.Types.{TestOrigin}
use jitforge.Worker.Outside.{Outside, ExecutionOutput}
use jitforge.Worker.Act.{World}
use jitforge.Worker.Rules.Contract.{effective_examples}
use jitforge.Worker.Calls.{ToolCall, published}
use jitforge.Worker.Evaluate.Judge.{
  same_bytes, validate_stdout, judge_test, ran_badly, exit_code_mismatch, text_mismatch,
}
use jitforge.Worker.Evaluate.Passed.{PassesTest, AllFrom}
use jitforge.Worker.Tools.Execute.{execute_tool}
use jitforge.Worker.Tools.Published.{execute_tool-HasPassed}
use jitforge.Worker.Tools.UserTests.{
  Runs, Mirrors, mirrors, OwnExamples, HasUserTests, WhereDrafted,
}
use jitforge.Worker.Tools.UserTests.Stay.{execute_tool-HasUserTests}

-- The artifact, run on the example's input without arguments, ended with 0 and printed its output.
pub record Reproduces (out : Outside) (digest : String) (e : ToolExample) : Type 0 where
  pub fixtures : List HttpFixture
  pub call : ℕ
  pub output : ExecutionOutput
  pub ran : out.execute_with_fixtures digest [] (utf8_bytes e.input) fixtures call ≡ done output
  pub exit_code : output.exit_code ≡ pos 0
  pub stdout : output.stdout ≡ utf8_bytes e.output

same_int_lem : (a b : ℤ) → same_int a b ≡ true → a ≡ b
same_int_lem (pos m) (pos n) h = ap pos (eq-of-== m n h)
same_int_lem (negsuc m) (negsuc n) h = ap negsuc (eq-of-== m n h)
same_int_lem (pos m) (negsuc n) h = cc
same_int_lem (negsuc m) (pos n) h = cc

same_bytes_lem : (ms ns : List ℕ) → same_bytes ms ns ≡ true → ms ≡ ns
unfolding same_bytes
same_bytes_lem [] [] h = refl
same_bytes_lem (m ∷ ms) (n ∷ ns) h = ground (arith, same_bytes_lem ms ns)
same_bytes_lem [] (n ∷ ns) h = cc
same_bytes_lem (m ∷ ms) [] h = cc

map_err-done :
    {E F A : Type 0} (f : E → F) (r : Attempt E A) (a : A) → map_err f r ≡ done a → r ≡ done a
map_err-done f (done b) a h = cc
map_err-done f (failed x) a h = cc

-- A run on a test that passes, where the output is text.
judge_test_lem :
    (out : Outside) (origin : TestOrigin) (t : ToolTestCase) (r : Attempt String ExecutionOutput)
    → judge_test out.codec out.texts text origin t r ≡ done tt
    → (o : ExecutionOutput) × (r ≡ done o)
      × (o.exit_code ≡ t.expected_exit_code)
      × (o.stdout ≡ utf8_bytes t.expected_stdout)
unfolding judge_test validate_stdout
judge_test_lem out origin t (failed x) h = cc
judge_test_lem out origin t (done o) h =
    let (u, same, h1) =
      bind-done
        (check (same_int o.exit_code t.expected_exit_code) (
          ran_badly out.texts t.name origin o
            (exit_code_mismatch t.expected_exit_code o.exit_code)))
        _ tt h in
    let printed =
      map_err-done (ran_badly out.texts t.name origin o)
        (check (same_bytes o.stdout (utf8_bytes t.expected_stdout))
          (text_mismatch out.texts t o.stdout o.stderr))
        tt h1 in
    (
      o,
      refl,
      same_int_lem _ _ (check-done _ _ same),
      same_bytes_lem o.stdout (utf8_bytes t.expected_stdout) (check-done _ _ printed),
    )

Reproduces-test :
    (out : Outside) (digest : String) (n i : ℕ) (e : ToolExample) (t : ToolTestCase)
    → Runs e t
    → PassesTest out digest text n i t
    → Reproduces out digest e
Reproduces-test out digest n i e t runs (call, passed) =
    let (o, ran, code, printed) = judge_test_lem out _ t _ passed in
    record {
      fixtures = t.http_fixtures;
      call = call;
      output = o;
      ran =
          sym (
            ap (λ a. out.execute_with_fixtures digest a (utf8_bytes t.stdin) t.http_fixtures call)
              runs.no_args
            ∙ ap (λ s. out.execute_with_fixtures digest [] (utf8_bytes s) t.http_fixtures call)
                runs.input)
          ∙ ran;
      exit_code = code ∙ runs.success;
      stdout = printed ∙ ap utf8_bytes runs.output;
    }

All-Reproduces :
    (out : Outside) (digest : String) (n i : ℕ) (es : List ToolExample) (ts : List ToolTestCase)
    → Mirrors es ts
    → AllFrom (PassesTest out digest text n) i ts
    → All (Reproduces out digest) es
All-Reproduces out digest n i [] ts m h = tt
All-Reproduces out digest n i (e ∷ es) [] m h = elim m [ ]
All-Reproduces out digest n i (e ∷ es) (t ∷ ts) (mirrors r m) (h, hs) =
    (Reproduces-test out digest n i e t r h, All-Reproduces out digest n (suc i) es ts m hs)

-- Where a job's output is text and the draft's first tests are the user's, an artifact that a call of a tool
-- publishes reproduces every registered example, with the corrections that the user approved: run in the
-- sandbox on the example's input without arguments, it ended with exit code 0 and printed exactly its output.
pub execute_tool-Reproduces :
    (out : Outside) (job : ClaimedSynthesisJob) (t : ToolCall) (w : World) (digest : String)
    → job.output_format ≡ text
    → HasUserTests job w.workspace
    → (execute_tool out job t w).0 ≡ done (published digest)
    → All (Reproduces out digest) (
        effective_examples 0 job.examples
          (execute_tool out job t w).1.workspace.example_corrections)
unfolding HasUserTests
execute_tool-Reproduces out job t w digest format users e =
    let (d, drafted, passed) = execute_tool-HasPassed out job t w digest e in
    let own : OwnExamples job (execute_tool out job t w).1.workspace.example_corrections d =
      subst
        (WhereDrafted (OwnExamples job (execute_tool out job t w).1.workspace.example_corrections))
        drafted (execute_tool-HasUserTests out job t w users) in
    All-Reproduces out digest d.user_test_count 0 _ d.tests own.mirrored (
      subst (λ f. AllFrom (PassesTest out digest f d.user_test_count) 0 d.tests) format
        passed.tests)
