-- ===== src/Worker/Evaluate/Judge.antt =====
-- apps/jit-worker/src/jobs.rs: what a run on a test or on an input sample says of a candidate.
use jitforge.Base.{
  ℕ, String, Bool, true, false, not, ◌&&◌, none, some, List, [], ◌∷◌, ℤ, pos, ◌==◌, take,
  if◌then◌else◌, Attempt, done, failed, ◌>>=◌, ◌>>◌, check, map_err, same_int,
}
use jitforge.Text.Format.{◌+++◌, decimal_int}
use jitforge.Text.Bytes.{utf8_bytes}
use jitforge.Protocol.{IoFormat, text, json}
use jitforge.Storage.Events.{Codec}
use jitforge.Artifact.{ToolTestCase}
use jitforge.Worker.Types.{TestOrigin, input_sample, ValidationFailure}
use jitforge.Worker.Outside.{Texts, ExecutionOutput}
use jitforge.Worker.Errors.{truncate_text}
use jitforge.Worker.Evaluate.Json.{json_values_equivalent}

-- `&bytes[..bytes.len().min(2048)]`, decoded with replacements.
unfoldable pub diagnostic_bytes : Texts → List ℕ → String
diagnostic_bytes texts bytes = texts.from_utf8_lossy (take 2048 bytes)

unfoldable pub same_bytes : List ℕ → List ℕ → Bool
same_bytes [] [] = true
same_bytes (m ∷ ms) (n ∷ ns) = m == n && same_bytes ms ns
same_bytes _ _ = false

unfoldable pub text_mismatch : Texts → ToolTestCase → List ℕ → List ℕ → String
unfolding diagnostic_bytes truncate_text
text_mismatch texts t stdout stderr =
    "stdout mismatch: expected "
    +++ texts.debug_text (truncate_text t.expected_stdout)
    +++ ", got "
    +++ texts.debug_text (diagnostic_bytes texts stdout)
    +++ "; stderr="
    +++ texts.debug_text (diagnostic_bytes texts stderr)

-- A run that is to fail, or whose output is text, prints exactly what is expected.
abbrev pub is_textual : IoFormat → ToolTestCase → Bool
is_textual text t = true
is_textual json t = not (same_int t.expected_exit_code (pos 0))

unfoldable pub validate_json : Codec → Texts → ToolTestCase → List ℕ → Attempt String Unit
validate_json codec texts t stdout = do
  expected ←
      map_err (λ e. "test " +++ texts.debug_text t.name +++ " has invalid expected JSON: " +++ e)
        (texts.parse_json t.expected_stdout)
  actual ←
      map_err (λ e. "test " +++ texts.debug_text t.name +++ " returned invalid JSON: " +++ e)
        (texts.parse_json_bytes stdout)
  check (json_values_equivalent actual expected)
      ("JSON mismatch: expected " +++ codec.encode expected +++ ", got " +++ codec.encode actual)

unfoldable pub validate_stdout :
    Codec → Texts → IoFormat → ToolTestCase → List ℕ → List ℕ → Attempt String Unit
unfolding utf8_bytes same_bytes text_mismatch validate_json
validate_stdout codec texts format t stdout stderr =
    if is_textual format t
    then check (same_bytes stdout (utf8_bytes t.expected_stdout))
        (text_mismatch texts t stdout stderr)
    else validate_json codec texts t stdout

abbrev pub never_ran : String → TestOrigin → String → ValidationFailure
never_ran name origin diagnostic = record {
  test_name = name;
  test_origin = origin;
  diagnostic = diagnostic;
  actual_stdout = "";
  actual_stderr = "";
  actual_exit_code = none;
}

abbrev pub ran_badly : Texts → String → TestOrigin → ExecutionOutput → String → ValidationFailure
ran_badly texts name origin output diagnostic = record {
  test_name = name;
  test_origin = origin;
  diagnostic = diagnostic;
  actual_stdout = diagnostic_bytes texts output.stdout;
  actual_stderr = diagnostic_bytes texts output.stderr;
  actual_exit_code = some output.exit_code;
}

abbrev pub exit_code_mismatch : ℤ → ℤ → String
exit_code_mismatch expected actual =
    "exit code mismatch: expected " +++ decimal_int expected +++ ", got " +++ decimal_int actual

unfoldable pub judge_test :
    Codec
    → Texts
    → IoFormat
    → TestOrigin
    → ToolTestCase
    → Attempt String ExecutionOutput
    → Attempt ValidationFailure Unit
unfolding validate_stdout diagnostic_bytes decimal_int
judge_test codec texts format origin t (failed e) =
    failed
      (never_ran t.name origin ("test " +++ texts.debug_text t.name +++ " runner error: " +++ e))
judge_test codec texts format origin t (done output) = do
  check (same_int output.exit_code t.expected_exit_code) (
      ran_badly texts t.name origin output
        (exit_code_mismatch t.expected_exit_code output.exit_code))
  map_err (ran_badly texts t.name origin output)
      (validate_stdout codec texts format t output.stdout output.stderr)

abbrev pub parsed_or : {A : Type 0} → String → Attempt String A → Attempt String Unit
parsed_or message (done a) = done tt
parsed_or message (failed e) = failed (message +++ e)

unfoldable pub sample_output : Texts → IoFormat → List ℕ → Attempt String Unit
sample_output texts json stdout =
    parsed_or "input sample returned invalid JSON: " (texts.parse_json_bytes stdout)
sample_output texts text stdout =
    parsed_or "input sample returned non-UTF-8 text: " (texts.from_utf8 stdout)

abbrev pub sample_exit_code : ℤ → String
sample_exit_code actual =
    "input sample must execute successfully, but exited with " +++ decimal_int actual

unfoldable pub judge_sample :
    Texts → IoFormat → String → Attempt String ExecutionOutput → Attempt ValidationFailure Unit
unfolding sample_output diagnostic_bytes decimal_int
judge_sample texts format name (failed e) =
    failed (never_ran name input_sample ("input sample runner error: " +++ e))
judge_sample texts format name (done output) = do
  check (same_int output.exit_code (pos 0))
      (ran_badly texts name input_sample output (sample_exit_code output.exit_code))
  map_err (ran_badly texts name input_sample output) (sample_output texts format output.stdout)
