-- ===== src/Worker/Rules.antt =====
-- apps/jit-worker/src/jobs.rs and synthesizer.rs: the checks on what the agent asks for.
pub mod Urls
pub mod Contract
use Prim.Native.Nat.{zero, suc}
use jitforge.Base.{
  ℕ, ◌-◌, ◌*◌, String, len, code, Char, Bool, true, false, not, ◌&&◌, ◌||◌, Option, none, some,
  List, [], ◌∷◌, leb, ltb, ◌==◌, str_eq, any, length, if◌then◌else◌, Attempt, done, failed, ◌>>=◌,
  ◌>>◌, check, ok_or, map_err,
}
use jitforge.Text.{is_empty_text, trim, is_ascii_lowercase, is_ascii_digit, all_chars}
use jitforge.Text.Format.{◌+++◌, contains_code, contains_text}
use jitforge.Protocol.{IoFormat, text, json, ToolExample, JobInputChoice}
use jitforge.Storage.Claim.{ClaimedSynthesisJob}
use jitforge.Worker.Types.{
  SynthesisError, invalid_source, invalid_action as invalid_action_error, JobError,
  ApprovedExampleCorrection,
}
use jitforge.Worker.Outside.{
  Texts, RequestClarificationArgs, RequestExampleCorrectionArgs, ProbeArgs,
}
use jitforge.Worker.Errors.{invalid_action}

unfoldable pub validate_reason : String → Attempt SynthesisError Unit
validate_reason reason =
    check (not (is_empty_text (trim reason) || ltb 2048 (len reason)))
      (invalid_action_error "reason must contain 1-2048 bytes")

unfoldable pub validate_source : String → Attempt SynthesisError Unit
unfolding contains_code
validate_source source =
    check (not (is_empty_text source || ltb (64 * 1024) (len source) || contains_code 0 source))
      invalid_source

-- `u8::is_ascii_alphanumeric`
abbrev pub is_key_edge : Char → Bool
is_key_edge c = is_ascii_lowercase c || leb 65 (code c) && leb (code c) 90 || is_ascii_digit c

-- A lowercase letter, a digit, `.`, `_` or `-`.
unfoldable pub is_key_char : Char → Bool
is_key_char c =
    is_ascii_lowercase c || is_ascii_digit c || code c == 46 || code c == 95 || code c == 45

unfoldable pub starts_key : String → Bool
starts_key String.[] = false
starts_key (String.◌∷◌ c s) = is_key_edge c

unfoldable pub ends_key : String → Bool
ends_key String.[] = false
ends_key (String.◌∷◌ c s) = let rest = ends_key s in if is_empty_text s then is_key_edge c else rest

unfoldable pub valid_decision_key : String → Bool
unfolding is_key_char starts_key ends_key contains_text
valid_decision_key key =
    not (is_empty_text key)
    && leb (len key) 128
    && all_chars is_key_char key
    && starts_key key
    && ends_key key
    && not (contains_text key "..")

abbrev pub is_long : ℕ → Option String → Bool
is_long n none = false
is_long n (some s) = ltb n (len s)

unfoldable pub is_bad_choice : JobInputChoice → Bool
is_bad_choice c =
    is_empty_text (trim c.value)
    || ltb 512 (len c.value)
    || is_empty_text (trim c.label)
    || ltb 512 (len c.label)
    || is_long 1024 c.description

unfoldable pub validate_clarification : RequestClarificationArgs → Attempt JobError Unit
unfolding valid_decision_key is_bad_choice invalid_action
validate_clarification args = do
  check (valid_decision_key args.decision_key) (
      invalid_action
        "decision_key must contain 1-128 lowercase letters, digits, dots, underscores, or hyphens and start and end with a letter or digit")
  check
      (not (
        is_empty_text (trim args.question)
        || ltb 4096 (len args.question)
        || ltb 3 (length args.choices)))
      (invalid_action "clarification question must contain 1-4096 bytes and at most three choices")
  check (not (any is_bad_choice args.choices)) (invalid_action "clarification choices are invalid")

-- Where the format is JSON, the text must be JSON.
unfoldable pub check_json : Texts → IoFormat → String → (String → String) → Attempt JobError Unit
unfolding invalid_action
check_json texts text s message = done tt
check_json texts json s message =
    map_err (λ e. invalid_action (message e)) (texts.parse_json s) >>= λ v. done tt

-- `examples[index]`
unfoldable pub nth : {A : Type 0} → ℕ → List A → Option A
nth n [] = none
nth zero (a ∷ as') = some a
nth (suc n) (a ∷ as') = nth n as'

abbrev pub same_example : ToolExample → ToolExample → Bool
same_example a b = str_eq a.input b.input && str_eq a.output b.output

-- `index.checked_sub(1).filter(|index| *index < len)` and the example there.
unfoldable pub registered_example : ℕ → List ToolExample → Option ToolExample
unfolding nth
registered_example zero examples = none
registered_example (suc n) examples = nth n examples

unfoldable pub validate_example_correction :
    Texts
    → ClaimedSynthesisJob
    → RequestExampleCorrectionArgs
    → Attempt JobError ApprovedExampleCorrection
unfolding registered_example check_json invalid_action contains_code
validate_example_correction texts job args = do
  original ←
      ok_or (registered_example args.example_index job.examples)
        (invalid_action "example_index does not identify a registered example")
  check
      (not (
        ltb (1024 * 1024) (len args.corrected_input)
        || ltb (1024 * 1024) (len args.corrected_output)
        || contains_code 0 args.corrected_input
        || contains_code 0 args.corrected_output))
      (invalid_action "corrected example fields must be at most 1 MiB and contain no NUL bytes")
  check_json texts job.input_format args.corrected_input
      (λ e. "corrected example input is not valid JSON: " +++ e)
  check_json texts job.output_format args.corrected_output
      (λ e. "corrected example output is not valid JSON: " +++ e)
  let corrected : ToolExample = record {
    input = args.corrected_input;
    output = args.corrected_output;
  }
  check (not (same_example original corrected))
      (invalid_action "example correction must change the registered example")
  done (record {
    example_index = args.example_index;
    original = original;
    corrected = corrected;
    reason = args.reason;
  })

unfoldable pub validate_probe : ProbeArgs → Attempt JobError Unit
unfolding invalid_action
validate_probe args =
    check
      (not (
        ltb 32 (length args.args)
        || any (λ a. ltb 4096 (len a)) args.args
        || ltb (1024 * 1024) (len args.stdin)))
      (invalid_action "probe exceeds protocol limits")
