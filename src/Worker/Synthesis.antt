-- ===== src/Worker/Synthesis.antt =====
-- apps/jit-worker/src/synthesizer.rs: what the worker takes of the answers of its reviewers, and settings.
pub mod Consistent
use jitforge.Base.{
  ℕ, ◌*◌, String, len, Bool, true, false, not, ◌&&◌, ◌||◌, Option, none, some, List, [], ◌∷◌,
  length, any, leb, ltb, ◌==◌, str_eq, is_some, if◌then◌else◌, Attempt, done, failed, ◌>>=◌, ◌>>◌,
  check, map_err,
}
use jitforge.Text.{is_empty_text, trim}
use jitforge.Text.Format.{◌+++◌}
use jitforge.Protocol.{Value, string, object, end, field}
use jitforge.Worker.Types.{
  ContractReview, ContractReviewDecision, accept, revise, reject, TestVerdict, TestVerdictKind,
  implementation_wrong, oracle_wrong, ambiguous, SynthesisError, invalid_action, invalid_config,
  missing_config, json,
}
use jitforge.Worker.Calls.{ToolCall}
use jitforge.Worker.Rules.{validate_reason}

-- An item of a model's turn; of the other kinds nothing is read.
pub data AssistantContent : Type 0 where
  tool_call : ToolCall → AssistantContent
  other_content : AssistantContent

unfoldable pub calls_of : List AssistantContent → List ToolCall
calls_of [] = []
calls_of (tool_call c ∷ items) = c ∷ calls_of items
calls_of (other_content ∷ items) = calls_of items

-- The arguments of the only call, if it is of this tool.
unfoldable pub only_call : String → List ToolCall → String → Attempt SynthesisError Value
only_call name (c ∷ []) message =
    if str_eq c.name name then done c.arguments else failed (invalid_action message)
only_call name _ message = failed (invalid_action message)

abbrev pub is_accept : ContractReviewDecision → Bool
is_accept accept = true
is_accept revise = false
is_accept reject = false

unfoldable pub check_issues : ContractReviewDecision → List String → Attempt SynthesisError Unit
check_issues accept issues =
    check (length issues == 0) (invalid_action "accepted contract review must not contain issues")
check_issues _ issues =
    check (not (length issues == 0))
      (invalid_action "revise or reject contract review must contain a concrete issue")

unfoldable pub check_review : ContractReview → Attempt SynthesisError ContractReview
unfolding validate_reason check_issues
check_review review = do
  validate_reason review.reason
  check
      (leb (length review.issues) 3
        && not (any (λ s. is_empty_text (trim s) || ltb 2048 (len s)) review.issues))
      (invalid_action "contract review issues exceed limits or contain an empty issue")
  check_issues review.decision review.issues
  done review

unfoldable pub parse_contract_review_turn :
    (Value → Attempt String ContractReview)
    → List AssistantContent
    → Attempt SynthesisError ContractReview
unfolding calls_of only_call check_review
parse_contract_review_turn decode choice = do
  arguments ←
      only_call "submit_contract_review" (calls_of choice)
        "contract reviewer must call submit_contract_review exactly once"
  review ← map_err (λ e. json e) (decode arguments)
  check_review review

abbrev pub is_oracle_wrong : TestVerdictKind → Bool
is_oracle_wrong oracle_wrong = true
is_oracle_wrong implementation_wrong = false
is_oracle_wrong ambiguous = false

abbrev pub fits : Option String → Bool
fits none = false
fits (some s) = leb (len s) (1024 * 1024)

unfoldable pub check_oracle : TestVerdictKind → TestVerdict → Attempt SynthesisError Unit
check_oracle oracle_wrong v = do
  check (is_some v.expected_stdout) (invalid_action "oracle_wrong verdict requires expected_stdout")
  check (fits v.expected_stdout && is_some v.expected_exit_code)
      (invalid_action "oracle replacement exceeds limits or lacks an exit code")
check_oracle _ v =
    check (not (is_some v.expected_stdout || is_some v.expected_exit_code))
      (invalid_action "non-oracle verdict must not replace the test")

unfoldable pub check_verdict : TestVerdict → Attempt SynthesisError TestVerdict
unfolding validate_reason check_oracle
check_verdict v = do validate_reason v.reason; check_oracle v.classification v; done v

unfoldable pub parse_verifier_turn :
    (Value → Attempt String TestVerdict)
    → List AssistantContent
    → Attempt SynthesisError TestVerdict
unfolding calls_of only_call check_verdict
parse_verifier_turn decode choice = do
  arguments ←
      only_call "submit_test_verdict" (calls_of choice)
        "verifier must call submit_test_verdict exactly once"
  verdict ← map_err (λ e. json e) (decode arguments)
  check_verdict verdict

unfoldable pub retryable_status : Option ℕ → Bool
retryable_status none = true
retryable_status (some status) = leb 200 status && ltb status 300 || status == 429 || leb 500 status

unfoldable pub required_setting : String → Option String → Attempt SynthesisError String
required_setting name none = failed (missing_config name)
required_setting name (some value) =
    if is_empty_text (trim value) then failed (missing_config name) else done (trim value)

abbrev pub thinking : String → Option Value
thinking kind = some (object (field "thinking" (object (field "type" (string kind) end)) end))

-- `debug_text` is the text of a text in quotes.
unfoldable pub parse_thinking : (String → String) → String → Attempt SynthesisError (Option Value)
parse_thinking debug_text value =
    if is_empty_text (trim value) || str_eq (trim value) "auto"
    then done none
    else if str_eq (trim value) "disabled"
    then done (thinking "disabled")
    else if str_eq (trim value) "enabled"
    then done (thinking "enabled")
    else failed (
        invalid_config
          ("LLM thinking must be auto, enabled, or disabled; got " +++ debug_text (trim value)))
