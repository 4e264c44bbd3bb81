-- ===== src/Examples/Reviews.antt =====
-- The answers of the worker's reviewers at concrete inputs.
use jitforge.Base.{◌≤◌, ◌==◌, length, any, is_some, List, [], ◌∷◌, some, pos, ◌≡◌, refl, done}
use jitforge.Text.{trim, is_whitespace}
use jitforge.Protocol.{object, end}
use jitforge.Worker.Types.{ContractReview, revise, TestVerdict, oracle_wrong}
use jitforge.Worker.Synthesis.{
  AssistantContent, tool_call, other_content, is_accept, is_oracle_wrong,
  parse_contract_review_turn, parse_verifier_turn,
}
use jitforge.Worker.Synthesis.Consistent.{parse_contract_review_turn_lem, parse_verifier_turn_lem}

abbrev review_turn : List AssistantContent
review_turn =
    other_content
    ∷ tool_call (record { id = "r"; name = "submit_contract_review"; arguments = object end })
    ∷ []

abbrev some_review : ContractReview
some_review = record { decision = revise; reason = "vague"; issues = "which separator" ∷ [] }

parse_contract_review_turn_lem_example :
    (length some_review.issues ≤ 3)
    × (is_accept some_review.decision ≡ (length some_review.issues == 0))
unfolding parse_contract_review_turn trim is_whitespace any
parse_contract_review_turn_lem_example =
    parse_contract_review_turn_lem (λ v. done some_review) review_turn some_review refl

abbrev verdict_turn : List AssistantContent
verdict_turn =
    tool_call (record { id = "v"; name = "submit_test_verdict"; arguments = object end }) ∷ []

abbrev some_verdict : TestVerdict
some_verdict = record {
  classification = oracle_wrong;
  reason = "the test expects a space";
  expected_stdout = some "-";
  expected_exit_code = some (pos 0);
}

parse_verifier_turn_lem_example :
    (is_some some_verdict.expected_stdout ≡ is_oracle_wrong some_verdict.classification)
    × (is_some some_verdict.expected_exit_code ≡ is_oracle_wrong some_verdict.classification)
unfolding parse_verifier_turn trim is_whitespace
parse_verifier_turn_lem_example =
    parse_verifier_turn_lem (λ v. done some_verdict) verdict_turn some_verdict refl
