-- ===== src/Worker/Synthesis/Consistent.antt =====
-- The reviews and verdicts of apps/jit-worker/src/synthesizer.rs that the worker goes on with.
use jitforge.Base.{
  ltb, len, ◌≤◌, String, Bool, true, false, not, ◌&&◌, ◌||◌, List, length, any, leb, leb→le, ◌==◌,
  ◌≡◌, refl, sym, subst, is_some, Attempt, done, check, map_err, bind-done, check-done,
  done_injective,
}
use jitforge.Text.{is_empty_text, trim}
use jitforge.Protocol.{Value}
use jitforge.Worker.Types.{
  ContractReview, ContractReviewDecision, accept, revise, reject, TestVerdict, TestVerdictKind,
  implementation_wrong, oracle_wrong, ambiguous, invalid_action, json,
}
use jitforge.Worker.Rules.{validate_reason}
use jitforge.Worker.Synthesis.{
  AssistantContent, calls_of, only_call, is_accept, check_issues, check_review,
  parse_contract_review_turn, is_oracle_wrong, fits, check_oracle, check_verdict,
  parse_verifier_turn,
}

not_lem : (b : Bool) → not b ≡ true → b ≡ false
not_lem true h = sym h
not_lem false h = refl

and_lem : (a b : Bool) → (a && b) ≡ true → (a ≡ true) × (b ≡ true)
and_lem true b h = (refl, h)
and_lem false b h = cc

or_lem : (a b : Bool) → (a || b) ≡ false → (a ≡ false) × (b ≡ false)
or_lem true b h = cc
or_lem false b h = (refl, h)

check_issues_lem :
    (d : ContractReviewDecision) (issues : List String)
    → check_issues d issues ≡ done tt
    → is_accept d ≡ (length issues == 0)
unfolding check_issues
check_issues_lem accept issues e = sym (check-done (length issues == 0) _ e)
check_issues_lem revise issues e = sym (not_lem _ (check-done (not (length issues == 0)) _ e))
check_issues_lem reject issues e = sym (not_lem _ (check-done (not (length issues == 0)) _ e))

check_oracle_lem :
    (k : TestVerdictKind) (v : TestVerdict)
    → check_oracle k v ≡ done tt
    → (is_some v.expected_stdout ≡ is_oracle_wrong k)
      × (is_some v.expected_exit_code ≡ is_oracle_wrong k)
unfolding check_oracle
check_oracle_lem oracle_wrong v e =
    let (u, printed, e1) =
      bind-done
        (check (is_some v.expected_stdout)
          (invalid_action "oracle_wrong verdict requires expected_stdout"))
        _ tt e in
    (
      check-done _ _ printed,
      (and_lem (fits v.expected_stdout) (is_some v.expected_exit_code) (check-done _ _ e1)).1,
    )
check_oracle_lem implementation_wrong v e =
    or_lem (is_some v.expected_stdout) (is_some v.expected_exit_code)
      (not_lem _ (check-done (not (is_some v.expected_stdout || is_some v.expected_exit_code)) _ e))
check_oracle_lem ambiguous v e =
    or_lem (is_some v.expected_stdout) (is_some v.expected_exit_code)
      (not_lem _ (check-done (not (is_some v.expected_stdout || is_some v.expected_exit_code)) _ e))

-- A review that is taken from a turn has at most 3 issues, and none exactly if it accepts the contract.
pub parse_contract_review_turn_lem :
    (decode : Value → Attempt String ContractReview) (choice : List AssistantContent)
    (review : ContractReview)
    → parse_contract_review_turn decode choice ≡ done review
    → (length review.issues ≤ 3) × (is_accept review.decision ≡ (length review.issues == 0))
unfolding parse_contract_review_turn check_review
parse_contract_review_turn_lem decode choice review e =
    let (arguments, _, e1) =
      bind-done
        (only_call "submit_contract_review" (calls_of choice)
          "contract reviewer must call submit_contract_review exactly once")
        _ review e in
    let (r, _, e2) = bind-done (map_err (λ e. json e) (decode arguments)) _ review e1 in
    let (u, _, e3) = bind-done (validate_reason r.reason) _ review e2 in
    let (v, few, e4) =
      bind-done
        (check
          (leb (length r.issues) 3
            && not (any (λ s. is_empty_text (trim s) || ltb 2048 (len s)) r.issues))
          (invalid_action "contract review issues exceed limits or contain an empty issue"))
        _ review e3 in
    let (w, agreed, e5) = bind-done (check_issues r.decision r.issues) _ review e4 in
    subst (λ x. (length x.issues ≤ 3) × (is_accept x.decision ≡ (length x.issues == 0)))
      (done_injective r review e5)
      (
        leb→le (length r.issues) 3 (and_lem _ _ (check-done _ _ few)).0,
        check_issues_lem r.decision r.issues agreed,
      )

-- A verdict that is taken from a turn has both parts of a new oracle if it calls the oracle wrong, and neither
-- of them if it does not.
pub parse_verifier_turn_lem :
    (decode : Value → Attempt String TestVerdict) (choice : List AssistantContent)
    (verdict : TestVerdict)
    → parse_verifier_turn decode choice ≡ done verdict
    → (is_some verdict.expected_stdout ≡ is_oracle_wrong verdict.classification)
      × (is_some verdict.expected_exit_code ≡ is_oracle_wrong verdict.classification)
unfolding parse_verifier_turn check_verdict
parse_verifier_turn_lem decode choice verdict e =
    let (arguments, _, e1) =
      bind-done
        (only_call "submit_test_verdict" (calls_of choice)
          "verifier must call submit_test_verdict exactly once")
        _ verdict e in
    let (v, _, e2) = bind-done (map_err (λ e. json e) (decode arguments)) _ verdict e1 in
    let (u, _, e3) = bind-done (validate_reason v.reason) _ verdict e2 in
    let (w, agreed, e4) = bind-done (check_oracle v.classification v) _ verdict e3 in
    subst
      (λ x.
        (is_some x.expected_stdout ≡ is_oracle_wrong x.classification)
        × (is_some x.expected_exit_code ≡ is_oracle_wrong x.classification))
      (done_injective v verdict e4) (check_oracle_lem v.classification v agreed)
