-- ===== src/Worker/Json.antt =====
-- `serde_json::to_value` of the worker's types.
use jitforge.Base.{suc, ℤ, pos, negsuc, String, Option, none, some, List, [], ◌∷◌}
use jitforge.Text.Format.{◌+++◌, decimal}
use jitforge.Protocol.{
  Value, null, unsigned, number, string, array, object, Items, nil, cons, Fields, end, field,
  io_format_str, ToolExample, HttpCapability,
}
use jitforge.Artifact.{
  ToolContract, HttpFixture, ToolTestCase, ValidationSummary, HttpCapabilityGrant, ArtifactManifest,
}
use jitforge.Worker.Types.{
  ResolvedDecision, ApprovedExampleCorrection, ContractReviewDecision, accept, revise, reject,
  ContractReview, TestVerdictKind, implementation_wrong, oracle_wrong, ambiguous, TestVerdict,
  TestOrigin, user, generated, input_sample, ValidationFailure, TestVerificationRequest,
  HttpProbeRecord,
}

unfoldable pub items_of : {A : Type 0} → (A → Value) → List A → Items
items_of f [] = nil
items_of f (a ∷ as') = cons (f a) (items_of f as')

unfoldable pub int_value : ℤ → Value
unfolding decimal
int_value (pos n) = unsigned n
int_value (negsuc n) = number ("-" +++ decimal (suc n))

abbrev pub or_null : {A : Type 0} → (A → Value) → Option A → Value
or_null f none = null
or_null f (some a) = f a

abbrev pub strings : List String → Value
strings ss = array (items_of (λ s. string s) ss)

unfoldable pub contract_value : ToolContract → Value
unfolding items_of
contract_value c = object (
    field "summary" (string c.summary)
      (field "assumptions" (strings c.assumptions) (field "invariants" (strings c.invariants) end)))

unfoldable pub fixture_value : HttpFixture → Value
fixture_value f = object (
    field "request_url" (string f.request_url) (
      field "response_url" (string f.response_url) (
        field "status" (unsigned f.status)
          (field "content_type" (string f.content_type) (field "body" (string f.body) end)))))

-- `skip_serializing_if = "Vec::is_empty"`
abbrev pub fixtures_field : List HttpFixture → Fields
fixtures_field [] = end
fixtures_field fs = field "http_fixtures" (array (items_of fixture_value fs)) end

unfoldable pub test_value : ToolTestCase → Value
unfolding items_of int_value fixture_value
test_value t = object (
    field "name" (string t.name) (
      field "args" (strings t.args) (
        field "stdin" (string t.stdin) (
          field "expected_stdout" (string t.expected_stdout) (
            field "expected_exit_code" (int_value t.expected_exit_code)
              (fixtures_field t.http_fixtures))))))

unfoldable pub decision_value : ResolvedDecision → Value
decision_value d = object (
    field "key" (string d.key)
      (field "question" (string d.question) (field "answer" (string d.answer) end)))

unfoldable pub example_value : ToolExample → Value
example_value e = object (field "input" (string e.input) (field "output" (string e.output) end))

unfoldable pub correction_value : ApprovedExampleCorrection → Value
unfolding example_value
correction_value c = object (
    field "example_index" (unsigned c.example_index) (
      field "original" (example_value c.original)
        (field "corrected" (example_value c.corrected) (field "reason" (string c.reason) end))))

abbrev pub review_decision_str : ContractReviewDecision → String
review_decision_str accept = "accept"
review_decision_str revise = "revise"
review_decision_str reject = "reject"

unfoldable pub review_value : ContractReview → Value
unfolding items_of
review_value r = object (
    field "decision" (string (review_decision_str r.decision))
      (field "reason" (string r.reason) (field "issues" (strings r.issues) end)))

abbrev pub verdict_kind_str : TestVerdictKind → String
verdict_kind_str implementation_wrong = "implementation_wrong"
verdict_kind_str oracle_wrong = "oracle_wrong"
verdict_kind_str ambiguous = "ambiguous"

unfoldable pub verdict_value : TestVerdict → Value
unfolding int_value
verdict_value v = object (
    field "classification" (string (verdict_kind_str v.classification)) (
      field "reason" (string v.reason) (
        field "expected_stdout" (or_null (λ s. string s) v.expected_stdout)
          (field "expected_exit_code" (or_null int_value v.expected_exit_code) end))))

abbrev pub origin_str : TestOrigin → String
origin_str user = "user"
origin_str generated = "generated"
origin_str input_sample = "input_sample"

unfoldable pub failure_value : ValidationFailure → Value
unfolding int_value
failure_value f = object (
    field "test_name" (string f.test_name) (
      field "test_origin" (string (origin_str f.test_origin)) (
        field "diagnostic" (string f.diagnostic) (
          field "actual_stdout" (string f.actual_stdout) (
            field "actual_stderr" (string f.actual_stderr)
              (field "actual_exit_code" (or_null int_value f.actual_exit_code) end))))))

unfoldable pub verification_value : TestVerificationRequest → Value
unfolding contract_value test_value failure_value io_format_str items_of
verification_value r = object (
    field "intent" (string r.intent) (
      field "input_format" (string (io_format_str r.input_format)) (
        field "output_format" (string (io_format_str r.output_format)) (
          field "contract" (contract_value r.contract) (
            field "immutable_user_tests" (array (items_of test_value r.immutable_user_tests)) (
              field "generated_test" (test_value r.generated_test) (
                field "current_source" (string r.current_source) (
                  field "failure" (failure_value r.failure)
                    (field "review_reason" (string r.review_reason) end)))))))))

unfoldable pub probe_record_value : HttpProbeRecord → Value
probe_record_value p = object (
    field "capability_hash" (string p.capability_hash) (
      field "request_url" (string p.request_url) (
        field "final_url" (string p.final_url) (
          field "status" (unsigned p.status)
            (field "content_type" (string p.content_type) (field "body" (string p.body) end))))))

-- The fields of a capability that its hash is taken of; the only method is GET.
abbrev pub hashed_fields : HttpCapability → Fields → Fields
hashed_fields c rest = field "scheme" (string c.scheme) (
    field "host" (string c.host) (
      field "port" (unsigned c.port) (
        field "method" (string "GET") (
          field "path_prefix" (string c.path_prefix)
            (field "query_keys" (strings c.query_keys) rest)))))

unfoldable pub capability_value : HttpCapability → Value
unfolding items_of
capability_value c = object (hashed_fields c (field "purpose" (string c.purpose) end))

unfoldable pub grant_value : HttpCapabilityGrant → Value
unfolding capability_value
grant_value g = object (
    field "approval_hash" (string g.approval_hash)
      (field "capability" (capability_value g.capability) end))

abbrev pub grants_field : List HttpCapabilityGrant → Fields
grants_field [] = end
grants_field gs = field "http_capabilities" (array (items_of grant_value gs)) end

unfoldable pub manifest_value : ArtifactManifest → Value
unfolding items_of grant_value io_format_str
manifest_value m = object (
    field "format_version" (unsigned m.format_version) (
      field "runtime" (string m.runtime) (
        field "input_format" (string (io_format_str m.input_format)) (
          field "output_format" (string (io_format_str m.output_format))
            (field "source_sha256" (string m.source_sha256) (grants_field m.http_capabilities))))))

unfoldable pub validation_value : ValidationSummary → Value
validation_value v = object (
    field "tests_total" (unsigned v.tests_total) (
      field "tests_passed" (unsigned v.tests_passed) (
        field "input_samples_total" (unsigned v.input_samples_total) (
          field "input_samples_passed" (unsigned v.input_samples_passed) (
            field "repair_rounds" (unsigned v.repair_rounds) (
              field "agent_turns" (unsigned v.agent_turns) (
                field "generated_test_corrections" (unsigned v.generated_test_corrections) (
                  field "probes_run" (unsigned v.probes_run)
                    (field "validated_at" (string v.validated_at) end)))))))))
