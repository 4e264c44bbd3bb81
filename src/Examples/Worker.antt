-- ===== src/Examples/Worker.antt =====
-- A worker at concrete inputs: a model and a runner that answer one thing, and a task with a contract.
use jitforge.Base.{
  All, String, inl, inr, none, some, [], ◌∷◌, ◌≡◌, refl, pos, Attempt, done, failed, find?, any,
  count, update, get_by,
}
use jitforge.Protocol.{Value, null, object, end, IoFormat}
use jitforge.Storage.Claim.{ClaimedSynthesisJob}
use jitforge.Artifact.{StoredArtifact}
use jitforge.Worker.Types.{SynthesisDraft, empty_workspace, model, accept}
use jitforge.Worker.Outside.{Outside, Texts, Url}
use jitforge.Storage.Progress.{reject_job}
use jitforge.Worker.Rules.Urls.{member}
use jitforge.Worker.Agent.{available_tools}
use jitforge.Worker.Agent.Refused.{execute_tool-unoffered}
use jitforge.Worker.Act.{World, pure, registry}
use jitforge.Worker.Calls.{ToolCall, ToolExecution, published}
use jitforge.Worker.Evaluate.Published.{HasPassed}
use jitforge.Worker.Evaluate.Examples.{Reproduces, execute_tool-Reproduces}
use jitforge.Worker.Tools.Execute.{execute_tool}
use jitforge.Worker.Tools.UserTests.{HasUserTests, none_left, mirrors}
use jitforge.Worker.Tools.UserTests.Stay.{execute_tool-HasUserTests}
use jitforge.Worker.Tools.Published.{execute_tool-HasPassed}
use jitforge.Text.{trim, is_whitespace}
use jitforge.Worker.Tools.Source.{write_source}
use jitforge.Worker.Rules.Contract.{effective_examples}
use jitforge.Examples.{plain, held_job, with_job}

abbrev pub any_url : Url
any_url = record {
  scheme = "https";
  host_str = some "example.com";
  port_or_known_default = some 443;
  username = "";
  password = none;
  fragment = none;
  path = "/";
  query_keys = [];
  text = "https://example.com/";
}

abbrev unread : {A : Type 0} → Value → Attempt String A
unread v = failed "unread"

abbrev plain_texts : Texts
plain_texts = record {
  submit_contract_args = unread;
  write_source_args = λ v. done (record { source = "print(1)"; reason = "first" });
  edit_source_args = unread;
  probe_args = unread;
  review_generated_test_args = unread;
  abort_args = unread;
  request_clarification_args = unread;
  request_example_correction_args = unread;
  search_web_args = λ v. done (record { query = "slugs"; reason = "names" });
  fetch_document_args = unread;
  request_http_capability_args = unread;
  release_http_capability_args = unread;
  probe_http_args = unread;
  parse_json = λ s. done null;
  parse_json_bytes = λ bytes. done null;
  from_utf8 = λ bytes. done "text";
  from_utf8_lossy = λ bytes. "text";
  debug_text = λ s. s;
  database_text = λ f. "database";
  fixture_bytes = λ fs. 2;
  parse_url = λ s. done any_url;
  parse_domain = λ s. some s;
}

abbrev stored : StoredArtifact
stored = record {
  digest = "d2";
  relative_path = "artifacts/d2";
  directory = "/artifacts/d2";
  size_bytes = 10;
  bundle = record {
    manifest = record {
      format_version = 1;
      runtime = "python";
      input_format = IoFormat.text;
      output_format = IoFormat.text;
      source_sha256 = "s";
      http_capabilities = [];
    };
    contract = record { summary = "slugs"; assumptions = []; invariants = [] };
    source = "print(1)";
    tests = [];
    validation = record {
      tests_total = 1;
      tests_passed = 1;
      input_samples_total = 1;
      input_samples_passed = 1;
      repair_rounds = 0;
      agent_turns = 1;
      generated_test_corrections = 0;
      probes_run = 0;
      validated_at = "now";
    };
  };
}

-- Every run of a tool prints a dash.
abbrev outside : Outside
outside = record {
  codec = plain;
  texts = plain_texts;
  worker_id = "a";
  now = λ n. 300;
  others = λ n db. db;
  uuid = λ n. 2;
  review_contract = λ r n. done (record { decision = accept; reason = "fine"; issues = [] });
  verify_generated_test = λ r n. failed (model "busy");
  put = λ a n. done stored;
  build_artifact = λ s n. done "image";
  execute = λ s args input n. failed "busy";
  execute_with_fixtures =
      λ s args input fixtures n. done (record { exit_code = pos 0; stdout = 45 ∷ []; stderr = [] });
  search = λ s n. done null;
  fetch_document = λ s n. done null;
  probe = λ s c n. failed "busy";
}

abbrev slug_job : ClaimedSynthesisJob
slug_job = record {
  job_id = 1;
  tool_id = 7;
  tool = "slug";
  revision = 1;
  intent = "turn a title into a slug";
  input_format = IoFormat.text;
  output_format = IoFormat.text;
  examples = record { input = "a"; output = "-" } ∷ [];
  input_samples = "Hello" ∷ [];
  attempts = 1;
  agent_checkpoint = none;
}

abbrev slug_draft : SynthesisDraft
slug_draft = record {
  contract = record { summary = "slugs"; assumptions = []; invariants = [] };
  tests =
      record {
        name = "user-example-1";
        args = [];
        stdin = "a";
        expected_stdout = "-";
        expected_exit_code = pos 0;
        http_fixtures = [];
      }
      ∷ [];
  user_test_count = 1;
}

abbrev drafted : World
drafted = record {
  db = with_job held_job;
  workspace = record empty_workspace { draft = some slug_draft };
  calls = 0;
}

abbrev write_call : ToolCall
write_call = record { id = "call"; name = "write_source"; arguments = object end }

abbrev search_call : ToolCall
search_call = record { id = "call"; name = "search_web"; arguments = object end }

abbrev drafted-HasUserTests : HasUserTests slug_job drafted.workspace
unfolding HasUserTests effective_examples get_by
drafted-HasUserTests = record {
  count = refl;
  mirrored =
      mirrors (record { input = refl; output = refl; no_args = refl; success = refl }) none_left;
}

execute_tool-HasUserTests_example :
    HasUserTests slug_job (execute_tool outside slug_job write_call drafted).1.workspace
execute_tool-HasUserTests_example =
    execute_tool-HasUserTests outside slug_job write_call drafted drafted-HasUserTests

write_publishes : (execute_tool outside slug_job write_call drafted).0 ≡ done (published "d2")
unfolding execute_tool write_source jitforge.Worker.Act.and_then jitforge.Worker.Act.◌>>=◌
    jitforge.Worker.Act.pure jitforge.Worker.Act.ensure jitforge.Worker.Act.require
    jitforge.Worker.Act.lift jitforge.Worker.Act.workspace jitforge.Worker.Act.modify
    jitforge.Worker.Act.ask jitforge.Worker.Act.settle jitforge.Worker.Act.registry
    jitforge.Worker.Calls.parse_args jitforge.Worker.Calls.check_reason jitforge.Worker.Calls.call
    jitforge.Worker.Calls.set_job_stage trim is_whitespace
    jitforge.Worker.Tools.Source.revise_source
    jitforge.Worker.Evaluate.Publish.evaluate_after_mutation
    jitforge.Worker.Evaluate.Publish.store_candidate
    jitforge.Worker.Evaluate.Publish.remember_candidate jitforge.Worker.Evaluate.Publish.set_failure
    jitforge.Worker.Evaluate.Publish.validate jitforge.Worker.Evaluate.Publish.conclude
    jitforge.Worker.Evaluate.Publish.publish jitforge.Worker.Evaluate.Runs.validate_tests
    jitforge.Worker.Evaluate.Runs.validate_input_samples jitforge.Storage.Progress.set_stage_of_job
    jitforge.Storage.Progress.set_version_status jitforge.Storage.Progress.publish_job
    jitforge.Storage.Tx.◌>>=◌ jitforge.Storage.Tx.pure jitforge.Storage.Tx.query
    jitforge.Storage.Tx.execute jitforge.Storage.Tx.fetch jitforge.Storage.Tx.ensure any count
    update find? jitforge.Storage.Rows.is_leased jitforge.Storage.Rows.set_version_of
    jitforge.Storage.Rows.set_jobs jitforge.Storage.Rows.set_versions
write_publishes = refl

execute_tool-HasPassed_example :
    (d : SynthesisDraft) × ((execute_tool outside slug_job write_call drafted).1.workspace.draft
      ≡ some d)
    × HasPassed outside slug_job "d2" d
execute_tool-HasPassed_example =
    execute_tool-HasPassed outside slug_job write_call drafted "d2" write_publishes

-- All searches are spent.
abbrev searched : World
searched = record drafted {
  workspace = record (drafted.workspace) {
    metrics = record (drafted.workspace.metrics) { web_searches = 4 };
  };
}

execute_tool-unoffered_example :
    (execute_tool outside slug_job search_call searched).1.workspace ≡ searched.workspace
unfolding available_tools member
execute_tool-unoffered_example =
    execute_tool-unoffered outside slug_job search_call searched (inr (inl refl)) refl

execute_tool-Reproduces_example : All (Reproduces outside "d2") (
    effective_examples 0 slug_job.examples
      (execute_tool outside slug_job write_call drafted).1.workspace.example_corrections)
execute_tool-Reproduces_example =
    execute_tool-Reproduces outside slug_job write_call drafted "d2" refl drafted-HasUserTests
      write_publishes
