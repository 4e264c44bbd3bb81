-- ===== src/Worker/Tools/UserTests/Stay.antt =====
-- No tool takes the user's tests away from the draft: those of apps/jit-worker/src/jobs.rs.
use jitforge.Base.{
  ℕ, ◌-◌, String, Bool, true, false, Option, none, some, List, ◌≡◌, sym, subst, ◌∙◌, arith, ltb, ℤ,
  insert_index, done, ◌>>=◌, check, done_injective,
}
use jitforge.Storage.Claim.{ClaimedSynthesisJob}
use jitforge.Worker.Types.{JobError, SynthesisDraft, ApprovedExampleCorrection}
use jitforge.Worker.Outside.{Outside}
use jitforge.Worker.Act.{World}
use jitforge.Worker.Rules.Contract.{
  effective_examples, correct_test, correct_draft, apply_example_correction_lem,
}
use jitforge.Worker.Evaluate.Publish.{remember_candidate, set_failure}
use jitforge.Worker.Calls.{ToolCall}
use jitforge.Worker.Tools.Contract.{add_review, set_draft}
use jitforge.Worker.Tools.Source.{revise_source, count_probe, keep_probe}
use jitforge.Worker.Tools.Review.{correct_oracle, replace_oracle}
use jitforge.Worker.Tools.Asking.{keep_decision}
use jitforge.Worker.Tools.Web.{count_search, count_document}
use jitforge.Worker.Tools.Http.{
  add_capability, remove_capability, count_http_probe, keep_http_probe,
}
use jitforge.Worker.Tools.Execute.{execute_tool}
use jitforge.Worker.Tools.Kept.{Kept}
use jitforge.Worker.Tools.Kept.All.{execute_tool-keeps}
use jitforge.Worker.Tools.UserTests.{
  Mirrors, OwnExamples, WhereDrafted, HasUserTests, draft_of-OwnExamples, validate_contract_lem,
  length-effective_examples, Mirrors-replace_oracle, Mirrors-correct_test,
}

replace_oracle-OwnExamples :
    (job : ClaimedSynthesisJob) (m : List (ℕ × ApprovedExampleCorrection)) (d : SynthesisDraft)
    (name stdout : String) (code : ℤ)
    → OwnExamples job m d
    → OwnExamples job m
        (record d { tests = replace_oracle d.user_test_count name stdout code d.tests })
replace_oracle-OwnExamples job m d name stdout code h = record {
  count = h.count;
  mirrored =
      subst
        (λ n.
          Mirrors (effective_examples 0 job.examples m) (replace_oracle n name stdout code d.tests))
        (length-effective_examples 0 job.examples m ∙ sym h.count)
        (Mirrors-replace_oracle (effective_examples 0 job.examples m) d.tests name stdout code
          h.mirrored);
}

correct_draft-OwnExamples :
    (job : ClaimedSynthesisJob) (m : List (ℕ × ApprovedExampleCorrection))
    (c : ApprovedExampleCorrection) (o draft : Option SynthesisDraft)
    → correct_draft c o ≡ done draft
    → WhereDrafted (OwnExamples job m) o
    → WhereDrafted (OwnExamples job (insert_index (c.example_index - 1) c m)) draft
unfolding correct_draft
correct_draft-OwnExamples job m c none draft e h =
    subst (WhereDrafted (OwnExamples job (insert_index (c.example_index - 1) c m)))
      (done_injective none draft e) tt
correct_draft-OwnExamples job m c (some d) draft e h =
    go (ltb (c.example_index - 1) d.user_test_count) _ e
  where
    go :
        (b : Bool) (x : JobError)
        → (check b x >>= λ u.
            done
              (some (record d { tests = correct_test (c.example_index - 1) c.corrected d.tests })))
          ≡ done draft
        → WhereDrafted (OwnExamples job (insert_index (c.example_index - 1) c m)) draft
    go false x q = cc
    go true x q =
        subst (WhereDrafted (OwnExamples job (insert_index (c.example_index - 1) c m)))
          (done_injective _ draft q)
          (record {
            count = h.count;
            mirrored =
                Mirrors-correct_test (c.example_index - 1) 0 (c.example_index - 1) job.examples
                  d.tests c m (omega arith) h.mirrored;
          })

user_tests-Kept : (out : Outside) (job : ClaimedSynthesisJob) → Kept out job (HasUserTests job)
unfolding HasUserTests remember_candidate set_failure add_review set_draft revise_source count_probe
    keep_probe correct_oracle keep_decision count_search count_document add_capability
    remove_capability count_http_probe keep_http_probe
user_tests-Kept out job = record {
  candidate = λ a ws h. h;
  failure = λ f ws h. h;
  review = λ r ws h. h;
  draft = λ args d r ws e h.
      subst (OwnExamples job ws.example_corrections) (validate_contract_lem out args job ws d e)
        (draft_of-OwnExamples args job ws);
  source = λ s ws left h. h;
  probing = λ ws left h. h;
  probed = λ fingerprint v ws h. h;
  oracle = λ d name stdout code ws left e h.
      replace_oracle-OwnExamples job ws.example_corrections d name stdout code
        (subst (WhereDrafted (OwnExamples job ws.example_corrections)) e h);
  decision = λ d ws h. h;
  correction = λ args c ws ws' e q h.
      let (draft, p, same) = apply_example_correction_lem c ws ws' q in
      subst (HasUserTests job) same
        (correct_draft-OwnExamples job ws.example_corrections c ws.draft draft p h);
  searching = λ ws left h. h;
  fetching = λ ws left h. h;
  capability = λ hash c ws left h. h;
  release = λ hash ws h. h;
  probing_http = λ ws left h. h;
  probed_http = λ p ws h. h;
}

-- If the draft's first tests run the registered examples, each with the correction that the user approved for
-- it, as successful runs without arguments, then they do so after any call of a tool, however it ends.
pub execute_tool-HasUserTests :
    (out : Outside) (job : ClaimedSynthesisJob) (t : ToolCall) (w : World)
    → HasUserTests job w.workspace
    → HasUserTests job (execute_tool out job t w).1.workspace
execute_tool-HasUserTests out job t w h = execute_tool-keeps (user_tests-Kept out job) t w h
