-- ===== src/Worker/Tools/UserTests.antt =====
-- The tests that the agent cannot change: the registered examples, with the corrections that the user has
-- approved, come first among the tests of the draft.
pub mod Stay
use Prim.Native.Nat.{zero, suc}
use jitforge.Base.{
  ℕ, ◌+◌, ◌-◌, ◌<◌, String, Bool, true, false, Option, none, some, List, [], ◌∷◌, ◌++◌, length,
  take, ◌≡◌, refl, ap, sym, subst, ◌∙◌, arith, ltb, ltb→lt, ℤ, pos, get_index, insert_index,
  Attempt, done, failed, ◌>>=◌, ◌==◌, if◌then◌else◌, get_index-insert_index,
}
use jitforge.Protocol.{ToolExample}
use jitforge.Storage.Claim.{ClaimedSynthesisJob}
use jitforge.Artifact.{ToolTestCase, HttpFixture}
use jitforge.Worker.Types.{AgentWorkspace, JobError, SynthesisDraft, ApprovedExampleCorrection}
use jitforge.Worker.Outside.{Outside, SubmitContractArgs}
use jitforge.Worker.Rules.Contract.{
  effective_examples, user_test, user_tests, draft_of, validate_contract, check_contract,
  correct_test, correct_draft, corrected_or, apply_example_correction, apply_example_correction_lem,
  corrected_workspace,
}
use jitforge.Worker.Tools.Review.{replace_oracle, replace_named, is_named}

-- A test that runs an example: no arguments, and success.
pub record Runs (e : ToolExample) (t : ToolTestCase) : Type 0 where
  pub input : t.stdin ≡ e.input
  pub output : t.expected_stdout ≡ e.output
  pub no_args : t.args ≡ []
  pub success : t.expected_exit_code ≡ pos 0

-- The first tests run the examples, in their order.
pub data Mirrors : List ToolExample → List ToolTestCase → Type 0 where
  none_left : {ts : List ToolTestCase} → Mirrors [] ts
  mirrors :
      {e : ToolExample} {es : List ToolExample} {t : ToolTestCase} {ts : List ToolTestCase}
      → Runs e t
      → Mirrors es ts
      → Mirrors (e ∷ es) (t ∷ ts)

pub record OwnExamples (job : ClaimedSynthesisJob)
    (corrections : List (ℕ × ApprovedExampleCorrection)) (d : SynthesisDraft) : Type 0 where
  pub count : d.user_test_count ≡ length job.examples
  pub mirrored : Mirrors (effective_examples 0 job.examples corrections) d.tests

abbrev pub WhereDrafted : (SynthesisDraft → Type 0) → Option SynthesisDraft → Type 0
WhereDrafted P none = Unit
WhereDrafted P (some d) = P d

-- The draft, if there is one, has the user's tests.
unfoldable pub HasUserTests : ClaimedSynthesisJob → AgentWorkspace → Type 0
HasUserTests job ws = WhereDrafted (OwnExamples job ws.example_corrections) ws.draft

Mirrors-user_tests :
    (fixtures : List HttpFixture) (i : ℕ) (es : List ToolExample) (more : List ToolTestCase)
    → Mirrors es (user_tests fixtures i es ++ more)
unfolding user_tests user_test
Mirrors-user_tests fixtures i [] more = none_left
Mirrors-user_tests fixtures i (e ∷ es) more =
    mirrors (record { input = refl; output = refl; no_args = refl; success = refl })
      (Mirrors-user_tests fixtures (suc i) es more)

length-user_tests :
    (fixtures : List HttpFixture) (i : ℕ) (es : List ToolExample)
    → length (user_tests fixtures i es) ≡ length es
unfolding user_tests
length-user_tests fixtures i [] = refl
length-user_tests fixtures i (e ∷ es) = ap suc (length-user_tests fixtures (suc i) es)

length-effective_examples :
    (i : ℕ) (es : List ToolExample) (m : List (ℕ × ApprovedExampleCorrection))
    → length (effective_examples i es m) ≡ length es
unfolding effective_examples
length-effective_examples i [] m = refl
length-effective_examples i (e ∷ es) m = ap suc (length-effective_examples (suc i) es m)

draft_of-OwnExamples :
    (args : SubmitContractArgs) (job : ClaimedSynthesisJob) (ws : AgentWorkspace)
    → OwnExamples job ws.example_corrections (draft_of args job ws)
unfolding draft_of
draft_of-OwnExamples args job ws = record {
  count = length-user_tests _ 0 _ ∙ length-effective_examples 0 job.examples ws.example_corrections;
  mirrored = Mirrors-user_tests _ 0 _ _;
}

-- An accepted contract is the draft of its arguments.
pub validate_contract_lem :
    (out : Outside) (args : SubmitContractArgs) (job : ClaimedSynthesisJob) (ws : AgentWorkspace)
    (d : SynthesisDraft)
    → validate_contract out.texts args job ws ≡ done d
    → draft_of args job ws ≡ d
unfolding validate_contract
validate_contract_lem out args job ws d e =
    go (check_contract out.texts args job ws (draft_of args job ws)) e
  where
    go :
        (r : Attempt JobError Unit)
        → (r >>= λ u. done (draft_of args job ws)) ≡ done d
        → draft_of args job ws ≡ d
    go (done u) e = cc
    go (failed x) e = cc

Mirrors-replace_oracle :
    (es : List ToolExample) (ts : List ToolTestCase) (name stdout : String) (code : ℤ)
    → Mirrors es ts
    → Mirrors es (replace_oracle (length es) name stdout code ts)
unfolding replace_oracle
Mirrors-replace_oracle [] ts name stdout code none_left = none_left
Mirrors-replace_oracle (e ∷ es) [] name stdout code m = elim m [ ]
Mirrors-replace_oracle (e ∷ es) (t ∷ ts) name stdout code (mirrors r m) =
    mirrors r (Mirrors-replace_oracle es ts name stdout code m)

-- A correction of an example before the index changes nothing from there on.
effective_examples-before :
    (k i : ℕ) (es : List ToolExample) (c : ApprovedExampleCorrection)
    (m : List (ℕ × ApprovedExampleCorrection))
    → k < i
    → effective_examples i es (insert_index k c m) ≡ effective_examples i es m
unfolding effective_examples
effective_examples-before k i [] c m h = refl
effective_examples-before k i (e ∷ es) c m h =
    rw (get_index-insert_index i k c m, effective_examples-before k (suc i) es c m (omega arith))
      (ground arith)

-- A correction at the first index is the example's, one after it is not.
effective_examples-at :
    (i : ℕ) (e : ToolExample) (es : List ToolExample) (c : ApprovedExampleCorrection)
    (m : List (ℕ × ApprovedExampleCorrection))
    → effective_examples i (e ∷ es) (insert_index i c m)
      ≡ c.corrected ∷ effective_examples (suc i) es m
unfolding effective_examples
effective_examples-at i e es c m =
    rw (get_index-insert_index i i c m, effective_examples-before i (suc i) es c m (omega arith))
      (ground arith)

effective_examples-after :
    (k i : ℕ) (e : ToolExample) (es : List ToolExample) (c : ApprovedExampleCorrection)
    (m : List (ℕ × ApprovedExampleCorrection))
    → i < k
    → effective_examples i (e ∷ es) (insert_index k c m)
      ≡ corrected_or e (get_index i m) ∷ effective_examples (suc i) es (insert_index k c m)
unfolding effective_examples
effective_examples-after k i e es c m h = rw (get_index-insert_index i k c m) (ground arith)

-- The correction of the example at an index, in the examples and in the tests that run them.
Mirrors-correct_test :
    (n i k : ℕ) (es : List ToolExample) (ts : List ToolTestCase) (c : ApprovedExampleCorrection)
    (m : List (ℕ × ApprovedExampleCorrection))
    → k ≡ i + n
    → Mirrors (effective_examples i es m) ts
    → Mirrors (effective_examples i es (insert_index k c m)) (correct_test n c.corrected ts)
unfolding effective_examples correct_test
Mirrors-correct_test n i k [] ts c m q h = none_left
Mirrors-correct_test n i k (e ∷ es) [] c m q h = elim h [ ]
Mirrors-correct_test zero i k (e ∷ es) (t ∷ ts) c m q (mirrors r h) =
    subst (λ l. Mirrors l (correct_test 0 c.corrected (t ∷ ts)))
      (sym (
        ap (λ j. effective_examples i (e ∷ es) (insert_index j c m)) (omega arith)
        ∙ effective_examples-at i e es c m))
      (mirrors (record { input = refl; output = refl; no_args = r.no_args; success = r.success }) h)
Mirrors-correct_test (suc n) i k (e ∷ es) (t ∷ ts) c m q (mirrors r h) =
    subst (λ l. Mirrors l (correct_test (suc n) c.corrected (t ∷ ts)))
      (sym (effective_examples-after k i e es c m (omega arith)))
      (mirrors r (Mirrors-correct_test n (suc i) k es ts c m (omega arith) h))
