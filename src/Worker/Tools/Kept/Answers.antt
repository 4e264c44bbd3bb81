-- ===== src/Worker/Tools/Kept/Answers.antt =====
-- The tools that ask the user or use the web keep an invariant that fills the interface.
use jitforge.Base.{
  is_some, String, Bool, true, false, ◌&&◌, Option, none, some, List, ◌≡◌, ltb, length, done,
}
use jitforge.Protocol.{
  Value, JobInputKind, JobInputChoice, JobInputAnswer, approve, reject, HttpCapability,
}
use jitforge.Storage.Claim.{ClaimedSynthesisJob}
use jitforge.Worker.Types.{AgentWorkspace, ResolvedDecision, ApprovedExampleCorrection}
use jitforge.Worker.Outside.{Outside, RequestClarificationArgs, RequestExampleCorrectionArgs}
use jitforge.Worker.Rules.{validate_example_correction}
use jitforge.Worker.Calls.{ToolCall}
use jitforge.Worker.Tools.Asking.{
  suspend_for, previous_answer, clarified, clarify, request_clarification, rejected_reply,
  after_correction, corrected, propose_correction, request_example_correction,
}
use jitforge.Worker.Tools.Web.{search_web, fetch_document}
use jitforge.Worker.Tools.Http.{
  grant, capability_answered, unless_approved, request_new, request_http_capability,
  release_http_capability, probe_http, max_http_capabilities,
}
use jitforge.Worker.Act.Leaves.{
  Quiet, Leaves, Quiet-bind, Leaves-bind, Quiet-pure, Quiet-raise, Quiet-ask, Quiet-lift,
  Quiet-registry, Leaves-of_Quiet, Leaves-workspace, Leaves-modify, Leaves-ensure, Leaves-require,
  Leaves-lift, Leaves-if,
}
use jitforge.Worker.Tools.Kept.{Kept}
use jitforge.Worker.Tools.Kept.Shared.{
  Quiet-parse_args, Quiet-check_reason, Quiet-call, evaluate_after_mutation-Leaves,
}

Quiet-suspend_for :
    (out : Outside) (job : ClaimedSynthesisJob) (t : ToolCall) (kind : JobInputKind)
    (prompt : String) (choices : List JobInputChoice) (context : Value)
    → Quiet (suspend_for out job t kind prompt choices context)
unfolding suspend_for
Quiet-suspend_for out job t kind prompt choices context =
    Quiet-bind (Quiet-ask _) (λ id. Quiet-bind (Quiet-registry out _) (λ n. Quiet-raise _))

Quiet-previous_answer :
    (out : Outside) (job : ClaimedSynthesisJob) (t : ToolCall) → Quiet (previous_answer out job t)
unfolding previous_answer
Quiet-previous_answer out job t = Quiet-registry out _

Quiet-rejected_reply : (s : String) (o : Option String) → Quiet (rejected_reply s o)
unfolding rejected_reply
Quiet-rejected_reply s o = Quiet-pure _

module _ {out : Outside} {job : ClaimedSynthesisJob} {R : AgentWorkspace → Type 0}
    (kept : Kept out job R) where
  clarified-Leaves :
      (t : ToolCall) (args : RequestClarificationArgs) (a : Option JobInputAnswer)
      (ws : AgentWorkspace)
      → R ws
      → Leaves R ws (clarified out job t args a)
  unfolding clarified
  clarified-Leaves t args (some (JobInputAnswer.text s)) ws h =
      Leaves-modify _ _ (Leaves-of_Quiet (kept.decision _ ws h) (Quiet-pure _))
  clarified-Leaves t args (some approve) ws h = Leaves-of_Quiet h (Quiet-raise _)
  clarified-Leaves t args (some (reject o)) ws h = Leaves-of_Quiet h (Quiet-raise _)
  clarified-Leaves t args none ws h = Leaves-of_Quiet h (Quiet-suspend_for out job t _ _ _ _)

  clarify-Leaves :
      (t : ToolCall) (args : RequestClarificationArgs) (known : Option ResolvedDecision)
      (ws : AgentWorkspace)
      → R ws
      → Leaves R ws (clarify out job t args known)
  unfolding clarify
  clarify-Leaves t args (some d) ws h = Leaves-of_Quiet h (Quiet-pure _)
  clarify-Leaves t args none ws h =
      Leaves-bind h (Quiet-previous_answer out job t) (λ a. clarified-Leaves t args a ws h)

  pub request_clarification-Leaves :
      (t : ToolCall) (ws : AgentWorkspace) → R ws → Leaves R ws (request_clarification out job t)
  unfolding request_clarification
  request_clarification-Leaves t ws h = Leaves-bind h (Quiet-parse_args _) (λ args.
      Leaves-bind h (Quiet-check_reason _) (λ u.
        Leaves-bind h (Quiet-lift _ _) (λ u. Leaves-workspace _ (clarify-Leaves t args _ ws h))))

  after_correction-Leaves :
      (c : ApprovedExampleCorrection) (ws : AgentWorkspace)
      → R ws
      → Leaves R ws (after_correction out job c ws)
  unfolding after_correction
  after_correction-Leaves c ws h =
      Leaves-if (is_some ws.source && is_some ws.draft) (evaluate_after_mutation-Leaves kept ws h)
        (Leaves-of_Quiet h (Quiet-pure _))

  corrected-Leaves :
      (t : ToolCall) (args : RequestExampleCorrectionArgs) (c : ApprovedExampleCorrection)
      (a : Option JobInputAnswer) (ws : AgentWorkspace)
      → validate_example_correction out.texts job args ≡ done c
      → R ws
      → Leaves R ws (corrected out job t c ws a)
  unfolding corrected
  corrected-Leaves t args c (some approve) ws e h = Leaves-lift _ _ _ h (λ changed q.
      Leaves-modify _ _
        (after_correction-Leaves c changed (kept.correction args c ws changed e q h)))
  corrected-Leaves t args c (some (reject o)) ws e h = Leaves-of_Quiet h (Quiet-rejected_reply _ o)
  corrected-Leaves t args c (some (JobInputAnswer.text s)) ws e h =
      Leaves-of_Quiet h (Quiet-raise _)
  corrected-Leaves t args c none ws e h = Leaves-of_Quiet h (Quiet-suspend_for out job t _ _ _ _)

  propose_correction-Leaves :
      (t : ToolCall) (args : RequestExampleCorrectionArgs) (c : ApprovedExampleCorrection)
      (known : Option ApprovedExampleCorrection) (ws : AgentWorkspace)
      → validate_example_correction out.texts job args ≡ done c
      → R ws
      → Leaves R ws (propose_correction out job t c ws known)
  unfolding propose_correction
  propose_correction-Leaves t args c (some d) ws e h =
      Leaves-ensure _ _ _ h (λ q. Leaves-of_Quiet h (Quiet-pure _))
  propose_correction-Leaves t args c none ws e h =
      Leaves-bind h (Quiet-previous_answer out job t) (λ a. corrected-Leaves t args c a ws e h)

  pub request_example_correction-Leaves :
      (t : ToolCall) (ws : AgentWorkspace)
      → R ws
      → Leaves R ws (request_example_correction out job t)
  unfolding request_example_correction
  request_example_correction-Leaves t ws h = Leaves-bind h (Quiet-parse_args _) (λ args.
      Leaves-bind h (Quiet-check_reason _) (λ u.
        Leaves-lift _ _ _ h
          (λ c e. Leaves-workspace _ (propose_correction-Leaves t args c _ ws e h))))

  pub search_web-Leaves :
      (arguments : Value) (ws : AgentWorkspace) → R ws → Leaves R ws (search_web out arguments)
  unfolding search_web
  search_web-Leaves arguments ws h = Leaves-bind h (Quiet-parse_args _) (λ args.
      Leaves-bind h (Quiet-check_reason _) (λ u. Leaves-workspace _ (
        Leaves-ensure _ _ _ h (λ left. Leaves-modify _ _ (
          Leaves-of_Quiet (kept.searching ws left h)
            (Quiet-bind (Quiet-call _ _) (λ v. Quiet-pure _)))))))

  pub fetch_document-Leaves :
      (arguments : Value) (ws : AgentWorkspace) → R ws → Leaves R ws (fetch_document out arguments)
  unfolding fetch_document
  fetch_document-Leaves arguments ws h = Leaves-bind h (Quiet-parse_args _) (λ args.
      Leaves-bind h (Quiet-check_reason _) (λ u. Leaves-workspace _ (
        Leaves-ensure _ _ _ h (λ left. Leaves-modify _ _ (
          Leaves-of_Quiet (kept.fetching ws left h)
            (Quiet-bind (Quiet-call _ _) (λ v. Quiet-pure _)))))))

  grant-Leaves :
      (hash : String) (c : HttpCapability) (b : Bool) (ws : AgentWorkspace)
      → ltb (length ws.http_capabilities) max_http_capabilities ≡ true
      → R ws
      → Leaves R ws (grant hash c b)
  unfolding grant
  grant-Leaves hash c b ws left h =
      Leaves-modify _ _ (Leaves-of_Quiet (kept.capability hash c ws left h) (Quiet-pure _))

  capability_answered-Leaves :
      (t : ToolCall) (hash : String) (c : HttpCapability) (a : Option JobInputAnswer)
      (ws : AgentWorkspace)
      → ltb (length ws.http_capabilities) max_http_capabilities ≡ true
      → R ws
      → Leaves R ws (capability_answered out job t hash c a)
  unfolding capability_answered
  capability_answered-Leaves t hash c (some approve) ws left h =
      Leaves-bind h (Quiet-registry out _) (λ u. grant-Leaves hash c false ws left h)
  capability_answered-Leaves t hash c (some (reject o)) ws left h =
      Leaves-of_Quiet h (Quiet-rejected_reply _ o)
  capability_answered-Leaves t hash c (some (JobInputAnswer.text s)) ws left h =
      Leaves-of_Quiet h (Quiet-raise _)
  capability_answered-Leaves t hash c none ws left h =
      Leaves-of_Quiet h (Quiet-suspend_for out job t _ _ _ _)

  unless_approved-Leaves :
      (t : ToolCall) (hash : String) (c : HttpCapability) (b : Bool) (ws : AgentWorkspace)
      → ltb (length ws.http_capabilities) max_http_capabilities ≡ true
      → R ws
      → Leaves R ws (unless_approved out job t hash c b)
  unfolding unless_approved
  unless_approved-Leaves t hash c true ws left h = grant-Leaves hash c true ws left h
  unless_approved-Leaves t hash c false ws left h =
      Leaves-bind h (Quiet-previous_answer out job t)
        (λ a. capability_answered-Leaves t hash c a ws left h)

  request_new-Leaves :
      (t : ToolCall) (hash : String) (c : HttpCapability) (b : Bool) (ws : AgentWorkspace)
      → R ws
      → Leaves R ws (request_new out job t ws hash c b)
  unfolding request_new
  request_new-Leaves t hash c true ws h = Leaves-of_Quiet h (Quiet-pure _)
  request_new-Leaves t hash c false ws h = Leaves-ensure _ _ _ h (λ left.
      Leaves-bind h (Quiet-registry out _) (λ b. unless_approved-Leaves t hash c b ws left h))

  pub request_http_capability-Leaves :
      (t : ToolCall) (ws : AgentWorkspace) → R ws → Leaves R ws (request_http_capability out job t)
  unfolding request_http_capability
  request_http_capability-Leaves t ws h = Leaves-bind h (Quiet-parse_args _) (λ args.
      Leaves-bind h (Quiet-check_reason _) (λ u.
        Leaves-bind h (Quiet-lift _ _) (λ c. Leaves-workspace _ (request_new-Leaves t _ c _ ws h))))

  pub release_http_capability-Leaves :
      (arguments : Value) (ws : AgentWorkspace)
      → R ws
      → Leaves R ws (release_http_capability out arguments)
  unfolding release_http_capability
  release_http_capability-Leaves arguments ws h = Leaves-bind h (Quiet-parse_args _) (λ args.
      Leaves-bind h (Quiet-check_reason _) (λ u. Leaves-workspace _ (
        Leaves-require _ _ _ h
          (λ a e. Leaves-modify _ _ (Leaves-of_Quiet (kept.release a.hash ws h) (Quiet-pure _))))))

  pub probe_http-Leaves :
      (arguments : Value) (ws : AgentWorkspace) → R ws → Leaves R ws (probe_http out arguments)
  unfolding probe_http
  probe_http-Leaves arguments ws h = Leaves-bind h (Quiet-parse_args _) (λ args.
      Leaves-bind h (Quiet-check_reason _) (λ u. Leaves-workspace _ (
        Leaves-ensure _ _ _ h (λ left. Leaves-lift _ _ _ h (λ a e. Leaves-modify _ _ (
          Leaves-bind (kept.probing_http ws left h) (Quiet-call _ _) (λ r. Leaves-modify _ _ (
            Leaves-of_Quiet (kept.probed_http _ _ (kept.probing_http ws left h))
              (Quiet-pure _)))))))))
