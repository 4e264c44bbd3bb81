-- ===== src/Worker/Agent/Refused.antt =====
-- Calls of tools that apps/jit-worker/src/jobs.rs does not offer in the turn.
use jitforge.Base.{
  String, Bool, true, false, not, ◌&&◌, some, List, [], ◌∷◌, length, find?, ltb, ◌≡◌, refl, sym,
  subst, ◌∙◌, inl, inr, arith, is_some, In, done, bind-done, map_err, check, ok_or-done,
}
use jitforge.Protocol.{Value, HttpCapability}
use jitforge.Storage.Claim.{ClaimedSynthesisJob}
use jitforge.Worker.Types.{AgentWorkspace, ApprovedHttpCapability}
use jitforge.Worker.Outside.{Outside, Texts}
use jitforge.Worker.Act.{World}
use jitforge.Worker.Act.Leaves.{
  Leaves, Leaves-bind, Quiet-lift, Quiet-pure, Leaves-of_Quiet, Leaves-workspace, Leaves-ensure,
  Leaves-require, Leaves-lift,
}
use jitforge.Worker.Rules.Urls.{member, is_plain_https, approved_capability_for_url}
use jitforge.Worker.Calls.{ToolCall}
use jitforge.Worker.Tools.Source.{write_source}
use jitforge.Worker.Tools.Web.{search_web, fetch_document, max_web_searches, max_document_fetches}
use jitforge.Worker.Tools.Http.{
  request_new, request_http_capability, release_http_capability, probe_http, max_http_capabilities,
  max_http_probes,
}
use jitforge.Worker.Tools.Execute.{lookup_tool, tools, execute_tool_inner, execute_tool}
use jitforge.Worker.Tools.Kept.Shared.{Quiet-parse_args, Quiet-check_reason}
use jitforge.Worker.Agent.{available_tools}
use jitforge.Worker.Agent.Offers.{
  offers-write_source, offers-search_web, offers-fetch_document, offers-request_http_capability,
  offers-release_http_capability, offers-probe_http,
}

-- The workspace is what it was.
abbrev Same : AgentWorkspace → AgentWorkspace → Type 0
Same ws v = v ≡ ws

module _ (out : Outside) (job : ClaimedSynthesisJob) (ws : AgentWorkspace) where
  search_web-refused :
      (v : Value)
      → ltb ws.metrics.web_searches max_web_searches ≡ false
      → Leaves (Same ws) ws (search_web out v)
  unfolding search_web
  search_web-refused v spent = Leaves-bind refl (Quiet-parse_args _) (λ args.
      Leaves-bind refl (Quiet-check_reason _)
        (λ u. Leaves-workspace _ (Leaves-ensure _ _ _ refl (λ left. absurd cc))))

  fetch_document-refused :
      (v : Value)
      → ltb ws.metrics.documents_fetched max_document_fetches ≡ false
      → Leaves (Same ws) ws (fetch_document out v)
  unfolding fetch_document
  fetch_document-refused v spent = Leaves-bind refl (Quiet-parse_args _) (λ args.
      Leaves-bind refl (Quiet-check_reason _)
        (λ u. Leaves-workspace _ (Leaves-ensure _ _ _ refl (λ left. absurd cc))))

  write_source-refused :
      (v : Value)
      → (is_some ws.draft && not (is_some ws.source)) ≡ false
      → Leaves (Same ws) ws (write_source out job v)
  unfolding write_source
  write_source-refused v late = Leaves-bind refl (Quiet-parse_args _) (λ args.
      Leaves-bind refl (Quiet-check_reason _) (λ u. Leaves-bind refl (Quiet-lift _ _) (λ u'.
        Leaves-workspace _ (
          Leaves-ensure _ _ _ refl
            (λ drafted. Leaves-ensure _ _ _ refl (λ empty. absurd (ground arith)))))))

  request_new-refused :
      (t : ToolCall) (hash : String) (c : HttpCapability) (b : Bool)
      → ltb (length ws.http_capabilities) max_http_capabilities ≡ false
      → Leaves (Same ws) ws (request_new out job t ws hash c b)
  unfolding request_new
  request_new-refused t hash c true full = Leaves-of_Quiet refl (Quiet-pure _)
  request_new-refused t hash c false full = Leaves-ensure _ _ _ refl (λ left. absurd cc)

  request_http_capability-refused :
      (t : ToolCall)
      → ltb (length ws.http_capabilities) max_http_capabilities ≡ false
      → Leaves (Same ws) ws (request_http_capability out job t)
  unfolding request_http_capability
  request_http_capability-refused t full = Leaves-bind refl (Quiet-parse_args _) (λ args.
      Leaves-bind refl (Quiet-check_reason _) (λ u.
        Leaves-bind refl (Quiet-lift _ _)
          (λ c. Leaves-workspace _ (request_new-refused t _ c _ full))))

  find?-none :
      (p : ApprovedHttpCapability → Bool) (as' : List ApprovedHttpCapability)
      (a : ApprovedHttpCapability)
      → ltb 0 (length as') ≡ false
      → find? p as' ≡ some a
      → ⊥
  unfolding find?
  find?-none p [] a h e = cc
  find?-none p (b ∷ bs) a h e = ground arith

  release_http_capability-refused :
      (v : Value)
      → ltb 0 (length ws.http_capabilities) ≡ false
      → Leaves (Same ws) ws (release_http_capability out v)
  unfolding release_http_capability
  release_http_capability-refused v none_held = Leaves-bind refl (Quiet-parse_args _) (λ args.
      Leaves-bind refl (Quiet-check_reason _) (λ u. Leaves-workspace _ (
        Leaves-require _ _ _ refl
          (λ a e. absurd (find?-none _ ws.http_capabilities a none_held e)))))

  uncovered :
      (texts : Texts) (as' : List ApprovedHttpCapability) (raw_url : String)
      (a : ApprovedHttpCapability)
      → ltb 0 (length as') ≡ false
      → approved_capability_for_url texts as' raw_url ≡ done a
      → ⊥
  unfolding approved_capability_for_url
  uncovered texts as' raw_url a h e =
      let (url, _, e1) = bind-done (map_err _ (texts.parse_url raw_url)) _ a e in
      let (u, _, e2) = bind-done (check (is_plain_https url) _) _ a e1 in
      find?-none _ as' a h (ok_or-done (find? _ as') _ a e2)

  probe_http-refused :
      (v : Value)
      → (ltb 0 (length ws.http_capabilities) && ltb ws.metrics.http_probes max_http_probes) ≡ false
      → Leaves (Same ws) ws (probe_http out v)
  unfolding probe_http
  probe_http-refused v h = Leaves-bind refl (Quiet-parse_args _) (λ args.
      Leaves-bind refl (Quiet-check_reason _) (λ u. Leaves-workspace _ (
        Leaves-ensure _ _ _ refl (λ left.
          Leaves-lift _ _ _ refl (λ a e.
            absurd (uncovered out.texts ws.http_capabilities args.url a (ground arith) e))))))

-- The tools that test for themselves what decides whether they are offered.
abbrev pub guarded : List String
guarded =
    "write_source" ∷ "search_web" ∷ "fetch_document" ∷ "request_http_capability"
    ∷ "release_http_capability" ∷ "probe_http" ∷ []

-- A call of `write_source` or of a tool for the web that `available_tools` does not offer for the workspace
-- leaves the workspace as it is, however the call ends.
pub execute_tool-unoffered :
    (out : Outside) (job : ClaimedSynthesisJob) (t : ToolCall) (w : World)
    → In t.name guarded
    → member t.name (available_tools w.workspace) ≡ false
    → (execute_tool out job t w).1.workspace ≡ w.workspace
unfolding execute_tool execute_tool_inner tools lookup_tool
execute_tool-unoffered out job t w i h = go i h
  where
    ws : AgentWorkspace
    ws = w.workspace

    Holds : String → Type 0
    Holds name =
        member name (available_tools ws) ≡ false
        → (execute_tool out job (record t { name = name }) w).1.workspace ≡ ws

    go : In t.name guarded → Holds t.name
    go (inl e) = subst Holds e (λ k.
        (write_source-refused out job ws t.arguments (sym (offers-write_source ws) ∙ k)).leaves w
          refl)
    go (inr (inl e)) = subst Holds e (λ k.
        (search_web-refused out job ws t.arguments (sym (offers-search_web ws) ∙ k)).leaves w refl)
    go (inr (inr (inl e))) = subst Holds e (λ k.
        (fetch_document-refused out job ws t.arguments (sym (offers-fetch_document ws) ∙ k)).leaves
          w refl)
    go (inr (inr (inr (inl e)))) = subst Holds e (λ k.
        (request_http_capability-refused out job ws (record t { name = "request_http_capability" })
            (sym (offers-request_http_capability ws) ∙ k)).leaves
          w refl)
    go (inr (inr (inr (inr (inl e))))) = subst Holds e (λ k.
        (release_http_capability-refused out job ws t.arguments
            (sym (offers-release_http_capability ws) ∙ k)).leaves
          w refl)
    go (inr (inr (inr (inr (inr (inl e)))))) = subst Holds e (λ k.
        (probe_http-refused out job ws t.arguments (sym (offers-probe_http ws) ∙ k)).leaves w refl)
    go (inr (inr (inr (inr (inr (inr i)))))) = absurd i
