-- ===== src/Worker/Agent/Offers.antt =====
-- The tools that a turn of apps/jit-worker/src/jobs.rs is offered, by the state of the workspace.
use jitforge.Base.{
  String, Bool, true, false, not, ◌&&◌, ◌||◌, List, [], ◌∷◌, ◌++◌, length, ltb, ◌≡◌, refl, ap, sym,
  ◌∙◌, str_eq, is_some,
}
use jitforge.Worker.Types.{AgentWorkspace}
use jitforge.Worker.Rules.Urls.{member}
use jitforge.Worker.Agent.{offer, available_tools}
use jitforge.Worker.Tools.Web.{max_web_searches, max_document_fetches}
use jitforge.Worker.Tools.Http.{max_http_capabilities, max_http_probes}

or_false : (b : Bool) → (b || false) ≡ b
or_false true = refl
or_false false = refl

and_false : (b : Bool) → (b && false) ≡ false
and_false true = refl
and_false false = refl

and_true : (b : Bool) → (b && true) ≡ b
and_true true = refl
and_true false = refl

or_assoc : (a b c : Bool) → ((a || b) || c) ≡ (a || (b || c))
or_assoc true b c = refl
or_assoc false b c = refl

member-append :
    (s : String) (xs ys : List String) → member s (xs ++ ys) ≡ (member s xs || member s ys)
unfolding member
member-append s [] ys = refl
member-append s (x ∷ xs) ys =
    ap (λ b. str_eq s x || b) (member-append s xs ys)
    ∙ sym (or_assoc (str_eq s x) (member s xs) (member s ys))

member-offer :
    (s : String) (b : Bool) (name : String) → member s (offer b name) ≡ (b && str_eq s name)
unfolding member
member-offer s true name = or_false (str_eq s name)
member-offer s false name = refl

ruleset membership = (member-append, member-offer, or_false, and_false, and_true)

-- Whether a turn is offered a tool, for the tools whose calls have a test of their own.
module _ (ws : AgentWorkspace) where
  pub offers-write_source :
      member "write_source" (available_tools ws) ≡ (is_some ws.draft && not (is_some ws.source))
  unfolding available_tools member
  offers-write_source = simp membership

  pub offers-search_web :
      member "search_web" (available_tools ws) ≡ ltb ws.metrics.web_searches max_web_searches
  unfolding available_tools member
  offers-search_web = simp membership

  pub offers-fetch_document :
      member "fetch_document" (available_tools ws)
      ≡ ltb ws.metrics.documents_fetched max_document_fetches
  unfolding available_tools member
  offers-fetch_document = simp membership

  pub offers-request_http_capability :
      member "request_http_capability" (available_tools ws)
      ≡ ltb (length ws.http_capabilities) max_http_capabilities
  unfolding available_tools member
  offers-request_http_capability = simp membership

  pub offers-release_http_capability :
      member "release_http_capability" (available_tools ws) ≡ ltb 0 (length ws.http_capabilities)
  unfolding available_tools member
  offers-release_http_capability = simp membership

  pub offers-probe_http :
      member "probe_http" (available_tools ws)
      ≡ (ltb 0 (length ws.http_capabilities) && ltb ws.metrics.http_probes max_http_probes)
  unfolding available_tools member
  offers-probe_http = simp membership
