-- ===== src/Worker/Tools/Budgets.antt =====
-- The budgets of apps/jit-worker/src/jobs.rs: how often the agent may do what costs or reaches outside.
use jitforge.Base.{ℕ, length, ◌≤◌}
use jitforge.Worker.Types.{AgentWorkspace, AgentMetrics}
use jitforge.Worker.Outside.{Outside}
use jitforge.Worker.Tools.Source.{max_source_revisions, max_probes}
use jitforge.Worker.Tools.Review.{max_generated_test_corrections}
use jitforge.Worker.Tools.Web.{max_web_searches, max_document_fetches}
use jitforge.Worker.Tools.Http.{max_http_capabilities, max_http_probes}
use jitforge.Worker.Tools.Kept.{Kept}

pub record Budgeted (m : AgentMetrics) (capabilities_held : ℕ) : Type 0 where
  pub revisions : m.source_revisions ≤ max_source_revisions
  pub corrections : m.generated_test_corrections ≤ max_generated_test_corrections
  pub probes : m.probes_run ≤ max_probes
  pub searches : m.web_searches ≤ max_web_searches
  pub documents : m.documents_fetched ≤ max_document_fetches
  pub live_probes : m.http_probes ≤ max_http_probes
  pub capabilities : capabilities_held ≤ max_http_capabilities

abbrev pub WithinBudgets : AgentWorkspace → Type 0
WithinBudgets ws = Budgeted ws.metrics (length ws.http_capabilities)
