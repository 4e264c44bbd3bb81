-- ===== src/Worker/Tools/Counted.antt =====
-- The tools of apps/jit-worker/src/jobs.rs that reach the web, with what they count.
use jitforge.Base.{ℕ, suc, ◌+◌, String, Bool, true, false, ◌≡◌, refl, arith, Attempt, done, failed}
use jitforge.Protocol.{Value}
use jitforge.Storage.Claim.{ClaimedSynthesisJob}
use jitforge.Worker.Types.{AgentWorkspace, AgentMetrics, JobError}
use jitforge.Worker.Outside.{Outside}
use jitforge.Worker.Act.{World, Act, and_then, ◌>>=◌, pure, ensure, lift, workspace, modify, ask}
use jitforge.Worker.Calls.{ToolCall, parse_args, check_reason, call}
use jitforge.Worker.Tools.Web.{count_search, count_document, search_web, fetch_document}
use jitforge.Worker.Tools.Http.{count_http_probe, keep_http_probe, probe_http}
use jitforge.Worker.Tools.Execute.{lookup_tool, tools, execute_tool_inner, execute_tool}

-- Every call that leaves the worker raises the count `c` by one, and nothing else does.
record Spends (c : AgentWorkspace → ℕ) {A : Type 0} (m : Act A) : Type 0 where
  spends : (w : World) → (m w).1.calls + c w.workspace ≡ c (m w).1.workspace + w.calls

module _ {c : AgentWorkspace → ℕ} where
  Spends-bind :
      {A B : Type 0} {m : Act A} {f : A → Act B}
      → Spends c m
      → ((a : A) → Spends c (f a))
      → Spends c (m >>= f)
  unfolding ◌>>=◌ and_then
  Spends-bind {A} {B} {m} {f} p q = record { spends = λ w. go w (m w) (p.spends w) }
    where
      go :
          (w : World) (r : Attempt JobError A × World)
          → r.1.calls + c w.workspace ≡ c r.1.workspace + w.calls
          → (and_then r f).1.calls + c w.workspace ≡ c (and_then r f).1.workspace + w.calls
      go w (done a, v) e = let e' = (q a).spends v in omega arith
      go w (failed x, v) e = e

  Spends-pure : {A : Type 0} (a : A) → Spends c (pure a)
  unfolding pure
  Spends-pure a = record { spends = λ w. omega arith }

  Spends-lift : {E A : Type 0} (f : E → JobError) (r : Attempt E A) → Spends c (lift f r)
  unfolding lift
  Spends-lift f (done a) = record { spends = λ w. omega arith }
  Spends-lift f (failed e) = record { spends = λ w. omega arith }

  Spends-ensure : (b : Bool) (e : JobError) → Spends c (ensure b e)
  unfolding ensure
  Spends-ensure true e = record { spends = λ w. omega arith }
  Spends-ensure false e = record { spends = λ w. omega arith }

  Spends-workspace : Spends c workspace
  unfolding workspace
  Spends-workspace = record { spends = λ w. omega arith }

  Spends-parse_args : {A : Type 0} (r : Attempt String A) → Spends c (parse_args r)
  unfolding parse_args
  Spends-parse_args r = Spends-lift _ r

  Spends-check_reason : (s : String) → Spends c (check_reason s)
  unfolding check_reason
  Spends-check_reason s = Spends-lift _ _

  Spends-modify :
      (g : AgentWorkspace → AgentWorkspace)
      → ((ws : AgentWorkspace) → c (g ws) ≡ c ws)
      → Spends c (modify g)
  unfolding modify
  Spends-modify g same = record { spends = λ w. omega (arith, same w.workspace) }

  -- A step that counts, with the call that it counts.
  Spends-counted :
      {E A B : Type 0} (g : AgentWorkspace → AgentWorkspace) (f : E → JobError)
      (answer : ℕ → Attempt E A) (k : A → Act B)
      → ((ws : AgentWorkspace) → c (g ws) ≡ suc (c ws))
      → ((a : A) → Spends c (k a))
      → Spends c (modify g >>= λ _. call f answer >>= k)
  unfolding ◌>>=◌ and_then modify call ask
  Spends-counted {E} {A} {B} g f answer k more q = record { spends = λ w. go w (answer w.calls) }
    where
      after : World → World
      after w = record w { workspace = g w.workspace; calls = suc w.calls }

      go :
          (w : World) (r : Attempt E A)
          → (and_then (lift f r (after w)) k).1.calls + c w.workspace
            ≡ c (and_then (lift f r (after w)) k).1.workspace + w.calls
      go w r =
          let e = (Spends-bind (Spends-lift f r) q).spends (after w) in
          omega (arith, more w.workspace)

search_web-Spends :
    (out : Outside) (v : Value) → Spends (λ ws. ws.metrics.web_searches) (search_web out v)
unfolding search_web count_search
search_web-Spends out v = Spends-bind (Spends-parse_args _) (λ args.
    Spends-bind (Spends-check_reason _) (λ u. Spends-bind Spends-workspace (λ ws.
      Spends-bind (Spends-ensure _ _)
        (λ u'. Spends-counted count_search _ _ _ (λ x. refl) (λ r. Spends-pure _)))))

fetch_document-Spends :
    (out : Outside) (v : Value) → Spends (λ ws. ws.metrics.documents_fetched) (fetch_document out v)
unfolding fetch_document count_document
fetch_document-Spends out v = Spends-bind (Spends-parse_args _) (λ args.
    Spends-bind (Spends-check_reason _) (λ u. Spends-bind Spends-workspace (λ ws.
      Spends-bind (Spends-ensure _ _)
        (λ u'. Spends-counted count_document _ _ _ (λ x. refl) (λ r. Spends-pure _)))))

probe_http-Spends :
    (out : Outside) (v : Value) → Spends (λ ws. ws.metrics.http_probes) (probe_http out v)
unfolding probe_http count_http_probe keep_http_probe
probe_http-Spends out v = Spends-bind (Spends-parse_args _) (λ args.
    Spends-bind (Spends-check_reason _) (λ u. Spends-bind Spends-workspace (λ ws.
      Spends-bind (Spends-ensure _ _) (λ u'. Spends-bind (Spends-lift _ _) (λ a.
        Spends-counted count_http_probe _ _ _ (λ x. refl)
          (λ r.
            Spends-bind (Spends-modify (keep_http_probe _) (λ x. refl)) (λ u''. Spends-pure _)))))))

-- The calls that leave the worker are those by which the counter is raised.
abbrev pub Counts : (AgentMetrics → ℕ) → World → World → Type 0
Counts c w w' = w'.calls + c w.workspace.metrics ≡ c w'.workspace.metrics + w.calls

module _ (out : Outside) (job : ClaimedSynthesisJob) (t : ToolCall) (w : World) where
  pub search_web-Counts :
      Counts (λ m. m.web_searches) w (execute_tool out job (record t { name = "search_web" }) w).1
  unfolding execute_tool execute_tool_inner tools lookup_tool
  search_web-Counts = (search_web-Spends out t.arguments).spends w

  pub fetch_document-Counts :
      Counts
        (λ m. m.documents_fetched)
        w
        (execute_tool out job (record t { name = "fetch_document" }) w).1
  unfolding execute_tool execute_tool_inner tools lookup_tool
  fetch_document-Counts = (fetch_document-Spends out t.arguments).spends w

  pub probe_http-Counts :
      Counts (λ m. m.http_probes) w (execute_tool out job (record t { name = "probe_http" }) w).1
  unfolding execute_tool execute_tool_inner tools lookup_tool
  probe_http-Counts = (probe_http-Spends out t.arguments).spends w
