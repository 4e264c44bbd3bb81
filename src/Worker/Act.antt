-- ===== src/Worker/Act.antt =====
-- What the worker does for a job, as actions on a state: the tables of the registry and the agent's
-- workspace. An action ends with a value or an error, and what it changed before an error stays.
-- `Outside` holds everything that is not the worker's own: the time and the UUIDs of each call, what
-- others do to the tables before it, and the answers of the model, the runner, the store and the web.
pub mod Leaves
use jitforge.Base.{ℕ, suc, String, Bool, Option, none, some, Attempt, done, failed, if◌then◌else◌}
use jitforge.Storage.Schema.{Db, StorageError}
use jitforge.Storage.Tx.{Tx, Result, ok, err}
use jitforge.Worker.Types.{AgentWorkspace, JobError, storage_error}
use jitforge.Worker.Outside.{Outside}

-- `calls` counts the calls that leave the worker.
pub record World : Type 0 where
  pub db : Db
  pub workspace : AgentWorkspace
  pub calls : ℕ

abbrev pub Act : Type 0 → Type 0
Act A = World → Attempt JobError A × World

infixl 5 ◌>>=◌ ◌>>◌
unfoldable pub and_then :
    {A B : Type 0} → Attempt JobError A × World → (A → Act B) → Attempt JobError B × World
and_then (done a, w) f = f a w
and_then (failed e, w) f = (failed e, w)

unfoldable pub ◌>>=◌ : {A B : Type 0} → Act A → (A → Act B) → Act B
unfolding and_then
◌>>=◌ m f w = and_then (m w) f

abbrev pub ◌>>◌ : {B : Type 0} → Act (Unit {0}) → Act B → Act B
m >> k = m >>= λ _. k

unfoldable pub pure : {A : Type 0} → A → Act A
pure a w = (done a, w)

unfoldable pub raise : {A : Type 0} → JobError → Act A
raise e w = (failed e, w)

-- `if !test { return Err(e); }`
unfoldable pub ensure : Bool → JobError → Act Unit
ensure b e w = if b then (done tt, w) else (failed e, w)

-- `value.ok_or(e)?`
unfoldable pub require : {A : Type 0} → Option A → JobError → Act A
require none e w = (failed e, w)
require (some a) e w = (done a, w)

-- `value.map_err(f)?`
unfoldable pub lift : {E A : Type 0} → (E → JobError) → Attempt E A → Act A
lift f (done a) w = (done a, w)
lift f (failed e) w = (failed (f e), w)

unfoldable pub workspace : Act AgentWorkspace
workspace w = (done w.workspace, w)

unfoldable pub modify : (AgentWorkspace → AgentWorkspace) → Act Unit
modify f w = (done tt, record w { workspace = f w.workspace })

-- An answer from outside, which may differ from call to call.
unfoldable pub ask : {A : Type 0} → (ℕ → A) → Act A
ask f w = (done (f w.calls), record w { calls = suc w.calls })

-- What a transaction makes of the tables.
unfoldable pub settle : {A : Type 0} → World → Db → Result (A × Db) → Attempt JobError A × World
settle w db (ok (a, db')) = (done a, record w { db = db'; calls = suc w.calls })
settle w db (err e) = (failed (storage_error e), record w { db = db; calls = suc w.calls })

-- A call of the registry, at a time. Before it, others have changed the tables.
unfoldable pub registry : {A : Type 0} → Outside → (ℕ → Tx A) → Act A
unfolding settle
registry out m w =
    settle w (out.others w.calls w.db) (m (out.now w.calls) (out.others w.calls w.db))
