-- ===== src/Storage/Listing.antt =====
-- crates/jit-storage/src/lib.rs: `list_jobs`, page by page.
pub mod Pages
use Prim.Native.Nat.{compare, Ordering}
use jitforge.Base.{
  ℕ, ◌+◌, ◌-◌, ◌^◌, String, Bool, true, false, ◌&&◌, ◌||◌, Option, none, some, List, [], ◌∷◌, leb,
  ltb, ◌==◌, if◌then◌else◌, take, drop, length, select,
}
use mathlib.Core.List.{map}
use jitforge.Domain.{ToolName, ToolVersionStatus}
use jitforge.Protocol.{
  JobStatus, queued, running, awaiting_input, ready, rejected, JobResponse, IoFormat, JobError,
}
use jitforge.Storage.Schema.{Db, Job, Version, invariant, tool_not_found, i64_max}
use jitforge.Storage.Tx.{Tx, ◌>>=◌, ◌>>◌, pure, query, fetch, ensure}
use jitforge.Storage.Events.{Codec}
use jitforge.Storage.Responses.{joined_job, job_error}
use jitforge.Storage.Versions.{find_tool}

-- The largest `u64`.
abbrev pub u64_max : ℕ
u64_max = 2 ^ 64 - 1

-- `next_offset`, with its `checked_add`.
unfoldable pub next_offset : Bool → ℕ → ℕ → Option ℕ
next_offset has_more offset limit =
    if has_more
    then (if leb (offset + limit) u64_max then some (offset + limit) else none)
    else none

pub record Page (A : Type 0) : Type 0 where
  pub rows : List A
  pub next : Option ℕ

-- `LIMIT limit + 1 OFFSET offset`, then `truncate(limit)`.
unfoldable pub page : {A : Type 0} → ℕ → ℕ → List A → Page A
unfolding next_offset
page limit offset rows =
    let fetched = take (limit + 1) (drop offset rows) in
    record {
      rows = take limit fetched;
      next = next_offset (ltb limit (length fetched)) offset limit;
    }

-- `ORDER BY` by a test that the first row comes first.
unfoldable pub insert_by : {A : Type 0} → (A → A → Bool) → A → List A → List A
insert_by before a [] = a ∷ []
insert_by before a (b ∷ bs) =
    let rest = insert_by before a bs in if before a b then a ∷ b ∷ bs else b ∷ rest

unfoldable pub order_by : {A : Type 0} → (A → A → Bool) → List A → List A
unfolding insert_by
order_by before [] = []
order_by before (a ∷ as') = insert_by before a (order_by before as')

-- `created_at DESC, id DESC`
unfoldable pub newer : Job → Job → Bool
newer j k = ltb k.created_at j.created_at || j.created_at == k.created_at && leb k.id j.id

abbrev pub same_status : JobStatus → JobStatus → Bool
same_status queued queued = true
same_status running running = true
same_status awaiting_input awaiting_input = true
same_status ready ready = true
same_status rejected rejected = true
same_status _ _ = false

-- `$1::text IS NULL OR j.status = $1`
abbrev pub has_status : Option JobStatus → Job → Bool
has_status none j = true
has_status (some s) j = same_status j.status s

abbrev pub cons_some : {A : Type 0} → Option A → List A → List A
cons_some none xs = xs
cons_some (some x) xs = x ∷ xs

-- The rows of the join, which has none for a job without tool or version.
unfoldable pub joined_jobs : Codec → Db → List Job → List JobResponse
joined_jobs codec db [] = []
joined_jobs codec db (j ∷ js) = cons_some (joined_job codec (some j) db) (joined_jobs codec db js)

-- All rows of the listing, in its order.
unfoldable pub job_rows : Codec → Option JobStatus → Db → List JobResponse
unfolding joined_jobs order_by newer
job_rows codec status db =
    joined_jobs codec db (order_by newer (select (has_status status) db.jobs))

unfoldable pub list_jobs : Codec → Option JobStatus → ℕ → ℕ → Tx (Page JobResponse)
unfolding page
list_jobs codec status limit offset = do
  ensure (leb offset i64_max) (invariant "job list offset exceeds PostgreSQL BIGINT")
  rows ← query (job_rows codec status)
  pure (page limit offset rows)
