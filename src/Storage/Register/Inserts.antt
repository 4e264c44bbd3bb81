-- ===== src/Storage/Register/Inserts.antt =====
-- What the INSERTs of `register` leave behind.
use jitforge.Base.{
  ℕ, Bool, true, false, not, ◌||◌, List, [], ◌∷◌, ◌++◌, ◌≡◌, refl, arith, ◌==◌, if◌then◌else◌, any,
  DistinctBy, DistinctBy-append, All-of-not-any,
}
use jitforge.Domain.{ToolName}
use jitforge.Storage.Schema.{Db, Job, Tool, Version}
use jitforge.Storage.Tx.Ends.{Ends, query_then, ensure_then, execute-Ends}
use jitforge.Storage.Rows.{is_version}
use jitforge.Storage.Register.{has_key, insert_tool, insert_version, insert_job}

-- Tool ids are distinct.
abbrev pub ToolsDistinct : Db → Type 0
ToolsDistinct db = DistinctBy (λ (t : Tool). t.id) db.tools

tool_appended :
    (named : Bool) (ts : List Tool) (t : Tool)
    → (named || not (any (λ x. x.id == t.id) ts)) ≡ true
    → DistinctBy (λ (x : Tool). x.id) ts
    → DistinctBy (λ (x : Tool). x.id) (if named then ts else ts ++ t ∷ [])
tool_appended true ts t e d = d
tool_appended false ts t e d =
    DistinctBy-append (λ (x : Tool). x.id) ts t
      (All-of-not-any (λ (y : Tool). y.id ≡ t.id → ⊥) (λ x. x.id == t.id) ts (ground arith)
        (λ y h p. ground arith))
      d

pub insert_tool-distinct :
    (name : ToolName) (id now : ℕ) (db : Db)
    → ToolsDistinct db
    → Ends (λ a db'. ToolsDistinct db') (insert_tool name id now db)
unfolding insert_tool
insert_tool-distinct name id now db d = query_then _ _ db (
    query_then _ _ db
      (ensure_then _ _ _ db (λ e. execute-Ends _ db (tool_appended _ db.tools _ e d))))

-- What a row's INSERT leaves: the row behind the old ones, none of which had its key.
pub record Inserted {A : Type 0} (taken : A → Bool) (xs ys : List A) (x : A) : Type 0 where
  pub fresh : any taken xs ≡ false
  pub rows : ys ≡ xs ++ x ∷ []

pub insert_version-Inserted :
    (v : Version) (db : Db)
    → Ends
        (λ a db'.
          Inserted (is_version v.tool_id v.revision) db.versions db'.versions v
          × (db'.tools ≡ db.tools))
        (insert_version v db)
unfolding insert_version
insert_version-Inserted v db = query_then _ _ db (
    ensure_then _ _ _ db
      (λ e. execute-Ends _ db (record { fresh = ground arith; rows = refl }, refl)))

pub insert_job-Inserted :
    (j : Job) (db : Db)
    → Ends
        (λ a db'.
          Inserted (λ k. k.id == j.id || has_key j.idempotency_key k) db.jobs db'.jobs j
          × (db'.tools ≡ db.tools)
          × (db'.versions ≡ db.versions))
        (insert_job j db)
unfolding insert_job
insert_job-Inserted j db = query_then _ _ db (
    ensure_then _ _ _ db
      (λ e. execute-Ends _ db (record { fresh = ground arith; rows = refl }, refl, refl)))
