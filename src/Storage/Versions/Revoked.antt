-- ===== src/Storage/Versions/Revoked.antt =====
-- What `resolve_tool` answers after `revoke_tool_version`.
use jitforge.Base.{
  ℕ, String, Bool, true, false, Option, none, some, ◌≡◌, refl, ◌∙◌, subst, arith, ◌==◌, update,
  find?-update, if◌then◌else◌, find?-In,
}
use jitforge.Domain.{ToolName}
use jitforge.Protocol.{RevokeResponse}
use jitforge.Storage.Schema.{Db, Tool, Version, tool_not_ready}
use jitforge.Storage.Tx.{ok, err}
use jitforge.Storage.Tx.Ends.{
  Ends, ensure_then, fetch_then, execute_then, pure-Ends, query_then, bind-Ends, ends_ok,
}
use jitforge.Storage.Tx.Runs.{ensure-true, fetch-some, fetch-none}
use jitforge.Storage.Rows.{is_version, set_versions}
use jitforge.Storage.Register.{has_name}
use jitforge.Storage.Versions.{
  find_tool, find_version, is_ready, fits_i64, ready_version, resolve_tool, revoke_tool_version,
  revoke_version, replace_stable, fallback,
}

-- The named tool has a version of this revision, and it is not ready.
abbrev HasUnready : ToolName → ℕ → Db → Type 0
HasUnready name revision db =
    (t : Tool) × (v : Version) × (find_tool name db ≡ some t)
    × (find_version t.id revision db ≡ some v)
    × (is_ready v.status ≡ false)

not_ready :
    (o : Option Version) (v : Version)
    → o ≡ some v
    → is_ready v.status ≡ false
    → ready_version o ≡ none
not_ready none v e h = absurd cc
not_ready (some u) v e h = ground arith

resolve_unready :
    (name : ToolName) (revision : ℕ) (db : Db)
    → fits_i64 (some revision) ≡ true
    → HasUnready name revision db
    → resolve_tool name (some revision) db ≡ err tool_not_ready
unfolding resolve_tool
resolve_unready name revision db small (t, v, et, ev, u) =
    ensure-true _ _ _ db small
    ∙ fetch-some (find_tool name) _ _ db et
    ∙ fetch-some _ _ _ db refl
    ∙ fetch-none _ _ _ db (not_ready (find_version t.id revision db) v ev u)

replace_stable-HasUnready :
    (name : ToolName) (tool : Tool) (revision now : ℕ) (b : Bool) (db : Db)
    → HasUnready name revision db
    → Ends (λ a db'. HasUnready name revision db') (replace_stable tool revision now b db)
unfolding replace_stable find_tool find_version
replace_stable-HasUnready name tool revision now false db h = pure-Ends _ db h
replace_stable-HasUnready name tool revision now true db (t, v, et, ev, u) = query_then _ _ db (
    execute_then _ _ db (
      pure-Ends _ _
        (go (t.id == tool.id) (find?-update (has_name name) _ _ db.tools t (λ y. refl) et))))
  where
    next : Option ℕ
    next = fallback tool.id revision db.versions

    renew : Tool → Tool
    renew t = record t { stable_revision = next; updated_at = now }

    after : Db
    after = record db { tools = update (λ (t : Tool). t.id == tool.id) renew db.tools }

    go :
        (b : Bool)
        → find_tool name after ≡ some (if b then renew t else t)
        → HasUnready name revision after
    go true e = (renew t, v, e, ev, u)
    go false e = (t, v, e, ev, u)

-- Once the revocation of a version has succeeded, no caller that asks for the revision gets it.
pub resolve-revoke :
    (name : ToolName) (revision now : ℕ) (reason : String) (db db' : Db) (r : RevokeResponse)
    → revoke_tool_version name revision reason now db ≡ ok (r, db')
    → resolve_tool name (some revision) db' ≡ err tool_not_ready
unfolding revoke_tool_version find_tool find_version set_versions revoke_version
resolve-revoke name revision now reason db db' r =
    ends_ok (λ a d. resolve_tool name (some revision) d ≡ err tool_not_ready) _ r db'
      (ensure_then _ _ _ db (λ small. fetch_then _ _ _ db (λ t et. fetch_then _ _ _ db (λ v ev.
        ensure_then _ _ _ db (λ s. execute_then _ _ db (
          bind-Ends (λ a d. HasUnready name revision d) _ _ _
            (replace_stable-HasUnready name t revision now _ _ (revoked t v et ev))
            (λ a d h. pure-Ends _ d (resolve_unready name revision d small h))))))))
  where
    after : Tool → Db
    after t = set_versions (is_version t.id revision) (revoke_version reason now) db

    revoked :
        (t : Tool) (v : Version)
        → find_tool name db ≡ some t
        → find_version t.id revision db ≡ some v
        → HasUnready name revision (after t)
    revoked t v et ev =
        let found = find?-In (is_version t.id revision) db.versions v ev in
        let same : find_version t.id revision (after t) ≡ some (revoke_version reason now v) =
          subst
            (λ (b : Bool).
              find_version t.id revision (after t)
              ≡ some (if b then revoke_version reason now v else v))
            found.1
            (find?-update (is_version t.id revision) (is_version t.id revision)
              (revoke_version reason now) db.versions v (λ y. refl) ev) in
        (t, revoke_version reason now v, et, same, refl)
