-- ===== src/Storage/Register/Retry.antt =====
-- The idempotency keys of `register`.
use jitforge.Base.{
  ℕ, ◌+◌, String, Bool, true, false, ◌||◌, Option, none, some, ◌≡◌, ◌≢◌, refl, sym, ap, ◌∙◌, subst,
  inl, inr, arith, ◌==◌, str_eq, eq_iff, eq_refl, if◌then◌else◌, find?, update, In, find?-In,
  find?-snoc, any_weaken, find?-DistinctBy, find?-update, ==_refl, Bool-cases,
}
use jitforge.Domain.{ToolName, draft}
use jitforge.Protocol.{RegistrationRequest, RegistrationResponse}
use jitforge.Storage.Schema.{Db, Job, Tool, Version, idempotency_conflict}
use jitforge.Storage.Tx.{ok, err, pure}
use jitforge.Storage.Tx.Ends.{
  Ends, ends_ok, bind-Ends, fetch_then, query_then, execute_then, ensure_then, pure-Ends,
}
use jitforge.Storage.Tx.Runs.{query_run, ensure-true, ensure-false}
use jitforge.Storage.Rows.{is_version}
use jitforge.Storage.Claim.{tool_of, version_of}
use jitforge.Storage.Events.{Codec}
use jitforge.Storage.Register.{
  registration_fingerprint, Registration, registration_row, has_key, has_name, find_registration,
  draft_version, queued_job, register_new, register_with, register,
}
use jitforge.Storage.Register.Inserts.{
  ToolsDistinct, insert_tool-distinct, Inserted, insert_version-Inserted, insert_job-Inserted,
}

-- The lookup by key, from the rows that it joins.
found_registration :
    (codec : Codec) (key : String) (db : Db) (j : Job) (t : Tool) (v : Version)
    → find? (has_key key) db.jobs ≡ some j
    → tool_of (some j) db.tools ≡ some t
    → version_of (some j) db.versions ≡ some v
    → find_registration codec key db ≡ registration_row codec (some j) (some t) (some v)
unfolding find_registration
found_registration codec key db j t v ej et ev = rw (ej, find_registration) (rw (et, ev))

module _ (codec : Codec) (name : ToolName) (request : RegistrationRequest)
    (key fingerprint : String) where
  -- The key finds the registration.
  abbrev Registered : RegistrationResponse → Db → Type 0
  Registered resp db =
      find_registration codec key db
      ≡ some (record { request_fingerprint = fingerprint; response = resp })

  new-Registered :
      (tool_id job_id now : ℕ) (db : Db)
      → ToolsDistinct db
      → Ends Registered (register_new codec name request key fingerprint tool_id job_id now db)
  unfolding register_new
  new-Registered tool_id job_id now db d =
      bind-Ends _ _ _ db (insert_tool-distinct name tool_id now db d) (λ a db1 d1.
        fetch_then _ _ _ db1 (λ tool found. ensure_then _ _ _ db1 (λ room. execute_then _ _ db1 (
          bind-Ends _ _ _ _ (insert_version-Inserted _ _) (λ a' db2 inserted.
            bind-Ends _ _ _ db2 (insert_job-Inserted _ db2) (λ a'' db3 added.
              pure-Ends _ db3 (looked_up tool db1 db2 db3 d1 found inserted added)))))))
    where
      looked_up :
          (tool : Tool) (db1 db2 db3 : Db)
          → ToolsDistinct db1
          → find? (has_name name) db1.tools ≡ some tool
          → Inserted
              (is_version tool.id (tool.latest_revision + 1))
              db1.versions
              db2.versions
              (draft_version request tool.id (tool.latest_revision + 1) now)
            × (db2.tools
                ≡ update
                    (λ t. t.id == tool.id)
                    (λ t. record t { latest_revision = tool.latest_revision + 1; updated_at = now })
                    db1.tools)
          → Inserted
              (λ k. k.id == job_id || has_key key k)
              db2.jobs
              db3.jobs
              (queued_job request key fingerprint job_id tool.id (tool.latest_revision + 1) now)
            × (db3.tools ≡ db2.tools)
            × (db3.versions ≡ db2.versions)
          → Registered
              (record {
                tool = name.text;
                revision = tool.latest_revision + 1;
                status = draft;
                job_id = codec.uuid_text job_id;
              })
              db3
      looked_up tool db1 db2 db3 d1 found (iv, tv) (ij, tj, vj) =
          found_registration codec key db3 new_job (bump tool) new_version
            (rw ij.rows (
              find?-snoc (has_key key) db2.jobs new_job
                (any_weaken (has_key key) _ db2.jobs (λ x h. ground arith) ij.fresh) (eq_refl key)))
            (rw (tj, tv) tool_found)
            (rw (vj, iv.rows)
              (find?-snoc (is_version tool.id (tool.latest_revision + 1)) db1.versions new_version
                iv.fresh (ground (arith, ==_refl tool.id, ==_refl (tool.latest_revision + 1)))))
          ∙ ap
              (λ (n : String). some (record {
                request_fingerprint = fingerprint;
                response = record {
                  tool = n;
                  revision = tool.latest_revision + 1;
                  status = draft;
                  job_id = codec.uuid_text job_id;
                };
              }))
              ((eq_iff tool.name name.text).0 named.1)
        where
          new_job : Job
          new_job = queued_job request key fingerprint job_id tool.id (tool.latest_revision + 1) now

          new_version : Version
          new_version = draft_version request tool.id (tool.latest_revision + 1) now

          bump : Tool → Tool
          bump t = record t { latest_revision = tool.latest_revision + 1; updated_at = now }

          named : In tool db1.tools × (has_name name tool ≡ true)
          named = find?-In (has_name name) db1.tools tool found

          same_id : Tool → Bool
          same_id t = t.id == tool.id

          tool_found : find? same_id (update same_id bump db1.tools) ≡ some (bump tool)
          tool_found =
              subst
                (λ b.
                  find? same_id (update same_id bump db1.tools)
                  ≡ some (if b then bump tool else tool))
                (==_refl tool.id)
                (find?-update same_id same_id bump db1.tools tool (λ y. refl)
                  (find?-DistinctBy (λ (t : Tool). t.id) db1.tools tool d1 named.0))

  old-Registered :
      (r : Registration) (db : Db)
      → find_registration codec key db ≡ some r
      → str_eq r.request_fingerprint fingerprint ≡ true
      → Registered r.response db
  old-Registered r db e same =
      e
      ∙ ap (λ (f : String). some (record { request_fingerprint = f; response = r.response }))
          ((eq_iff r.request_fingerprint fingerprint).0 same)

  with-Registered :
      (tool_id job_id now : ℕ) (db : Db) (o : Option Registration)
      → ToolsDistinct db
      → find_registration codec key db ≡ o
      → Ends Registered (register_with codec name request key fingerprint tool_id job_id now o db)
  unfolding register_with
  with-Registered tool_id job_id now db none d e = new-Registered tool_id job_id now db d
  with-Registered tool_id job_id now db (some r) d e =
      ensure_then _ _ _ db (λ same. pure-Ends _ db (old-Registered r db e same))

module _ (codec : Codec) (name : ToolName) (request : RegistrationRequest) (key : String) where
  register-Registered :
      (tool_id job_id now : ℕ) (db : Db)
      → ToolsDistinct db
      → Ends
          (Registered codec name request key (registration_fingerprint codec name request))
          (register codec name request key tool_id job_id now db)
  unfolding register
  register-Registered tool_id job_id now db d =
      query_then _ _ db (with-Registered codec name request key _ tool_id job_id now db _ d refl)

  retry_of :
      (resp : RegistrationResponse) (tool_id job_id now : ℕ) (db : Db)
      → Registered codec name request key (registration_fingerprint codec name request) resp db
      → register codec name request key tool_id job_id now db ≡ ok (resp, db)
  unfolding register register_with pure
  retry_of resp tool_id job_id now db e =
      query_run _ _ db
      ∙ ap
          (λ o.
            register_with codec name request key (registration_fingerprint codec name request)
              tool_id job_id now o db)
          e
      ∙ ensure-true _ _ _ db (eq_refl (registration_fingerprint codec name request))

  conflict_of :
      (other : ToolName) (changed : RegistrationRequest) (resp : RegistrationResponse)
      (tool_id job_id now : ℕ) (db : Db)
      → Registered codec name request key (registration_fingerprint codec name request) resp db
      → registration_fingerprint codec other changed ≢ registration_fingerprint codec name request
      → register codec other changed key tool_id job_id now db ≡ err idempotency_conflict
  unfolding register register_with
  conflict_of other changed resp tool_id job_id now db e differ =
      query_run _ _ db
      ∙ ap
          (λ o.
            register_with codec other changed key (registration_fingerprint codec other changed)
              tool_id job_id now o db)
          e
      ∙ ensure-false _ _ _ db (
          unequal (registration_fingerprint codec name request)
            (registration_fingerprint codec other changed) differ)
    where
      unequal : (a b : String) → b ≢ a → str_eq a b ≡ false
      unequal a b d = elim (Bool-cases (str_eq a b)) [
        | inl t ↦ absurd (d (sym ((eq_iff a b).0 t)))
        | inr f ↦ f
      ]

  module _ (tool_id job_id now : ℕ) (db db' : Db) (resp : RegistrationResponse)
      (d : ToolsDistinct db)
      (h : register codec name request key tool_id job_id now db ≡ ok (resp, db')) where
    kept : Registered codec name request key (registration_fingerprint codec name request) resp db'
    kept = ends_ok _ _ resp db' (register-Registered tool_id job_id now db d) h

    -- Where tool ids are distinct: the same call with the same key, made on the tables that a successful
    -- registration left, answers the same response and changes nothing, whatever UUIDs it draws and
    -- whatever the time is.
    pub register_retry :
        (tool_id' job_id' now' : ℕ)
        → register codec name request key tool_id' job_id' now' db' ≡ ok (resp, db')
    register_retry tool_id' job_id' now' = retry_of resp tool_id' job_id' now' db' kept

    -- Where tool ids are distinct: a call with the key of a successful registration, made on the tables
    -- that it left for a name and request of another fingerprint, is refused as a conflict.
    pub register_conflict :
        (other : ToolName) (changed : RegistrationRequest) (tool_id' job_id' now' : ℕ)
        → registration_fingerprint codec other changed ≢ registration_fingerprint codec name request
        → register codec other changed key tool_id' job_id' now' db' ≡ err idempotency_conflict
    register_conflict other changed tool_id' job_id' now' differ =
        conflict_of other changed resp tool_id' job_id' now' db' kept differ
