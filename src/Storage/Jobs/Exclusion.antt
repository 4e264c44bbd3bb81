-- ===== src/Storage/Jobs/Exclusion.antt =====
-- The job that a worker holds, and the operations of others.
use jitforge.Base.{
  ℕ, ◌≤◌, String, true, Option, some, ◌≡◌, ◌≢◌, sym, ap, ◌∙◌, subst, ◌⊎◌, inl, inr, arith, In,
  eq_iff,
}
use jitforge.Protocol.{Value, running}
use jitforge.Storage.Schema.{Db, Job}
use jitforge.Storage.Rows.{is_worker}
use jitforge.Storage.Events.{Codec}
use jitforge.Storage.Claim.{claimable}
use jitforge.Storage.Inputs.{cancelled}
use jitforge.Storage.Ops.{Op, apply, actor, StagesWork}
use jitforge.Storage.Jobs.{
  Leases, Edge, stay, claim, renew, stage, publish, fail, cancel, suspend_for_input, answer,
  IsSound,
}
use jitforge.Storage.Jobs.Steps.{apply-JobStep}
use jitforge.Storage.Jobs.Life.{Evolves-In}

-- `worker` holds `j` at the time `now` by a lease that has not expired.
pub record Holds (worker : String) (now : ℕ) (j : Job) : Type 0 where
  pub running : j.status ≡ running
  pub worker_id : j.worker_id ≡ some worker
  pub until : ℕ
  pub lease : j.lease_until ≡ some until
  pub unexpired : now ≤ until

module _ (worker : String) (now : ℕ) (j : Job) (held : Holds worker now j) where
  not-claimable : claimable now j ≡ true → ⊥
  unfolding claimable
  not-claimable h = ground (arith, held.running, held.lease, held.unexpired)

  other-Leases :
      (who : Option String) (w : String) → who ≢ some worker → who ≡ some w → Leases w j → ⊥
  other-Leases who w other a h =
      other (a ∙ ap (λ (x : String). some x) (sym (name (ground (arith, held.worker_id)))))
    where
      name : is_worker w (some worker) ≡ true → worker ≡ w
      name e = (eq_iff worker w).0 e

  kept :
      (who : Option String) (k : Job)
      → who ≢ some worker
      → Edge who now j k
      → (k ≡ j) ⊎ ((d : Value) × (k ≡ cancelled d now j))
  kept who k other (stay e) = inl e
  kept who k other (claim w lease a h e) = absurd (not-claimable h)
  kept who k other (renew w until a h e) = absurd (other-Leases who w other a h)
  kept who k other (stage w s until a h v e) = absurd (other-Leases who w other a h)
  kept who k other (publish w a h e) = absurd (other-Leases who w other a h)
  kept who k other (fail w code m d a h e) = absurd (other-Leases who w other a h)
  kept who k other (cancel d h e) = inr (d, e)
  kept who k other (suspend_for_input w a h e) = absurd (other-Leases who w other a h)
  kept who k other (answer s h v e) = absurd (ground (arith, held.running))

-- In sound tables, while a worker holds a job by an unexpired lease, every operation that is not that
-- worker's, and writes no stage but one of work, leaves the job's row as it is or cancels the job.
pub lease_excludes :
    (codec : Codec) (now : ℕ) (db : Db) (worker : String) (j : Job) (op : Op)
    → StagesWork op
    → IsSound db
    → In j db.jobs
    → Holds worker now j
    → actor op ≢ some worker
    → In j (apply codec now op db).jobs
      ⊎ ((d : Value) × In (cancelled d now j) (apply codec now op db).jobs)
lease_excludes codec now db worker j op w s i held other =
    let (k, ik, e) =
      Evolves-In (actor op) now _ _ j (apply-JobStep codec now db s op w).evolves i in
    elim (kept worker now j held (actor op) k other e) [
      | inl same ↦ inl (subst (λ x. In x (apply codec now op db).jobs) same ik)
      | inr (d, c) ↦ inr (d, subst (λ x. In x (apply codec now op db).jobs) c ik)
    ]
