-- ===== src/Storage/Jobs/Rules.antt =====
-- One operation on the jobs: what is to be shown of it, and the two ways to show it.
use jitforge.Base.{
  ℕ, String, Bool, true, Option, some, ◌≡◌, refl, sym, ◌∙◌, subst, arith, find?, update, In,
  find?-In, Evolves-refl, Evolves-update, All, DistinctBy-update, DistinctBy-eq, eq-of-==,
}
use jitforge.Storage.Schema.{Db, Job, JobInput}
use jitforge.Storage.Rows.{has_id, is_leased}
use jitforge.Storage.Progress.{find_leased}
use jitforge.Storage.Ops.{is_working}
use jitforge.Storage.Jobs.{Leases, Edge, stay, IsFresh, JobsEvolve, IsSound}

-- The jobs evolve and the tables stay sound.
pub record JobStep (who : Option String) (now : ℕ) (db db' : Db) : Type 0 where
  pub evolves : JobsEvolve who now db db'
  pub sound : IsSound db'

-- The jobs and the inputs are as they were.
pub still :
    (who : Option String) (now : ℕ) (db db' : Db)
    → IsSound db
    → db'.jobs ≡ db.jobs
    → db'.inputs ≡ db.inputs
    → JobStep who now db db'
still who now db db' s j i = record {
  evolves = rw j (Evolves-refl (Edge who now) IsFresh (λ x. stay refl) db.jobs);
  sound = record { distinct = rw j s.distinct; resumable = rw i s.resumable };
}

-- Some jobs were updated in place, each along an edge.
pub updated :
    (who : Option String) (now : ℕ) (db db' : Db) (p : Job → Bool) (f : Job → Job)
    → IsSound db
    → db'.jobs ≡ update p f db.jobs
    → All (λ (i : JobInput). is_working i.resume_stage ≡ true) db'.inputs
    → ((j : Job) → (f j).id ≡ j.id)
    → ((j : Job) → In j db.jobs → p j ≡ true → Edge who now j (f j))
    → JobStep who now db db'
updated who now db db' p f s e r same k = record {
  evolves = rw e (Evolves-update (Edge who now) IsFresh (λ x. stay refl) p f db.jobs k);
  sound = record {
    distinct = rw e (DistinctBy-update (λ j. j.id) p f db.jobs same s.distinct);
    resumable = r;
  };
}

-- With distinct ids, the rows that an id selects are the one that was found.
pub the_one :
    (db : Db) (job_id : ℕ) (p : Job → Bool) (j k : Job)
    → IsSound db
    → find? p db.jobs ≡ some j
    → ((x : Job) → p x ≡ true → x.id ≡ job_id)
    → In k db.jobs
    → has_id job_id k ≡ true
    → j ≡ k
the_one db job_id p j k s found names i e =
    let (ij, pj) = find?-In p db.jobs j found in
    DistinctBy-eq (λ x. x.id) db.jobs j k s.distinct ij i
      (names j pj ∙ sym (eq-of-== k.id job_id e))

pub id-of-is_leased :
    (job_id : ℕ) (worker : String) (j : Job) → is_leased job_id worker j ≡ true → j.id ≡ job_id
unfolding is_leased
id-of-is_leased job_id worker j h = ground arith

pub Leases-of-is_leased :
    (job_id : ℕ) (worker : String) (j : Job) → is_leased job_id worker j ≡ true → Leases worker j
unfolding is_leased
Leases-of-is_leased job_id worker j h = ground arith

-- A job that was found leased is the one that its id selects.
pub Leases-found :
    (db : Db) (job_id : ℕ) (worker : String) (j k : Job)
    → IsSound db
    → find_leased job_id worker db ≡ some j
    → In k db.jobs
    → has_id job_id k ≡ true
    → Leases worker k
unfolding find_leased
Leases-found db job_id worker j k s found i e =
    let p = is_leased job_id worker in
    subst (Leases worker) (the_one db job_id p j k s found (id-of-is_leased job_id worker) i e)
      (Leases-of-is_leased job_id worker j (find?-In p db.jobs j found).1)
