-- ===== src/Storage/Claim/Order.antt =====
-- Which job `claim_synthesis_job` takes, and what it makes of it.
use jitforge.Base.{
  ℕ, ◌≤◌, Bool, true, false, not, ◌&&◌, Option, none, some, List, [], ◌∷◌, ◌≡◌, refl, subst, inl,
  inr, arith, leb, select, In, In-select, Bool-cases,
}
use jitforge.Storage.Schema.{Db, Job}
use jitforge.Storage.Claim.{older, oldest, claimable, candidate}

-- No job of the list is older than `j`.
abbrev NoneOlder : Job → List Job → Type 0
NoneOlder j [] = Unit
NoneOlder j (k ∷ ks) = (j.created_at ≤ k.created_at) × NoneOlder j ks

abbrev IsOldest : List Job → Option Job → Type 0
IsOldest js none = js ≡ []
IsOldest js (some j) = In j js × NoneOlder j js

NoneOlder-trans :
    (j k : Job) (js : List Job) → j.created_at ≤ k.created_at → NoneOlder k js → NoneOlder j js
NoneOlder-trans j k [] h n = tt
NoneOlder-trans j k (x ∷ xs) h n = (omega arith, NoneOlder-trans j k xs h n.1)

older-IsOldest :
    (j : Job) (js : List Job) (o : Option Job) → IsOldest js o → IsOldest (j ∷ js) (older j o)
older-IsOldest j js none h = (inl refl, (omega arith, rw h tt))
older-IsOldest j js (some k) h = elim (Bool-cases (leb j.created_at k.created_at)) [
  | inl e ↦ rw e (inl refl, (ground arith, NoneOlder-trans j k js (ground arith) h.1))
  | inr e ↦ rw e (inr h.0, (ground arith, h.1))
]

oldest-IsOldest : (js : List Job) → IsOldest js (oldest js)
unfolding oldest
oldest-IsOldest [] = refl
oldest-IsOldest (j ∷ js) = older-IsOldest j js (oldest js) (oldest-IsOldest js)

NoneOlder-In : (j k : Job) (js : List Job) → NoneOlder j js → In k js → j.created_at ≤ k.created_at
NoneOlder-In j k [] n i = absurd i
NoneOlder-In j k (x ∷ xs) n (inl e) = subst (λ (z : Job). j.created_at ≤ z.created_at) e n.0
NoneOlder-In j k (x ∷ xs) n (inr i) = NoneOlder-In j k xs n.1 i

-- A job of the table that is claimable and that no other transaction holds is never passed over: the
-- query finds a candidate, and the candidate was created no later.
pub candidate_oldest :
    (locked : ℕ → Bool) (now : ℕ) (db : Db) (k : Job)
    → In k db.jobs
    → claimable now k ≡ true
    → locked k.id ≡ false
    → (j : Job) × (candidate locked now db ≡ some j) × (j.created_at ≤ k.created_at)
unfolding candidate
candidate_oldest locked now db k i c l = go (oldest chosen) (oldest-IsOldest chosen) refl
  where
    test : Job → Bool
    test j = claimable now j && not (locked j.id)

    chosen : List Job
    chosen = select test db.jobs

    there : In k chosen
    there = In-select test db.jobs k i (ground arith)

    go :
        (o : Option Job)
        → IsOldest chosen o
        → oldest chosen ≡ o
        → (j : Job) × (oldest chosen ≡ some j) × (j.created_at ≤ k.created_at)
    go none empty e = absurd (subst (λ js. In k js) empty there)
    go (some j) (ij, n) e = (j, e, NoneOlder-In j k chosen n there)
