-- ===== src/Storage/Tx/Ends.antt =====
-- What holds when a transaction commits: rules that run a transaction statement by statement.
-- Their first arguments are the parts of the transaction, which the goal shows.
use jitforge.Base.{Bool, true, false, Option, none, some, ◌≡◌, refl, subst}
use jitforge.Storage.Schema.{Db, StorageError}
use jitforge.Storage.Tx.{Result, ok, err, Tx, ◌>>=◌, pure, query, execute, fetch, ensure, commit}

abbrev pub Holds : {A : Type 0} → (A → Db → Type 0) → Result (A × Db) → Type 0
Holds R (ok (a, db)) = R a db
Holds R (err e) = Unit

-- If `r` is a success then its value and tables satisfy `R`.
pub record Ends {A : Type 0} (R : A → Db → Type 0) (r : Result (A × Db)) : Type 0 where
  pub holds : Holds R r

pub bind-Ends :
    {A B : Type 0} (Q : A → Db → Type 0) {R : B → Db → Type 0} (m : Tx A) (f : A → Tx B) (db : Db)
    → Ends Q (m db)
    → ((a : A) (db' : Db) → Q a db' → Ends R (f a db'))
    → Ends R ((m >>= f) db)
unfolding ◌>>=◌
bind-Ends {A} {B} Q {R} m f db h k = go (m db) h.holds
  where
    go :
        (r : Result (A × Db))
        → Holds Q r
        → Ends R (elim r [ ok (a, db') ↦ f a db' | err e ↦ err e ])
    go (ok (a, db')) q = k a db' q
    go (err e) q = record { holds = tt }

pub weaken-Ends :
    {A : Type 0} (Q : A → Db → Type 0) {R : A → Db → Type 0} (r : Result (A × Db))
    → Ends Q r
    → ((a : A) (db : Db) → Q a db → R a db)
    → Ends R r
weaken-Ends Q (ok (a, db)) h k = record { holds = k a db h.holds }
weaken-Ends Q (err e) h k = record { holds = tt }

module _ {A : Type 0} {R : A → Db → Type 0} where
  pub pure-Ends : (a : A) (db : Db) → R a db → Ends R (pure a db)
  unfolding pure
  pure-Ends a db h = record { holds = h }

  pub query-Ends : (f : Db → A) (db : Db) → R (f db) db → Ends R (query f db)
  unfolding query
  query-Ends f db h = record { holds = h }

  pub fetch-Ends :
      (f : Db → Option A) (e : StorageError) (db : Db)
      → ((a : A) → f db ≡ some a → R a db)
      → Ends R (fetch f e db)
  unfolding fetch
  fetch-Ends f e db h = go (f db) h
    where
      go :
          (o : Option A)
          → ((a : A) → o ≡ some a → R a db)
          → Ends R (elim o [ none ↦ err e | some a ↦ ok (a, db) ])
      go none h = record { holds = tt }
      go (some a) h = record { holds = h a refl }

module _ {R : Unit {0} → Db → Type 0} where
  pub execute-Ends : (f : Db → Db) (db : Db) → R tt (f db) → Ends R (execute f db)
  unfolding execute
  execute-Ends f db h = record { holds = h }

  pub ensure-Ends :
      (b : Bool) (e : StorageError) (db : Db) → (b ≡ true → R tt db) → Ends R (ensure b e db)
  unfolding ensure
  ensure-Ends true e db h = record { holds = h refl }
  ensure-Ends false e db h = record { holds = tt }

module _ {A B : Type 0} {R : B → Db → Type 0} where
  pub fetch_then :
      (f : Db → Option A) (e : StorageError) (k : A → Tx B) (db : Db)
      → ((a : A) → f db ≡ some a → Ends R (k a db))
      → Ends R ((fetch f e >>= k) db)
  fetch_then f e k db h =
      bind-Ends (λ a db'. Ends R (k a db')) (fetch f e) k db (fetch-Ends f e db h) (λ a db' q. q)

  pub query_then :
      (f : Db → A) (k : A → Tx B) (db : Db) → Ends R (k (f db) db) → Ends R ((query f >>= k) db)
  unfolding query ◌>>=◌
  query_then f k db h = h

module _ {B : Type 0} {R : B → Db → Type 0} where
  pub execute_then :
      (f : Db → Db) (k : Unit {0} → Tx B) (db : Db)
      → Ends R (k tt (f db))
      → Ends R ((execute f >>= k) db)
  unfolding execute ◌>>=◌
  execute_then f k db h = h

  pub ensure_then :
      (b : Bool) (e : StorageError) (k : Unit {0} → Tx B) (db : Db)
      → (b ≡ true → Ends R (k tt db))
      → Ends R ((ensure b e >>= k) db)
  ensure_then b e k db h =
      bind-Ends (λ a db'. Ends R (k a db')) (ensure b e) k db (ensure-Ends b e db h) (λ a db' q. q)

-- What holds before, and after every success, holds after every transaction.
pub commit_ends :
    {A : Type 0} (P : Db → Type 0) (m : Tx A) (db : Db)
    → P db
    → Ends (λ a db'. P db') (m db)
    → P (commit m db)
unfolding commit
commit_ends {A} P m db p h = go (m db) h.holds
  where
    go :
        (r : Result (A × Db))
        → Holds (λ a db'. P db') r
        → P (elim r [ ok (a, db') ↦ db' | err e ↦ db ])
    go (ok (a, db')) q = q
    go (err e) q = p

-- What holds after a success, at a success.
pub ends_ok :
    {A : Type 0} (R : A → Db → Type 0) (r : Result (A × Db)) (a : A) (db : Db)
    → Ends R r
    → r ≡ ok (a, db)
    → R a db
ends_ok {A} R r a db h e = subst (Holds R) e h.holds
