-- ===== src/Storage/Tx/Runs.antt =====
-- What one statement of a transaction computes to: equations that run it step by step.
use jitforge.Base.{Bool, true, false, Option, none, some, ◌≡◌, refl, arith}
use jitforge.Storage.Schema.{Db, StorageError}
use jitforge.Storage.Tx.{Result, ok, err, Tx, ◌>>=◌, query, execute, fetch, ensure, commit}

fetch_ok :
    {A : Type 0} (f : Db → Option A) (e : StorageError) (db : Db) {a : A}
    → f db ≡ some a
    → fetch f e db ≡ ok (a, db)
unfolding fetch
fetch_ok f e db h = ground arith

fetch_err :
    {A : Type 0} (f : Db → Option A) (e : StorageError) (db : Db)
    → f db ≡ none
    → fetch f e db ≡ err e
unfolding fetch
fetch_err f e db h = ground arith

module _ {A B : Type 0} where
  pub err_bind :
      (m : Tx A) (k : A → Tx B) (db : Db) (e : StorageError) → m db ≡ err e → (m >>= k) db ≡ err e
  unfolding ◌>>=◌
  err_bind m k db e h = go (m db) h
    where
      go :
          (r : Result (A × Db))
          → r ≡ err e
          → (elim r [ ok (x, db') ↦ k x db' | err e' ↦ err e' ]) ≡ err e
      go (ok (x, d)) h = absurd cc
      go (err x) h = ground arith

  pub ok_bind :
      (m : Tx A) (k : A → Tx B) (db : Db) {a : A} {db' : Db}
      → m db ≡ ok (a, db')
      → (m >>= k) db ≡ k a db'
  unfolding ◌>>=◌
  ok_bind m k db h = go (m db) h
    where
      go :
          (r : Result (A × Db)) {a : A} {db' : Db}
          → r ≡ ok (a, db')
          → (elim r [ ok (x, d) ↦ k x d | err e' ↦ err e' ]) ≡ k a db'
      go (ok (x, d)) h = ground arith
      go (err x) h = absurd cc

  pub fetch-some :
      (f : Db → Option A) (e : StorageError) (k : A → Tx B) (db : Db) {a : A}
      → f db ≡ some a
      → (fetch f e >>= k) db ≡ k a db
  fetch-some f e k db h = ok_bind (fetch f e) k db (fetch_ok f e db h)

  pub fetch-none :
      (f : Db → Option A) (e : StorageError) (k : A → Tx B) (db : Db)
      → f db ≡ none
      → (fetch f e >>= k) db ≡ err e
  fetch-none f e k db h = err_bind (fetch f e) k db e (fetch_err f e db h)

  pub query_run : (f : Db → A) (k : A → Tx B) (db : Db) → (query f >>= k) db ≡ k (f db) db
  unfolding query ◌>>=◌
  query_run f k db = refl

module _ {B : Type 0} where
  pub execute_run :
      (f : Db → Db) (k : Unit {0} → Tx B) (db : Db) → (execute f >>= k) db ≡ k tt (f db)
  unfolding execute ◌>>=◌
  execute_run f k db = refl

  pub ensure-true :
      (b : Bool) (e : StorageError) (k : Unit {0} → Tx B) (db : Db)
      → b ≡ true
      → (ensure b e >>= k) db ≡ k tt db
  unfolding ensure ◌>>=◌
  ensure-true true e k db h = refl
  ensure-true false e k db h = absurd cc

  pub ensure-false :
      (b : Bool) (e : StorageError) (k : Unit {0} → Tx B) (db : Db)
      → b ≡ false
      → (ensure b e >>= k) db ≡ err e
  unfolding ensure ◌>>=◌
  ensure-false true e k db h = absurd cc
  ensure-false false e k db h = refl

pub commit_ok :
    {A : Type 0} (m : Tx A) (db : Db) {a : A} {db' : Db} → m db ≡ ok (a, db') → commit m db ≡ db'
unfolding commit
commit_ok {A} m db h = go (m db) h
  where
    go :
        (r : Result (A × Db)) {a : A} {db' : Db}
        → r ≡ ok (a, db')
        → (elim r [ ok (x, d) ↦ d | err e ↦ db ]) ≡ db'
    go (ok (x, d)) h = ground arith
    go (err e) h = absurd cc
