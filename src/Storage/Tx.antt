-- ===== src/Storage/Tx.antt =====
-- Transactions. An error rolls back: it comes with no new tables, so the caller keeps the old ones.
-- Transactions are taken as serialised; each is one step on the tables.
pub mod Ends
pub mod Runs
use jitforge.Base.{
  Bool, true, false, Option, none, some, ◌≡◌, refl, ap, arith, ◌⊎◌, inl, inr, if◌then◌else◌,
}
use jitforge.Storage.Schema.{Db, StorageError}

pub data Result {ℓ} (A : Type ℓ) : Type ℓ where
  ok : A → Result A
  err : StorageError → Result A

-- What a transaction that answers `A` does to the tables.
abbrev pub Tx : Type 0 → Type 0
Tx A = Db → Result (A × Db)

infixl 5 ◌>>=◌ ◌>>◌
unfoldable pub ◌>>=◌ : {A B : Type 0} → Tx A → (A → Tx B) → Tx B
◌>>=◌ m f db = elim (m db) [ ok (a, db') ↦ f a db' | err e ↦ err e ]

abbrev pub ◌>>◌ : {B : Type 0} → Tx (Unit {0}) → Tx B → Tx B
m >> k = m >>= λ _. k

unfoldable pub pure : {A : Type 0} → A → Tx A
pure a db = ok (a, db)

unfoldable pub throw : {A : Type 0} → StorageError → Tx A
throw e db = err e

-- A query that changes nothing.
unfoldable pub query : {A : Type 0} → (Db → A) → Tx A
query f db = ok (f db, db)

-- A statement that changes the tables.
unfoldable pub execute : (Db → Db) → Tx Unit
execute f db = ok (tt, f db)

-- `fetch_optional(…).await?.ok_or(e)?`
unfoldable pub fetch : {A : Type 0} → (Db → Option A) → StorageError → Tx A
fetch f e db = elim (f db) [ none ↦ err e | some a ↦ ok (a, db) ]

-- `if !test { return Err(e); }`
unfoldable pub ensure : Bool → StorageError → Tx Unit
ensure b e db = if b then ok (tt, db) else err e

-- The tables after a transaction: as they were if it failed.
unfoldable pub commit : {A : Type 0} → Tx A → Db → Db
commit m db = elim (m db) [ ok (a, db') ↦ db' | err e ↦ db ]
