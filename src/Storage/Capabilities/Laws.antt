-- ===== src/Storage/Capabilities/Laws.antt =====
-- What approvals and revocations do to what is approved.
use jitforge.Base.{
  ℕ, String, len, Bool, true, false, not, ◌||◌, List, [], ◌∷◌, ◌≡◌, refl, ap, ◌∙◌, subst, inl, inr,
  arith, ltb, ◌==◌, str_eq, eq_iff, any, count, update, if◌then◌else◌, Bool-cases,
}
use jitforge.Text.{is_empty_text, trim}
use jitforge.Storage.Schema.{Db, Approval, http_capability_not_found}
use jitforge.Storage.Tx.Runs.{commit_ok, ensure-true, query_run, execute_run}
use jitforge.Storage.Tx.{Tx, ok, commit, ensure}
use jitforge.Storage.Capabilities.{has_hash, is_approved, revoke_approval, revoke_http_capability}

-- The hash is that of an active approval.
abbrev pub approved : String → Db → Bool
approved hash db = any (is_approved hash) db.approvals

any-other_approvals :
    (g h : String) (f : Approval → Approval) (rows : List Approval)
    → str_eq g h ≡ false
    → ((a : Approval) → (f a).capability_hash ≡ a.capability_hash)
    → (p : Approval → Bool) → ((a : Approval) → p a ≡ true → has_hash g a ≡ true)
    → any (is_approved h) (update p f rows) ≡ any (is_approved h) rows
unfolding any update
any-other_approvals g h f [] n k p q = refl
any-other_approvals g h f (a ∷ as') n k p q = elim (Bool-cases (p a)) [
  | inl e ↦
      let same = (eq_iff a.capability_hash g).0 (q a e) in
      let before : is_approved h a ≡ false = rw (ap (λ s. str_eq s h) same ∙ n) refl in
      let after : is_approved h (f a) ≡ false = rw (ap (λ s. str_eq s h) (k a ∙ same) ∙ n) refl in
      ground (arith, any-other_approvals g h f as' n k p q)
  | inr e ↦ ground (arith, any-other_approvals g h f as' n k p q)
]

any-revoke :
    (g reason : String) (now : ℕ) (rows : List Approval)
    → any (is_approved g) (update (is_approved g) (revoke_approval reason now) rows) ≡ false
unfolding any update revoke_approval
any-revoke g reason now [] = refl
any-revoke g reason now (a ∷ as') = ground (arith, any-revoke g reason now as')

revoke_run :
    (g reason : String) (now : ℕ) (db : Db)
    → is_empty_text (trim reason) || ltb 4096 (len reason) ≡ false
    → count (is_approved g) db.approvals ≡ 1
    → commit (revoke_http_capability g reason now) db ≡ record db {
      approvals = update (is_approved g) (revoke_approval (trim reason) now) db.approvals;
    }
unfolding revoke_http_capability ensure
revoke_run g reason now db v one =
    commit_ok (revoke_http_capability g reason now) db
      (ensure-true _ _ _ db (ap not v) ∙ query_run _ _ db ∙ execute_run _ _ db ∙ last one)
  where
    after : Db
    after = record db {
      approvals = update (is_approved g) (revoke_approval (trim reason) now) db.approvals;
    }

    last : {n : ℕ} → n ≡ 1 → ensure (n == 1) http_capability_not_found after ≡ ok (tt, after)
    last e = rw e refl

-- With an admissible reason, and one active row of the hash, a revocation makes that hash no longer
-- approved and leaves every other hash what it was.
pub approved-revoke :
    (g h reason : String) (now : ℕ) (db : Db)
    → is_empty_text (trim reason) || ltb 4096 (len reason) ≡ false
    → count (is_approved g) db.approvals ≡ 1
    → approved h (commit (revoke_http_capability g reason now) db)
      ≡ (if str_eq g h then false else approved h db)
unfolding revoke_approval
approved-revoke g h reason now db v one = elim (Bool-cases (str_eq g h)) [
  | inl e ↦
      rw (revoke_run g reason now db v one, e)
        (subst (λ s. any (is_approved s) (after db.approvals) ≡ false) ((eq_iff g h).0 e)
          (any-revoke g (trim reason) now db.approvals))
  | inr e ↦
      rw (revoke_run g reason now db v one, e)
        (any-other_approvals g h (revoke_approval (trim reason) now) db.approvals e (λ a. refl)
          (is_approved g) (λ a t. ground arith))
]
  where
    after : List Approval → List Approval
    after = update (is_approved g) (revoke_approval (trim reason) now)
