-- ===== src/Worker/Act/Leaves.antt =====
-- What an action that starts at a workspace leaves there, whether it ends with a value or an error:
-- rules that follow an action step by step. `Quiet` actions do not touch the workspace.
use jitforge.Base.{
  ℕ, Bool, true, false, Option, none, some, ◌≡◌, refl, sym, ap, ◌∙◌, subst, Attempt, done, failed,
  if◌then◌else◌,
}
use jitforge.Storage.Schema.{Db}
use jitforge.Storage.Tx.{Tx, Result, ok, err}
use jitforge.Worker.Types.{AgentWorkspace, JobError}
use jitforge.Worker.Outside.{Outside}
use jitforge.Worker.Act.{
  World, Act, and_then, ◌>>=◌, pure, raise, ensure, require, lift, workspace, modify, ask, settle,
  registry,
}

pub record Quiet {A : Type 0} (m : Act A) : Type 0 where
  pub keeps : (w : World) → (m w).1.workspace ≡ w.workspace

pub record Leaves {A : Type 0} (R : AgentWorkspace → Type 0) (ws : AgentWorkspace) (m : Act A)
    : Type 0 where
  pub leaves : (w : World) → w.workspace ≡ ws → R (m w).1.workspace

module _ {A B : Type 0} {m : Act A} {f : A → Act B} where
  pub Quiet-bind : Quiet m → ((a : A) → Quiet (f a)) → Quiet (m >>= f)
  unfolding ◌>>=◌ and_then
  Quiet-bind q k = record { keeps = λ w. go (m w) ∙ q.keeps w }
    where
      go : (r : Attempt JobError A × World) → (and_then r f).1.workspace ≡ r.1.workspace
      go (done a, w) = (k a).keeps w
      go (failed e, w) = refl

  pub Leaves-bind :
      {R : AgentWorkspace → Type 0} {ws : AgentWorkspace}
      → R ws
      → Quiet m
      → ((a : A) → Leaves R ws (f a))
      → Leaves R ws (m >>= f)
  unfolding ◌>>=◌ and_then
  Leaves-bind {R = R} {ws = ws} r q k = record { leaves = λ w e. go (m w) (q.keeps w ∙ e) }
    where
      go : (x : Attempt JobError A × World) → x.1.workspace ≡ ws → R (and_then x f).1.workspace
      go (done a, w) e = (k a).leaves w e
      go (failed x, w) e = subst R (sym e) r

module _ {A : Type 0} where
  pub Quiet-pure : (a : A) → Quiet (pure a)
  unfolding pure
  Quiet-pure a = record { keeps = λ w. refl }

  pub Quiet-raise : (e : JobError) → Quiet (raise {A = A} e)
  unfolding raise
  Quiet-raise e = record { keeps = λ w. refl }

  pub Quiet-ask : (f : ℕ → A) → Quiet (ask f)
  unfolding ask
  Quiet-ask f = record { keeps = λ w. refl }

  pub Quiet-lift : {E : Type 0} (f : E → JobError) (r : Attempt E A) → Quiet (lift f r)
  unfolding lift
  Quiet-lift f (done a) = record { keeps = λ w. refl }
  Quiet-lift f (failed e) = record { keeps = λ w. refl }

  pub Quiet-registry : (out : Outside) (m : ℕ → Tx A) → Quiet (registry out m)
  unfolding registry settle
  Quiet-registry out m = record {
    keeps = λ w. go w (m (out.now w.calls) (out.others w.calls w.db));
  }
    where
      go :
          (w : World) (r : Result (A × Db))
          → (settle w (out.others w.calls w.db) r).1.workspace ≡ w.workspace
      go w (ok (a, db)) = refl
      go w (err e) = refl

  pub Leaves-of_Quiet :
      {R : AgentWorkspace → Type 0} {ws : AgentWorkspace} {m : Act A}
      → R ws
      → Quiet m
      → Leaves R ws m
  Leaves-of_Quiet {R = R} r q = record { leaves = λ w e. subst R (sym (q.keeps w ∙ e)) r }

module _ {B : Type 0} {R : AgentWorkspace → Type 0} {ws : AgentWorkspace} where
  pub Leaves-workspace :
      (f : AgentWorkspace → Act B) → Leaves R ws (f ws) → Leaves R ws (workspace >>= f)
  unfolding ◌>>=◌ and_then workspace
  Leaves-workspace f h = record {
    leaves = λ w e. subst (λ v. R (f v w).1.workspace) (sym e) (h.leaves w e);
  }

  pub Leaves-modify :
      (g : AgentWorkspace → AgentWorkspace) (f : Unit {0} → Act B)
      → Leaves R (g ws) (f tt)
      → Leaves R ws (modify g >>= f)
  unfolding ◌>>=◌ and_then modify
  Leaves-modify g f h = record {
    leaves = λ w e. h.leaves (record w { workspace = g w.workspace }) (ap g e);
  }

  pub Leaves-ensure :
      (b : Bool) (e : JobError) (f : Unit {0} → Act B)
      → R ws
      → (b ≡ true → Leaves R ws (f tt))
      → Leaves R ws (ensure b e >>= f)
  unfolding ◌>>=◌ and_then ensure
  Leaves-ensure true e f r k = record { leaves = (k refl).leaves }
  Leaves-ensure false e f r k = record { leaves = λ w q. subst R (sym q) r }

  pub Leaves-require :
      {A : Type 0} (o : Option A) (e : JobError) (f : A → Act B)
      → R ws
      → ((a : A) → o ≡ some a → Leaves R ws (f a))
      → Leaves R ws (require o e >>= f)
  unfolding ◌>>=◌ and_then require
  Leaves-require (some a) e f r k = record { leaves = (k a refl).leaves }
  Leaves-require none e f r k = record { leaves = λ w q. subst R (sym q) r }

  pub Leaves-lift :
      {E A : Type 0} (h : E → JobError) (o : Attempt E A) (f : A → Act B)
      → R ws
      → ((a : A) → o ≡ done a → Leaves R ws (f a))
      → Leaves R ws (lift h o >>= f)
  unfolding ◌>>=◌ and_then lift
  Leaves-lift h (done a) f r k = record { leaves = (k a refl).leaves }
  Leaves-lift h (failed x) f r k = record { leaves = λ w e. subst R (sym e) r }

  pub Leaves-if :
      (b : Bool) {m n : Act B} → Leaves R ws m → Leaves R ws n → Leaves R ws (if b then m else n)
  Leaves-if true h k = h
  Leaves-if false h k = k
