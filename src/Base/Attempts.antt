-- ===== src/Base/Attempts.antt =====
-- `Result<A, E>`, with its error first, and the `?` that passes errors on.
use mathlib.Core.Path.{◌≡◌, refl}
use mathlib.Core.Bool.{Bool, true, false}
use mathlib.Core.Option.{Option, none, some}

pub data Attempt {ℓ} (E A : Type ℓ) : Type ℓ where
  done : A → Attempt E A
  failed : E → Attempt E A

infixl 5 ◌>>=◌ ◌>>◌
abbrev pub ◌>>=◌ : {E A B : Type 0} → Attempt E A → (A → Attempt E B) → Attempt E B
done a >>= f = f a
failed e >>= f = failed e

abbrev pub ◌>>◌ : {E B : Type 0} → Attempt E (Unit {0}) → Attempt E B → Attempt E B
m >> k = m >>= λ _. k

-- `if !test { return Err(e); }`
abbrev pub check : {E : Type 0} → Bool → E → Attempt E (Unit {0})
check true e = done tt
check false e = failed e

-- `value.ok_or(e)`
abbrev pub ok_or : {E A : Type 0} → Option A → E → Attempt E A
ok_or none e = failed e
ok_or (some a) e = done a

-- `map_err`
abbrev pub map_err : {E F A : Type 0} → (E → F) → Attempt E A → Attempt F A
map_err f (done a) = done a
map_err f (failed e) = failed (f e)

pub done_injective : {E A : Type 0} (a b : A) → Path (Attempt E A) (done a) (done b) → a ≡ b
done_injective a b e = cc

-- What came before a success succeeded.
pub bind-done :
    {E A B : Type 0} (m : Attempt E A) (f : A → Attempt E B) (b : B)
    → (m >>= f) ≡ done b
    → (a : A) × (m ≡ done a) × (f a ≡ done b)
bind-done (done a) f b e = (a, refl, e)
bind-done (failed x) f b e = cc

pub check-done : {E : Type 0} (b : Bool) (e : E) → check b e ≡ done tt → b ≡ true
check-done true e h = refl
check-done false e h = cc

pub ok_or-done : {E A : Type 0} (o : Option A) (e : E) (a : A) → ok_or o e ≡ done a → o ≡ some a
ok_or-done none e a h = cc
ok_or-done (some b) e a h = cc
