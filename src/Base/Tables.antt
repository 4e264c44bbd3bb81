-- ===== src/Base/Tables.antt =====
-- How the rows of a table change: by updates in place and by rows appended.
use Prim.Native.Nat.{ℕ}
use mathlib.Core.Path.{◌≡◌, refl, sym, ◌∙◌, ap, subst}
use mathlib.Core.Logic.{◌⊎◌, inl, inr}
use mathlib.Core.Bool.{Bool, true, false}
use mathlib.Core.Option.{some}
use mathlib.Core.List.{List, [], ◌∷◌, ◌++◌}
use native.Mathlib.Omega.{arith}
use jitforge.Base.Tests.{if◌then◌else◌, ◌==◌, Bool-cases, ==_refl, eq-of-==}
use jitforge.Base.Lists.{find?, select, any, update, All}

module _ {A : Type 0} where
  abbrev pub In : A → List A → Type 0
  In x [] = ⊥
  In x (y ∷ ys) = (y ≡ x) ⊎ In x ys

  -- The first row that passes a test is a row that passes it.
  pub find?-In : (p : A → Bool) (xs : List A) (x : A) → find? p xs ≡ some x → In x xs × (p x ≡ true)
  unfolding find?
  find?-In p [] x h = absurd cc
  find?-In p (y ∷ ys) x h = elim (Bool-cases (p y)) [
    | inl e ↦ let same : y ≡ x = ground arith in (inl same, subst (λ z. p z ≡ true) same e)
    | inr e ↦
        let found : find? p ys ≡ some x = ground arith in
        let (i, t) = find?-In p ys x found in (inr i, t)
  ]

  -- The first row, after an update that does not change the outcome of the test.
  pub find?-update :
      (p q : A → Bool) (f : A → A) (xs : List A) (x : A)
      → ((y : A) → p (f y) ≡ p y)
      → find? p xs ≡ some x
      → find? p (update q f xs) ≡ some (if q x then f x else x)
  unfolding find? update
  find?-update p q f [] x same h = absurd cc
  find?-update p q f (y ∷ ys) x same h = ground (arith, same y, find?-update p q f ys x same)

  -- A test that some row passes, at such a row.
  pub any-In : (p : A → Bool) (xs : List A) → any p xs ≡ true → (x : A) × In x xs × (p x ≡ true)
  unfolding any
  any-In p [] h = absurd cc
  any-In p (y ∷ ys) h = elim (Bool-cases (p y)) [
    | inl e ↦ (y, inl refl, e)
    | inr e ↦ let (x, i, t) = any-In p ys (rw e at h) in (x, inr i, t)
  ]

  pub select-In : (p : A → Bool) (xs : List A) (x : A) → In x (select p xs) → In x xs × (p x ≡ true)
  unfolding select
  select-In p [] x h = absurd h
  select-In p (y ∷ ys) x h = elim (Bool-cases (p y)) [
    | inl e ↦ first (rw e at h) (select-In p ys x) e
    | inr e ↦ let (i, t) = select-In p ys x (rw e at h) in (inr i, t)
  ]
    where
      first :
          (y ≡ x) ⊎ In x (select p ys)
          → (In x (select p ys) → In x ys × (p x ≡ true))
          → p y ≡ true
          → In x (y ∷ ys) × (p x ≡ true)
      first (inl same) rest e = (inl same, subst (λ z. p z ≡ true) same e)
      first (inr i) rest e = let (j, t) = rest i in (inr j, t)

  pub In-select : (p : A → Bool) (js : List A) (k : A) → In k js → p k ≡ true → In k (select p js)
  unfolding select
  In-select p [] k i e = absurd i
  In-select p (x ∷ xs) k (inl same) e =
      let t : p x ≡ true = subst (λ z. p z ≡ true) (sym same) e in rw t (inl same)
  In-select p (x ∷ xs) k (inr i) e = elim (Bool-cases (p x)) [
    | inl t ↦ rw t (inr (In-select p xs k i e))
    | inr f ↦ rw f (In-select p xs k i e)
  ]

  pub All-In : (P : A → Type 0) (xs : List A) (x : A) → All P xs → In x xs → P x
  All-In P [] x h i = absurd i
  All-In P (y ∷ ys) x h (inl e) = subst P e h.0
  All-In P (y ∷ ys) x h (inr i) = All-In P ys x h.1 i

  pub All-append : (P : A → Type 0) (xs ys : List A) → All P xs → All P ys → All P (xs ++ ys)
  All-append P [] ys hx hy = hy
  All-append P (x ∷ xs) ys hx hy = (hx.0, All-append P xs ys hx.1 hy)

  -- An update keeps a property of rows if it does on the rows that it touches.
  pub All-update :
      (P : A → Type 0) (p : A → Bool) (f : A → A) (xs : List A)
      → ((x : A) → p x ≡ true → P x → P (f x))
      → All P xs
      → All P (update p f xs)
  unfolding update
  All-update P p f [] k h = tt
  All-update P p f (x ∷ xs) k h = (one (p x) refl, All-update P p f xs k h.1)
    where
      one : (b : Bool) → p x ≡ b → P (if b then f x else x)
      one true e = k x e h.0
      one false e = h.0

  -- Each old row is related to the row in its place, and each row behind them is new.
  abbrev pub Evolves : (A → A → Type 0) → (A → Type 0) → List A → List A → Type 0
  Evolves R N [] ys = All N ys
  Evolves R N (x ∷ xs) [] = ⊥
  Evolves R N (x ∷ xs) (y ∷ ys) = R x y × Evolves R N xs ys

  module _ (R : A → A → Type 0) (N : A → Type 0) (same : (x : A) → R x x) where
    pub Evolves-refl : (xs : List A) → Evolves R N xs xs
    Evolves-refl [] = tt
    Evolves-refl (x ∷ xs) = (same x, Evolves-refl xs)

    pub Evolves-append : (xs ys : List A) → All N ys → Evolves R N xs (xs ++ ys)
    Evolves-append [] ys h = h
    Evolves-append (x ∷ xs) ys h = (same x, Evolves-append xs ys h)

    pub Evolves-update :
        (p : A → Bool) (f : A → A) (xs : List A)
        → ((x : A) → In x xs → p x ≡ true → R x (f x))
        → Evolves R N xs (update p f xs)
    unfolding update
    Evolves-update p f [] k = tt
    Evolves-update p f (x ∷ xs) k = (one (p x) refl, Evolves-update p f xs (λ y i. k y (inr i)))
      where
        one : (b : Bool) → p x ≡ b → R x (if b then f x else x)
        one true e = k x (inl refl) e
        one false e = same x

  -- No two rows have one key.
  abbrev pub DistinctBy : (A → ℕ) → List A → Type 0
  DistinctBy key [] = Unit
  DistinctBy key (x ∷ xs) = All (λ y. key x ≡ key y → ⊥) xs × DistinctBy key xs

  pub DistinctBy-eq :
      (key : A → ℕ) (xs : List A) (x y : A)
      → DistinctBy key xs
      → In x xs
      → In y xs
      → key x ≡ key y
      → x ≡ y
  DistinctBy-eq key [] x y d i j e = absurd i
  DistinctBy-eq key (z ∷ zs) x y d (inl a) (inl b) e = sym a ∙ b
  DistinctBy-eq key (z ∷ zs) x y d (inl a) (inr j) e =
      absurd (All-In (λ u. key z ≡ key u → ⊥) zs y d.0 j (ap key a ∙ e))
  DistinctBy-eq key (z ∷ zs) x y d (inr i) (inl b) e =
      absurd (All-In (λ u. key z ≡ key u → ⊥) zs x d.0 i (ap key b ∙ sym e))
  DistinctBy-eq key (z ∷ zs) x y d (inr i) (inr j) e = DistinctBy-eq key zs x y d.1 i j e

  -- An update that leaves the keys alone keeps them distinct.
  pub DistinctBy-update :
      (key : A → ℕ) (p : A → Bool) (f : A → A) (xs : List A)
      → ((x : A) → key (f x) ≡ key x)
      → DistinctBy key xs
      → DistinctBy key (update p f xs)
  unfolding update
  DistinctBy-update key p f [] k d = tt
  DistinctBy-update key p f (x ∷ xs) k d = (
    All-update (λ y. key (if p x then f x else x) ≡ key y → ⊥) p f xs (λ y _ h e. h (e ∙ k y))
        (one (p x)),
    DistinctBy-update key p f xs k d.1,
  )
    where
      one : (b : Bool) → All (λ y. key (if b then f x else x) ≡ key y → ⊥) xs
      one true = rw (k x) d.0
      one false = d.0

  -- A row whose key no row has may be appended.
  pub DistinctBy-append :
      (key : A → ℕ) (xs : List A) (x : A)
      → All (λ y. key y ≡ key x → ⊥) xs
      → DistinctBy key xs
      → DistinctBy key (xs ++ x ∷ [])
  DistinctBy-append key [] x h d = (tt, tt)
  DistinctBy-append key (y ∷ ys) x h d = (
    All-append (λ u. key y ≡ key u → ⊥) ys (x ∷ []) d.0 (h.0, tt),
    DistinctBy-append key ys x h.1 d.1,
  )

  -- A test that no row passes, read row by row.
  pub All-of-not-any :
      (P : A → Type 0) (p : A → Bool) (xs : List A)
      → any p xs ≡ false
      → ((y : A) → p y ≡ false → P y)
      → All P xs
  unfolding any
  All-of-not-any P p [] h k = tt
  All-of-not-any P p (y ∷ ys) h k = (k y (ground arith), All-of-not-any P p ys (ground arith) k)

  -- A row behind rows that fail the test is the first that passes it.
  pub find?-snoc :
      (p : A → Bool) (xs : List A) (x : A)
      → any p xs ≡ false
      → p x ≡ true
      → find? p (xs ++ x ∷ []) ≡ some x
  unfolding any find?
  find?-snoc p [] x h e = rw e
  find?-snoc p (y ∷ ys) x h e = elim (Bool-cases (p y)) [
    | inl t ↦ absurd (ground arith)
    | inr f ↦ rw f (find?-snoc p ys x (ground arith) e)
  ]

  -- A test that fails wherever a weaker one does.
  pub any_weaken :
      (p q : A → Bool) (xs : List A)
      → ((x : A) → q x ≡ false → p x ≡ false)
      → any q xs ≡ false
      → any p xs ≡ false
  unfolding any
  any_weaken p q [] k h = refl
  any_weaken p q (x ∷ xs) k h = ground (arith, k x, any_weaken p q xs k)

  -- With distinct keys, a row is the first that has its key.
  pub find?-DistinctBy :
      (key : A → ℕ) (xs : List A) (x : A)
      → DistinctBy key xs
      → In x xs
      → find? (λ y. key y == key x) xs ≡ some x
  unfolding find?
  find?-DistinctBy key [] x d i = absurd i
  find?-DistinctBy key (y ∷ ys) x d (inl e) = rw (ap key e, ==_refl (key x)) (ap (λ z. some z) e)
  find?-DistinctBy key (y ∷ ys) x d (inr i) =
      let differ : key y ≡ key x → ⊥ = All-In (λ u. key y ≡ key u → ⊥) ys x d.0 i in
      elim (Bool-cases (key y == key x)) [
        | inl e ↦ absurd (differ (eq-of-== (key y) (key x) e))
        | inr e ↦ rw e (find?-DistinctBy key ys x d.1 i)
      ]
