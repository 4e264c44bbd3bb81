-- ===== src/Base/Maps.antt =====
-- Rust's `BTreeMap` as a list of entries in the order of their keys: `get`, `insert`, `values`.
use mathlib.Core.Path.{◌≡◌, refl}
use mathlib.Core.Bool.{Bool}
use mathlib.Core.Option.{Option, none, some}
use mathlib.Core.List.{List, [], ◌∷◌}
use Prim.Native.Nat.{ℕ}
use native.Mathlib.Omega.{arith}
use jitforge.Base.Tests.{if◌then◌else◌, ◌==◌, ltb}

module _ {K V : Type 0} where
  unfoldable pub values : List (K × V) → List V
  values [] = []
  values ((k, v) ∷ m) = v ∷ values m

  -- `same` tests keys for equality, `before` for order.
  unfoldable pub get_by : (K → K → Bool) → K → List (K × V) → Option V
  get_by same k [] = none
  get_by same k ((i, w) ∷ m) = if same i k then some w else get_by same k m

  unfoldable pub insert_by : (K → K → Bool) → (K → K → Bool) → K → V → List (K × V) → List (K × V)
  insert_by same before k v [] = (k, v) ∷ []
  insert_by same before k v ((i, w) ∷ m) =
      let rest = insert_by same before k v m in
      if same i k then (k, v) ∷ m else if before k i then (k, v) ∷ (i, w) ∷ m else (i, w) ∷ rest

module _ {V : Type 0} where
  abbrev pub get_index : ℕ → List (ℕ × V) → Option V
  get_index = get_by ◌==◌

  abbrev pub insert_index : ℕ → V → List (ℕ × V) → List (ℕ × V)
  insert_index = insert_by ◌==◌ ltb

  pub get_index-insert_index :
      (j k : ℕ) (v : V) (m : List (ℕ × V))
      → get_index j (insert_index k v m) ≡ (if k == j then some v else get_index j m)
  unfolding get_by insert_by
  get_index-insert_index j k v [] = refl
  get_index-insert_index j k v ((i, w) ∷ m) = ground (arith, get_index-insert_index j k v m)
