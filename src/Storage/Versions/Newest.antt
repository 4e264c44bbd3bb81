-- ===== src/Storage/Versions/Newest.antt =====
-- Which revision stands in for one that is revoked.
use jitforge.Base.{
  ℕ, ◌≤◌, Bool, true, not, ◌&&◌, Option, none, some, List, [], ◌∷◌, ◌≡◌, refl, subst, inl, inr,
  arith, leb, ◌==◌, select, In, select-In, In-select, All, All-In, Bool-cases,
}
use jitforge.Storage.Schema.{Version}
use jitforge.Storage.Versions.{is_ready, larger, max_revision, fallback}

-- No revision of the list, or one of them that none exceeds.
abbrev IsMax : List Version → Option ℕ → Type 0
IsMax vs none = vs ≡ []
IsMax vs (some m) = ((v : Version) × In v vs × (v.revision ≡ m)) × All (λ v. v.revision ≤ m) vs

All-le :
    (m n : ℕ) (vs : List Version)
    → m ≤ n
    → All (λ v. v.revision ≤ m) vs
    → All (λ v. v.revision ≤ n) vs
All-le m n [] h a = tt
All-le m n (v ∷ vs) h a = (omega arith, All-le m n vs h a.1)

larger-IsMax :
    (v : Version) (vs : List Version) (o : Option ℕ)
    → IsMax vs o
    → IsMax (v ∷ vs) (larger v.revision o)
larger-IsMax v vs none h = ((v, inl refl, refl), (ground arith, rw h tt))
larger-IsMax v vs (some m) ((w, i, e), below) = elim (Bool-cases (leb v.revision m)) [
  | inl t ↦ rw t ((w, inr i, e), (ground arith, below))
  | inr f ↦ rw f ((v, inl refl, refl), (ground arith, All-le m v.revision vs (ground arith) below))
]

max_revision-IsMax : (vs : List Version) → IsMax vs (max_revision vs)
unfolding max_revision
max_revision-IsMax [] = refl
max_revision-IsMax (v ∷ vs) = larger-IsMax v vs (max_revision vs) (max_revision-IsMax vs)

-- A version that can stand in for the revision of the tool.
abbrev pub Replaces : ℕ → ℕ → Version → Type 0
Replaces tool_id revision v =
    (v.tool_id ≡ tool_id) × (is_ready v.status ≡ true) × (v.revision ≡ revision → ⊥)

-- What stands in for the revision: none if no version can, or else the newest that can.
abbrev pub IsFallback : ℕ → ℕ → List Version → Option ℕ → Type 0
IsFallback tool_id revision vs none = (v : Version) → In v vs → Replaces tool_id revision v → ⊥
IsFallback tool_id revision vs (some r) =
    ((v : Version) × In v vs × Replaces tool_id revision v × (v.revision ≡ r))
    × ((v : Version) → In v vs → Replaces tool_id revision v → v.revision ≤ r)

-- The fallback of a revision is none if its tool has no other ready version, and else the newest of
-- them.
pub fallback-IsFallback :
    (tool_id revision : ℕ) (vs : List Version)
    → IsFallback tool_id revision vs (fallback tool_id revision vs)
unfolding fallback
fallback-IsFallback tool_id revision vs = go (max_revision chosen) (max_revision-IsMax chosen)
  where
    test : Version → Bool
    test v = v.tool_id == tool_id && is_ready v.status && not (v.revision == revision)

    chosen : List Version
    chosen = select test vs

    in_chosen : (v : Version) → In v vs → Replaces tool_id revision v → In v chosen
    in_chosen v i (a, b, c) = In-select test vs v i (ground arith)

    replaces : (v : Version) → test v ≡ true → Replaces tool_id revision v
    replaces v e = (ground arith, ground arith, λ same. ground arith)

    go : (o : Option ℕ) → IsMax chosen o → IsFallback tool_id revision vs o
    go none empty = λ v i r. subst (In v) empty (in_chosen v i r)
    go (some m) ((v, i, e), below) =
        let (j, t) = select-In test vs v i in
        (
          (v, j, replaces v t, e),
          λ w k r. All-In (λ u. u.revision ≤ m) chosen w below (in_chosen w k r),
        )
