-- ===== src/Storage/Listing/Pages.antt =====
-- The pages of `list_jobs`, followed by their next offsets.
use Prim.Native.Nat.{zero, suc}
use native.Mathlib.Numerals.{unary_clauses}
use jitforge.Base.{
  ℕ, ◌+◌, ◌≤◌, ◌<◌, true, Option, none, some, List, [], ◌∷◌, ◌++◌, ◌≡◌, refl, sym, ap, ◌∙◌, inl,
  inr, arith, ltb, take, drop, length, Bool-cases,
}
use jitforge.Storage.Listing.{u64_max, next_offset, page}

-- The rows behind a next offset, read with `read`.
abbrev follow_next : {A : Type 0} → (ℕ → List A) → Option ℕ → List A
follow_next read none = []
follow_next read (some offset) = read offset

-- The rows of the page at an offset and of the `fuel` pages behind it.
unfoldable pub follow : {A : Type 0} → ℕ → ℕ → ℕ → List A → List A
unfolding page
follow zero limit offset rows = []
follow (suc fuel) limit offset rows =
    let p = page limit offset rows in p.rows ++ follow_next (λ o. follow fuel limit o rows) p.next

next_offset_more :
    (offset limit : ℕ)
    → offset + limit ≤ u64_max
    → next_offset true offset limit ≡ some (offset + limit)
unfolding next_offset
next_offset_more offset limit h = ground arith

module _ {A : Type 0} where
  take-take-suc : (n : ℕ) (xs : List A) → take n (take (suc n) xs) ≡ take n xs
  take-take-suc zero xs = refl
  take-take-suc (suc n) [] = refl
  take-take-suc (suc n) (x ∷ xs) = ap (λ ys. x ∷ ys) (take-take-suc n xs)

  take-take : (n : ℕ) (xs : List A) → take n (take (n + 1) xs) ≡ take n xs
  take-take n xs =
      let step : n + 1 ≡ suc n = omega arith in
      ap (λ m. take n (take m xs)) step ∙ take-take-suc n xs

  more-take : (n : ℕ) (xs : List A) → ltb n (length (take (n + 1) xs)) ≡ ltb n (length xs)
  more-take zero [] = refl
  more-take zero (x ∷ xs) = ground arith
  more-take (suc n) [] = ground arith
  more-take (suc n) (x ∷ xs) = ground (arith, more-take n xs)

  -- One row more than a page is fetched exactly if there are rows behind the page.
  more-drop : (n o : ℕ) (xs : List A) → ltb n (length (drop o xs)) ≡ ltb (o + n) (length xs)
  more-drop n zero xs = ap (λ m. ltb m (length xs)) (omega arith)
  more-drop n (suc o) [] = ground arith
  more-drop n (suc o) (x ∷ xs) = ground (arith, more-drop n o xs)

  take-drop : (n : ℕ) (xs : List A) → take n xs ++ drop n xs ≡ xs
  take-drop zero xs = refl
  take-drop (suc n) [] = refl
  take-drop (suc n) (x ∷ xs) = ap (λ ys. x ∷ ys) (take-drop n xs)

  drop-drop : (n o : ℕ) (xs : List A) → drop n (drop o xs) ≡ drop (o + n) xs
  drop-drop n zero xs = ap (λ m. drop m xs) (omega arith)
  drop-drop zero (suc o) [] = simp unary_clauses refl
  drop-drop (suc n) (suc o) [] = simp unary_clauses refl
  drop-drop n (suc o) (x ∷ xs) =
      let step : suc (o + n) ≡ suc o + n = omega arith in
      drop-drop n o xs ∙ ap (λ m. drop m (x ∷ xs)) step

  drop_all : (n : ℕ) (xs : List A) → length xs ≤ n → drop n xs ≡ []
  drop_all zero [] h = refl
  drop_all zero (x ∷ xs) h = absurd (omega arith)
  drop_all (suc n) [] h = refl
  drop_all (suc n) (x ∷ xs) h = drop_all n xs (omega arith)

  append_nil : (xs : List A) → xs ++ [] ≡ xs
  append_nil [] = refl
  append_nil (x ∷ xs) = ap (λ ys. x ∷ ys) (append_nil xs)

  has_more-page :
      (limit offset : ℕ) (rows : List A)
      → ltb limit (length (take (limit + 1) (drop offset rows)))
        ≡ ltb (offset + limit) (length rows)
  has_more-page limit offset rows = more-take limit (drop offset rows) ∙ more-drop limit offset rows

  -- The page at an offset, and what is read from the next offset on.
  follow-page :
      (fuel limit offset : ℕ) (rows : List A)
      → length rows ≤ u64_max
      → (offset + limit < length rows
          → follow fuel limit (offset + limit) rows ≡ drop (offset + limit) rows)
      → follow (suc fuel) limit offset rows ≡ drop offset rows
  unfolding follow page next_offset
  follow-page fuel limit offset rows u rest =
      elim (Bool-cases (ltb (offset + limit) (length rows))) [
        | inl e ↦
            rw
              (
                take-take limit (drop offset rows),
                has_more-page limit offset rows,
                e,
                next_offset_more offset limit (ground arith),
              )
              (join (rest (ground arith)))
        | inr e ↦
            rw (take-take limit (drop offset rows), has_more-page limit offset rows, e)
              (join (sym (drop_all (offset + limit) rows (ground arith))))
      ]
    where
      join :
          {ys : List A}
          → ys ≡ drop (offset + limit) rows
          → take limit (drop offset rows) ++ ys ≡ drop offset rows
      join e =
          ap (λ ys. take limit (drop offset rows) ++ ys) (e ∙ sym (drop-drop limit offset rows))
          ∙ take-drop limit (drop offset rows)

  -- With a page of at least one row and enough pages, the pages at an offset and behind it hold, in
  -- order and each once, the rows from that offset on.
  pub follow-drop :
      (fuel limit offset : ℕ) (rows : List A)
      → 1 ≤ limit
      → length rows ≤ u64_max
      → length rows ≤ offset + fuel
      → follow (suc fuel) limit offset rows ≡ drop offset rows
  follow-drop zero limit offset rows l u h =
      follow-page 0 limit offset rows u (λ b. absurd (omega arith))
  follow-drop (suc n) limit offset rows l u h =
      follow-page (suc n) limit offset rows u
        (λ b. follow-drop n limit (offset + limit) rows l u (omega arith))
