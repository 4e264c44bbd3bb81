-- ===== src/Text/Replace.antt =====
-- `str::match_indices` and `str::replacen`.
use Prim.Native.String.{[], ◌∷◌}
use jitforge.Base.{ℕ, zero, suc, ◌+◌, ◌-◌, String, Bool, ◌&&◌, ◌==◌, if◌then◌else◌}
use jitforge.Text.Format.{◌+++◌, starts_with}

unfoldable pub count_chars : String → ℕ
count_chars [] = 0
count_chars (c ∷ s) = suc (count_chars s)

unfoldable pub drop_chars : ℕ → String → String
drop_chars n [] = []
drop_chars zero (c ∷ s) = c ∷ s
drop_chars (suc n) (c ∷ s) = drop_chars n s

-- The occurrences of a nonempty text that do not overlap, after the next `skip` characters.
unfoldable pub count_from : String → ℕ → String → ℕ
unfolding count_chars
count_from old skip [] = 0
count_from old skip (c ∷ s) =
    let here : Bool = skip == 0 && starts_with (c ∷ s) old in
    (if here then 1 else 0) + count_from old (if here then count_chars old - 1 else skip - 1) s

-- `match_indices(old).count()`
abbrev pub count_matches : String → String → ℕ
count_matches old s = count_from old 0 s

-- `replacen(old, new, 1)`
unfoldable pub replace_first : String → String → String → String
unfolding drop_chars count_chars
replace_first old new [] = []
replace_first old new (c ∷ s) =
    let rest = replace_first old new s in
    if starts_with (c ∷ s) old then new +++ drop_chars (count_chars old) (c ∷ s) else c ∷ rest
