-- ===== src/Text/Trim.antt =====
-- `trim` on a trimmed text.
use Prim.Native.String.{[], ◌∷◌}
use jitforge.Base.{String, Char, ◌≡◌, refl, ap, ◌∙◌, inl, inr, Bool, true, false, Bool-cases}
use jitforge.Text.{is_whitespace, trim_start, trim_end, trim, keep_end}

trim_end-keep_end :
    (b : Bool) (c : Char) (s : String)
    → is_whitespace c ≡ b
    → trim_end s ≡ s
    → trim_end (keep_end b c s) ≡ keep_end b c s
unfolding trim_end
trim_end-keep_end true c [] e h = refl
trim_end-keep_end true c (d ∷ s) e h = rw h (ap (λ b. keep_end b c (d ∷ s)) e)
trim_end-keep_end false c s e h = rw h (ap (λ b. keep_end b c s) e)

trim_end-trim_end : (s : String) → trim_end (trim_end s) ≡ trim_end s
unfolding trim_end
trim_end-trim_end [] = refl
trim_end-trim_end (c ∷ s) =
    trim_end-keep_end (is_whitespace c) c (trim_end s) refl (trim_end-trim_end s)

-- A text that is empty or starts with another character than white space.
abbrev Starts : String → Type 0
Starts [] = Unit
Starts (c ∷ s) = is_whitespace c ≡ false

Starts-trim_start : (s : String) → Starts (trim_start s)
unfolding trim_start
Starts-trim_start [] = tt
Starts-trim_start (c ∷ s) = elim (Bool-cases (is_whitespace c)) [
  | inl e ↦ rw e (Starts-trim_start s)
  | inr e ↦ rw e e
]

trim_start-of-Starts : (s : String) → Starts s → trim_start s ≡ s
unfolding trim_start
trim_start-of-Starts [] h = refl
trim_start-of-Starts (c ∷ s) h = rw h

Starts-trim_end : (s : String) → Starts s → Starts (trim_end s)
unfolding trim_end
Starts-trim_end [] h = tt
Starts-trim_end (c ∷ s) h = rw h h

pub trim-trim : (s : String) → trim (trim s) ≡ trim s
unfolding trim
trim-trim s =
    ap trim_end (trim_start-of-Starts _ (Starts-trim_end _ (Starts-trim_start s)))
    ∙ trim_end-trim_end (trim_start s)
